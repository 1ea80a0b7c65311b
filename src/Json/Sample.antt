-- ===== src/Json/Sample.antt =====
-- A concrete `JsonApi` over JSON trees with no numbers, for tests: it shows that the laws can hold.
use hwatu.Common.{
  ◌≡◌, refl, ◌↔◌, Bool, true, false, ◌&&◌, Option, none, some, List, [], ◌∷◌, arith, if◌then◌else◌,
  Bool-cases, inl, inr, subst, &&-left, &&-right,
}
use hwatu.Common.Text.{Text, text_eq, text_eq→eq, text_eq_refl}
use hwatu.Json.{JsonApi}

mutual
  pub data Tree : Type 0 where
    null : Tree
    str : Text → Tree
    arr : Trees → Tree
    obj : Entries → Tree

  pub data Trees : Type 0 where
    nil : Trees
    cons : Tree → Trees → Trees

  pub data Entries : Type 0 where
    end : Entries
    entry : Text → Tree → Entries → Entries

unfoldable mutual
  pub tree_eq : Tree → Tree → Bool
  tree_eq null null = true
  tree_eq (str s) (str t) = text_eq s t
  tree_eq (arr xs) (arr ys) = trees_eq xs ys
  tree_eq (obj xs) (obj ys) = entries_eq xs ys
  tree_eq _ _ = false

  pub trees_eq : Trees → Trees → Bool
  trees_eq nil nil = true
  trees_eq (cons x xs) (cons y ys) = tree_eq x y && trees_eq xs ys
  trees_eq _ _ = false

  pub entries_eq : Entries → Entries → Bool
  entries_eq end end = true
  entries_eq (entry k x xs) (entry j y ys) = text_eq k j && (tree_eq x y && entries_eq xs ys)
  entries_eq _ _ = false

mutual
  unfolding tree_eq trees_eq entries_eq

  tree_sound : (a b : Tree) → tree_eq a b ≡ true → a ≡ b
  tree_sound null null h = refl
  tree_sound (str s) (str t) h = cc (text_eq→eq s t h)
  tree_sound (arr xs) (arr ys) h = cc (trees_sound xs ys h)
  tree_sound (obj xs) (obj ys) h = cc (entries_sound xs ys h)
  tree_sound _ _ h = cc

  trees_sound : (a b : Trees) → trees_eq a b ≡ true → a ≡ b
  trees_sound nil nil h = refl
  trees_sound (cons x xs) (cons y ys) h = ground (arith, tree_sound x y, trees_sound xs ys)
  trees_sound _ _ h = cc

  entries_sound : (a b : Entries) → entries_eq a b ≡ true → a ≡ b
  entries_sound end end h = refl
  entries_sound (entry k x xs) (entry j y ys) h =
      let rest = &&-right (text_eq k j) (tree_eq x y && entries_eq xs ys) h in
      cc (
        text_eq→eq k j (&&-left (text_eq k j) (tree_eq x y && entries_eq xs ys) h),
        tree_sound x y (&&-left (tree_eq x y) (entries_eq xs ys) rest),
        entries_sound xs ys (&&-right (tree_eq x y) (entries_eq xs ys) rest),
      )
  entries_sound _ _ h = cc

mutual
  unfolding tree_eq trees_eq entries_eq

  tree_refl : (a : Tree) → tree_eq a a ≡ true
  tree_refl null = refl
  tree_refl (str s) = text_eq_refl s
  tree_refl (arr xs) = trees_refl xs
  tree_refl (obj xs) = entries_refl xs

  trees_refl : (a : Trees) → trees_eq a a ≡ true
  trees_refl nil = refl
  trees_refl (cons x xs) = ground (arith, tree_refl x, trees_refl xs)

  entries_refl : (a : Entries) → entries_eq a a ≡ true
  entries_refl end = refl
  entries_refl (entry k x xs) = ground (arith, text_eq_refl k, tree_refl x, entries_refl xs)

pub tree_eq_iff : (a b : Tree) → (tree_eq a b ≡ true) ↔ (a ≡ b)
tree_eq_iff a b = (tree_sound a b, λ e. rw e (tree_refl b))

abbrev pub lookup : Entries → Text → Option Tree
lookup end k = none
lookup (entry j v rest) k = if text_eq j k then some v else lookup rest k

abbrev pub remove : Entries → Text → Entries
remove end k = end
remove (entry j v rest) k =
    let later = remove rest k in if text_eq j k then later else entry j v later

lookup-remove :
    (es : Entries) (j k : Text) → text_eq j k ≡ false → lookup (remove es k) j ≡ lookup es j
lookup-remove end j k h = refl
lookup-remove (entry i v rest) j k h = elim (Bool-cases (text_eq i k)) [
  | inl e ↦ elim (Bool-cases (text_eq i j)) [
    | inl d ↦
        let same : text_eq j k ≡ true = subst (λ t. text_eq t k ≡ true) (text_eq→eq i j d) e in
        absurd (cc)
    | inr d ↦ rw e (rw (d, lookup-remove rest j k h))
  ]
  | inr e ↦ rw (e, lookup-remove rest j k h)
]

abbrev get : Tree → Text → Option Tree
get (obj es) k = lookup es k
get null k = none
get (str s) k = none
get (arr xs) k = none

abbrev without : Tree → Text → Tree
without (obj es) k = obj (remove es k)
without null k = null
without (str s) k = str s
without (arr xs) k = arr xs

pub get-without : (v : Tree) (j k : Text) → text_eq j k ≡ false → get (without v k) j ≡ get v j
get-without (obj es) j k h = lookup-remove es j k h
get-without null j k h = refl
get-without (str s) j k h = refl
get-without (arr xs) j k h = refl

abbrev as_str : Tree → Option Text
as_str (str s) = some s
as_str null = none
as_str (arr xs) = none
as_str (obj es) = none

abbrev to_list : Trees → List Tree
to_list nil = []
to_list (cons x xs) = x ∷ to_list xs

abbrev of_list : List Tree → Trees
of_list [] = nil
of_list (x ∷ xs) = cons x (of_list xs)

abbrev of_pairs : List (Text × Tree) → Entries
of_pairs [] = end
of_pairs ((k, v) ∷ rest) = entry k v (of_pairs rest)

abbrev as_array : Tree → Option (List Tree)
as_array (arr xs) = some (to_list xs)
as_array null = none
as_array (str s) = none
as_array (obj es) = none

abbrev pub sample_json : JsonApi
sample_json = record {
  Value = Tree;
  same = tree_eq;
  same_refl = λ a. (tree_eq_iff a a).1 refl;
  get = get;
  as_str = as_str;
  as_array = as_array;
  null = null;
  string = str;
  array = λ xs. arr (of_list xs);
  object = λ kvs. obj (of_pairs kvs);
  without = without;
  get-without = get-without;
}
