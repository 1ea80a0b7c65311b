-- ===== src/Downloads/Names.antt =====
-- crates/hwatud/src/downloads.rs, `unique_path`: the file that a download is saved to. The directory
-- is the parameter `join`, what it holds is `exists`; the fuel is the range of the counter.
use hwatu.Common.{
  ℕ, zero, suc, ◌+◌, ◌≤◌, ◌≡◌, refl, subst, [], ◌∷◌, ◌++◌, Bool, false, Option, none, some,
  if◌then◌else◌, is_empty, arith, Bool-cases, inl, inr,
}
use hwatu.Common.Text.{Text, codes, rsplit_once, decimal}

-- The name without its last extension, and the extension with its dot.
abbrev pub stem_and_ext : Text → Text × Text
stem_and_ext n = elim (rsplit_once b'.' n) [
  | none ↦ (n, [])
  | some (s, e) ↦ if is_empty s then (n, []) else (s, b'.' ∷ e)
]

abbrev pub numbered_name : Text → ℕ → Text
numbered_name n k =
    let (stem, ext) = stem_and_ext n in stem ++ (codes " (" ++ (decimal k ++ (codes ")" ++ ext)))

module _ (exists : Text → Bool) (join : Text → Text) where
  -- The loop from a counter on.
  unfoldable pub try_from : ℕ → Text → ℕ → Option Text
  try_from zero n k = none
  try_from (suc fuel) n k =
      let rest = try_from fuel n (k + 1) in
      let candidate = join (numbered_name n k) in if exists candidate then rest else some candidate

  unfoldable pub unique_path : ℕ → Text → Option Text
  unfolding try_from
  unique_path fuel n =
      let candidate = join n in if exists candidate then try_from fuel n 1 else some candidate

  -- The outcome is a path that is free.
  abbrev pub IsFree : Option Text → Type 0
  IsFree found = (path : Text) × ((found ≡ some path) × (exists path ≡ false))

  try_from-IsFree :
      (fuel k d : ℕ) (n : Text)
      → exists (join (numbered_name n (k + d))) ≡ false
      → d + 1 ≤ fuel
      → IsFree (try_from fuel n k)
  unfolding try_from
  try_from-IsFree zero k d n free h = ground arith
  try_from-IsFree (suc fuel) k zero n free h =
      let same : k + 0 ≡ k = omega arith in
      let here : exists (join (numbered_name n k)) ≡ false =
        subst (λ i. exists (join (numbered_name n i)) ≡ false) same free in
      rw (try_from, here) (join (numbered_name n k), (refl, here))
  try_from-IsFree (suc fuel) k (suc d) n free h =
      elim (Bool-cases (exists (join (numbered_name n k)))) [
        | inr e ↦ rw (try_from, e) (join (numbered_name n k), (refl, e))
        | inl e ↦
            let later : k + suc d ≡ k + 1 + d = omega arith in
            rw (try_from, e)
              (try_from-IsFree fuel (k + 1) d n
                (subst (λ i. exists (join (numbered_name n i)) ≡ false) later free) (omega arith))
      ]

  -- Where one of the first numbered names is free, the search ends, with a path at which nothing
  -- exists when it is tried.
  pub unique_path-IsFree :
      (fuel d : ℕ) (n : Text)
      → exists (join (numbered_name n (d + 1))) ≡ false
      → d + 1 ≤ fuel
      → IsFree (unique_path fuel n)
  unfolding unique_path
  unique_path-IsFree fuel d n free h = elim (Bool-cases (exists (join n))) [
    | inr e ↦ rw (unique_path, e) (join n, (refl, e))
    | inl e ↦
        let comm : d + 1 ≡ 1 + d = omega arith in
        rw (unique_path, e)
          (try_from-IsFree fuel 1 d n
            (subst (λ k. exists (join (numbered_name n k)) ≡ false) comm free) h)
  ]
