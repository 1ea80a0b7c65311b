-- ===== src/Snapdiff/Normalize/Refs.antt =====
-- The `ref` numbers of a snapshot play no part in its comparison.
use hwatu.Common.{
  ◌≡◌, refl, sym, ap, ◌∙◌, List, [], ◌∷◌, ◌++◌, Option, none, some, length, true, false,
}
use hwatu.Common.Text.{Text, codes, text_eq, text_eq_refl}
use hwatu.Json.{JsonApi}
use hwatu.Snapdiff.{Node, diff}
use hwatu.Snapdiff.Pairing.{SameNodes, diff-SameNodes}
use hwatu.Snapdiff.Normalize.{
  Seen, occurrence, get_str, interactable_key, text_nodes, element_nodes, maybe_elements,
  maybe_lines, head_node, interactables, normalize,
}

module _ (J : JsonApi) where
  open J use {Value, get, without}

  -- Element by element the same but for `ref`.
  abbrev pub SameButRefs : List Value → List Value → Type 0
  SameButRefs [] [] = Unit
  SameButRefs [] (w ∷ ws) = ⊥
  SameButRefs (v ∷ vs) [] = ⊥
  SameButRefs (v ∷ vs) (w ∷ ws) =
      (without v (codes "ref") ≡ without w (codes "ref")) × SameButRefs vs ws

  get_str-without :
      (v w : Value) (j : Text)
      → text_eq j (codes "ref") ≡ false
      → without v (codes "ref") ≡ without w (codes "ref")
      → get_str J v j ≡ get_str J w j
  get_str-without v w j apart e =
      ap (λ (o : Option Value). elim o [ none ↦ none | some u ↦ J.as_str u ])
        (sym (J.get-without v j (codes "ref") apart)
          ∙ (ap (λ u. get u j) e ∙ J.get-without w j (codes "ref") apart))

  interactable_key-without :
      (v w : Value)
      → without v (codes "ref") ≡ without w (codes "ref")
      → interactable_key J v ≡ interactable_key J w
  unfolding interactable_key
  interactable_key-without v w e = cc (
    get_str-without v w (codes "tag") refl e,
    get_str-without v w (codes "id") refl e,
    get_str-without v w (codes "name") refl e,
    get_str-without v w (codes "href") refl e,
    get_str-without v w (codes "text") refl e,
  )

  same_refl : (v : Value) → J.same v v ≡ true
  same_refl v = J.same_refl v

  SameNodes-append :
      (ps cs ds : List (Node Value)) → SameNodes J cs ds → SameNodes J (ps ++ cs) (ps ++ ds)
  SameNodes-append [] cs ds h = h
  SameNodes-append (p ∷ ps) cs ds h =
      (rw (text_eq_refl p.key) (same_refl p.bare), SameNodes-append ps cs ds h)

  element_nodes-SameNodes :
      (seen : Seen) (vs ws : List Value)
      → SameButRefs vs ws
      → SameNodes J (element_nodes J seen vs) (element_nodes J seen ws)
  unfolding element_nodes
  element_nodes-SameNodes seen [] [] h = tt
  element_nodes-SameNodes seen [] (w ∷ ws) h = absurd h
  element_nodes-SameNodes seen (v ∷ vs) [] h = absurd h
  element_nodes-SameNodes seen (v ∷ vs) (w ∷ ws) (e, h) = rw (interactable_key-without v w e) (
    rw e (
        rw (text_eq_refl (occurrence seen (interactable_key J w)).1)
          (same_refl (without w (codes "ref")))),
    element_nodes-SameNodes (occurrence seen (interactable_key J w)).0 vs ws h,
  )

  -- Snapshots with the same url, title and text, whose interactables agree but for `ref`.
  pub record SamePage (a b : Value) : Type 0 where
    pub url : get_str J a (codes "url") ≡ get_str J b (codes "url")
    pub title : get_str J a (codes "title") ≡ get_str J b (codes "title")
    pub text : get_str J a (codes "text") ≡ get_str J b (codes "text")
    pub elements :
        SameButRefs (maybe_elements J (interactables J a)) (maybe_elements J (interactables J b))

  normalize-SameNodes : (a b : Value) → SamePage a b → SameNodes J (normalize J a) (normalize J b)
  unfolding normalize
  normalize-SameNodes a b h =
      let heads =
        head_node J (codes "url") (get_str J b (codes "url"))
        ++ head_node J (codes "title") (get_str J b (codes "title")) in
      let lines = text_nodes J [] (maybe_lines J (get_str J b (codes "text"))) in
      let old = element_nodes J lines.0 (maybe_elements J (interactables J a)) in
      let new = element_nodes J lines.0 (maybe_elements J (interactables J b)) in
      rw (h.url, h.title, h.text)
        (SameNodes-append heads (lines.1 ++ old) (lines.1 ++ new)
          (SameNodes-append lines.1 old new (element_nodes-SameNodes lines.0 _ _ h.elements)))

-- Snapshots of a page whose url, title and text are the same, and whose interactables are the same
-- one by one but for their `ref`, differ in nothing: no node is added, removed or changed.
pub diff_ignores_refs :
    (J : JsonApi) (a b : J.Value)
    → SamePage J a b
    → diff J (normalize J a) (normalize J b)
      ≡ record { added = []; removed = []; changed = []; unchanged_count = length (normalize J a) }
diff_ignores_refs J a b h =
    diff-SameNodes J (normalize J a) (normalize J b) (normalize-SameNodes J a b h)
