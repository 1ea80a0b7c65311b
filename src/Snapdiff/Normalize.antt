-- ===== src/Snapdiff/Normalize.antt =====
-- `normalize`, `interactable_key` and `occurrence` of crates/hwatud/src/snapdiff.rs.
pub mod Refs
use hwatu.Common.{
  ℕ, ◌+◌, ◌%◌, List, [], ◌∷◌, ◌++◌, map, Bool, not, Option, none, some, ◌==◌, if◌then◌else◌,
  is_empty, keep,
}
use hwatu.Common.Text.{Text, codes, text_eq, split_at_char, trim, decimal}
use hwatu.Json.{JsonApi}
use hwatu.Snapdiff.{Node, u32_mod}

-- The `HashMap<String, u32>` of occurrences; a key that is not there counts as 0.
abbrev pub Seen : Type 0
Seen = List (Text × ℕ)

abbrev pub seen_count : Seen → Text → ℕ
seen_count [] k = 0
seen_count ((j, n) ∷ seen) k = if text_eq j k then n else seen_count seen k

-- `occurrence`: the new counts and the key, with its number from the second copy on.
unfoldable pub occurrence : Seen → Text → Seen × Text
occurrence seen key =
    let n = (seen_count seen key + 1) % u32_mod in
    ((key, n) ∷ seen, if n == 1 then key else key ++ (codes "~" ++ decimal n))

abbrev pub str_or : Option Text → Text → Text
str_or none d = d
str_or (some s) d = s

-- The cascade of `interactable_key`: `id`, then `name`, then `href`, then the text.
unfoldable pub key_from : Text → Option Text → Option Text → Option Text → Text → Text
key_from tag (some id) name href text = tag ++ (codes "#" ++ id)
key_from tag none (some name) href text = tag ++ (codes "[name=" ++ (name ++ codes "]"))
key_from tag none none (some href) text = tag ++ (codes "[href=" ++ (href ++ codes "]"))
key_from tag none none none text = tag ++ (codes ":" ++ text)

module _ (J : JsonApi) where
  open J use {Value, get, as_str, as_array, string, object, without}

  -- `v.get(k).and_then(Value::as_str)`.
  abbrev pub get_str : Value → Text → Option Text
  get_str v k = elim (get v k) [ none ↦ none | some w ↦ as_str w ]

  pub interactable_key : Value → Text
  interactable_key el =
      key_from (str_or (get_str el (codes "tag")) (codes "?")) (get_str el (codes "id"))
        (get_str el (codes "name")) (get_str el (codes "href"))
        (str_or (get_str el (codes "text")) [])

  abbrev pub plain_node : Text → Value → Node Value
  plain_node key v = record { key = key; bare = v; emit = v }

  -- The node of the url or the title.
  abbrev pub head_node : Text → Option Text → List (Node Value)
  head_node field none = []
  head_node field (some s) =
      plain_node field (object ((codes "kind", string field) ∷ (field, string s) ∷ [])) ∷ []

  -- The trimmed lines of the text that are not empty.
  abbrev pub text_lines : Text → List Text
  text_lines text = keep (λ l. not (is_empty l)) (map trim (split_at_char 10 text))

  pub text_nodes : Seen → List Text → Seen × List (Node Value)
  text_nodes seen [] = (seen, [])
  text_nodes seen (line ∷ lines) =
      let (seen', key) = occurrence seen (codes "text:" ++ line) in
      let v = object ((codes "kind", string (codes "text")) ∷ (codes "text", string line) ∷ []) in
      let (seen'', rest) = text_nodes seen' lines in (seen'', plain_node key v ∷ rest)

  pub element_nodes : Seen → List Value → List (Node Value)
  element_nodes seen [] = []
  element_nodes seen (el ∷ els) =
      let (seen', key) = occurrence seen (interactable_key el) in
      record { key = key; bare = without el (codes "ref"); emit = el } ∷ element_nodes seen' els

  abbrev pub maybe_lines : Option Text → List Text
  maybe_lines none = []
  maybe_lines (some text) = text_lines text

  abbrev pub maybe_elements : Option (List Value) → List Value
  maybe_elements none = []
  maybe_elements (some els) = els

  -- `snapshot.get("interactables").and_then(Value::as_array)`.
  abbrev pub interactables : Value → Option (List Value)
  interactables snapshot = elim (get snapshot (codes "interactables")) [
    | none ↦ none
    | some v ↦ as_array v
  ]

  pub normalize : Value → List (Node Value)
  unfolding text_nodes element_nodes
  normalize snapshot =
      let heads =
        head_node (codes "url") (get_str snapshot (codes "url"))
        ++ head_node (codes "title") (get_str snapshot (codes "title")) in
      let (seen, lines) = text_nodes [] (maybe_lines (get_str snapshot (codes "text"))) in
      heads ++ (lines ++ element_nodes seen (maybe_elements (interactables snapshot)))
