-- ===== src/Keys/Keymap/Overrides.antt =====
-- What the lines of the configuration do to the chords of an action.
use hwatu.Common.{
  ◌≡◌, refl, true, false, not, List, [], ◌∷◌, ◌++◌, map, ok, err, ◌⊎◌, Bool-cases, inl, inr, keep,
  is_empty, ap, ◌∙◌, All, append-nil, if◌then◌else◌,
}
use hwatu.Common.Text.{Text}
use hwatu.Keys.Actions.{Action, action_eq}
use hwatu.Keys.Actions.Names.{action_eq→eq, action_eq_refl}
use hwatu.Keys.Chords.{Gdk, Chord}
use hwatu.Keys.Keymap.{
  Bindings, KeyError, parse_line, replace_chords, apply_line, load_line, load_lines,
  without_comment,
}

-- The chords that the bindings give to an action, in order.
pub bound : Bindings → Action → List Chord
bound [] a = []
bound ((c, b) ∷ bs) a = let rest = bound bs a in if action_eq b a then c ∷ rest else rest

bound-append : (bs cs : Bindings) (a : Action) → bound (bs ++ cs) a ≡ bound bs a ++ bound cs a
unfolding bound
bound-append [] cs a = refl
bound-append ((c, b) ∷ bs) cs a = elim (Bool-cases (action_eq b a)) [
  | inl e ↦ rw (e, bound-append bs cs a) refl
  | inr e ↦ rw (e, bound-append bs cs a) refl
]

bound-map_same : (cs : List Chord) (a : Action) → bound (map (λ c. (c, a)) cs) a ≡ cs
unfolding bound
bound-map_same [] a = refl
bound-map_same (c ∷ cs) a = rw (action_eq_refl a, bound-map_same cs a) refl

bound-map_other :
    (cs : List Chord) (a b : Action) → action_eq a b ≡ false → bound (map (λ c. (c, a)) cs) b ≡ []
unfolding bound
bound-map_other [] a b h = refl
bound-map_other (c ∷ cs) a b h = rw (h, bound-map_other cs a b h) refl

abbrev without_action : Action → Bindings → Bindings
without_action a = keep (λ (b : Chord × Action). not (action_eq b.1 a))

bound-without_same : (bs : Bindings) (a : Action) → bound (without_action a bs) a ≡ []
unfolding bound
bound-without_same [] a = refl
bound-without_same ((c, b) ∷ bs) a = elim (Bool-cases (action_eq b a)) [
  | inl e ↦ rw (e, bound-without_same bs a) refl
  | inr e ↦ rw (e, e, bound-without_same bs a) refl
]

action_eq_other :
    (a b c : Action) → action_eq b a ≡ true → action_eq a c ≡ false → action_eq b c ≡ false
action_eq_other a b c h k = rw (action_eq→eq b a h) k

bound-without_other :
    (bs : Bindings) (a b : Action)
    → action_eq a b ≡ false
    → bound (without_action a bs) b ≡ bound bs b
unfolding bound
bound-without_other [] a b h = refl
bound-without_other ((c, d) ∷ bs) a b h = elim (Bool-cases (action_eq d a)) [
  | inl e ↦ rw (e, action_eq_other a d b e h, bound-without_other bs a b h) refl
  | inr e ↦ rw (e, bound-without_other bs a b h) refl
]

bound-replace_same :
    (a : Action) (cs : List Chord) (bs : Bindings) → bound (replace_chords a cs bs) a ≡ cs
unfolding replace_chords
bound-replace_same a cs bs =
    bound-append (without_action a bs) (map (λ c. (c, a)) cs) a
    ∙ rw (bound-without_same bs a, bound-map_same cs a) refl

bound-replace_other :
    (a b : Action) (cs : List Chord) (bs : Bindings)
    → action_eq a b ≡ false
    → bound (replace_chords a cs bs) b ≡ bound bs b
unfolding replace_chords
bound-replace_other a b cs bs h =
    bound-append (without_action a bs) (map (λ c. (c, a)) cs) b
    ∙ rw (bound-without_other bs a b h, bound-map_other cs a b h, append-nil) refl

-- A line of the file that does not set the chords of `a`.
unfoldable pub IsAside : Gdk → Action → Text → Type 0
IsAside G a line =
    (is_empty (without_comment line) ≡ true)
    ⊎ ((e : KeyError) × (parse_line G (without_comment line) ≡ err e))
    ⊎ ((b : Action) × (cs : List Chord) × (parse_line G (without_comment line) ≡ ok (b, cs))
        × (action_eq b a ≡ false))

load_line-aside :
    (G : Gdk) (a : Action) (bs : Bindings) (line : Text)
    → IsAside G a line
    → bound (load_line G bs line) a ≡ bound bs a
unfolding load_line apply_line IsAside
load_line-aside G a bs line (inl e) = rw e refl
load_line-aside G a bs line (inr (inl (e, h))) =
    elim (Bool-cases (is_empty (without_comment line))) [
      | inl k ↦ rw k refl
      | inr k ↦ rw (k, h) refl
    ]
load_line-aside G a bs line (inr (inr (b, cs, h, k))) =
    elim (Bool-cases (is_empty (without_comment line))) [
      | inl z ↦ rw z refl
      | inr z ↦ rw (z, h) (bound-replace_other b a cs bs k)
    ]

load_lines-aside :
    (G : Gdk) (a : Action) (bs : Bindings) (lines : List Text)
    → All (IsAside G a) lines
    → bound (load_lines G bs lines) a ≡ bound bs a
unfolding load_lines
load_lines-aside G a bs [] h = refl
load_lines-aside G a bs (line ∷ lines) (h, hs) =
    load_lines-aside G a (load_line G bs line) lines hs ∙ load_line-aside G a bs line h

load_lines-append :
    (G : Gdk) (bs : Bindings) (xs ys : List Text)
    → load_lines G bs (xs ++ ys) ≡ load_lines G (load_lines G bs xs) ys
unfolding load_lines
load_lines-append G bs [] ys = refl
load_lines-append G bs (x ∷ xs) ys = load_lines-append G (load_line G bs x) xs ys

-- The last line of the configuration that sets the chords of an action decides them: where the lines
-- after it are empty, faulty or about other actions, the action has exactly the chords it lists,
-- whatever the keymap before was and whatever the earlier lines say.
pub load_lines-last :
    (G : Gdk) (bs : Bindings) (before after : List Text) (line : Text) (a : Action)
    (cs : List Chord)
    → is_empty (without_comment line) ≡ false
    → parse_line G (without_comment line) ≡ ok (a, cs)
    → All (IsAside G a) after
    → bound (load_lines G bs (before ++ line ∷ after)) a ≡ cs
unfolding load_lines load_line apply_line
load_lines-last G bs before after line a cs z h rest =
    let now = load_lines G bs before in
    let set : bound (load_line G now line) a ≡ cs = rw (z, h) (bound-replace_same a cs now) in
    ap (λ x. bound x a) (load_lines-append G bs before (line ∷ after))
    ∙ load_lines-aside G a (load_line G now line) after rest
    ∙ set

-- An action that no line of the configuration sets keeps its default chords.
pub load_lines-defaults :
    (G : Gdk) (bs : Bindings) (lines : List Text) (a : Action)
    → All (IsAside G a) lines
    → bound (load_lines G bs lines) a ≡ bound bs a
load_lines-defaults G bs lines a h = load_lines-aside G a bs lines h
