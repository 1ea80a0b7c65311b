-- ===== src/Keys/Keymap.antt =====
-- `Keymap` of crates/hwatud/src/keys.rs. The file that `load` reads is its text, or none where there
-- is no path or the file cannot be read. What `load` prints is not modelled.
pub mod Overrides
pub mod Phases
pub mod Defaults
use hwatu.Common.{
  ℕ, ◌+◌, List, [], ◌∷◌, ◌++◌, map, Bool, true, false, not, ◌&&◌, Option, none, some, Result, ok,
  err, ◌>>=◌, ◌==◌, if◌then◌else◌, is_empty, keep,
}
use hwatu.Common.Text.{
  lines, Text, codes, text_eq, split_at_char, split_once, trim, eq_ignore_ascii_case,
}
use hwatu.Keys.Actions.{Action, all_actions, action_eq, from_name, default_chords}
use hwatu.Keys.Chords.{
  Gdk, Chord, ChordError, Modifiers, Phase, phase, phase_eq, parse, matches, display,
}

abbrev pub Bindings : Type 0
Bindings = List (Chord × Action)

-- Which of its failures `apply_line` reports.
pub data KeyError : Type 0 where
  no_equals : KeyError
  unknown_action : Text → KeyError
  bad_chord : ChordError → KeyError

-- `retain`, then `extend`.
unfoldable pub replace_chords : Action → List Chord → Bindings → Bindings
replace_chords a cs bs =
    keep (λ (b : Chord × Action). not (action_eq b.1 a)) bs ++ map (λ c. (c, a)) cs

-- `line.split('#').next().unwrap_or("").trim()`.
abbrev pub without_comment : Text → Text
without_comment line = elim (split_at_char b'#' line) [ [] ↦ [] | first ∷ _ ↦ trim first ]

module _ (G : Gdk) where
  -- `collect` into a `Result`: the first error, or all chords.
  unfoldable pub parse_all : List Text → Result ChordError (List Chord)
  parse_all [] = ok []
  parse_all (s ∷ specs) = parse G (trim s) >>= λ c. parse_all specs >>= λ cs. ok (c ∷ cs)

  unfoldable pub chords_of : Text → Result ChordError (List Chord)
  unfolding parse_all
  chords_of spec =
      if eq_ignore_ascii_case spec (codes "none")
      then ok []
      else parse_all (split_at_char b',' spec)

  abbrev pub named : Text → Result KeyError Action
  named n = elim (from_name n) [ none ↦ err (unknown_action n) | some a ↦ ok a ]

  -- The action of a line and its new chords.
  unfoldable pub parse_line : Text → Result KeyError (Action × List Chord)
  parse_line line = elim (split_once (codes "=") line) [
    | none ↦ err no_equals
    | some (n, spec) ↦ named (trim n) >>= λ a. elim (chords_of (trim spec)) [
      | err e ↦ err (bad_chord e)
      | ok cs ↦ ok (a, cs)
    ]
  ]

  -- `apply_line`: an error leaves the keymap as it was.
  pub apply_line : Text → Bindings → Result KeyError Bindings
  unfolding parse_line replace_chords chords_of
  apply_line line bs = parse_line line >>= λ ac. ok (replace_chords ac.0 ac.1 bs)

  -- `find` over the bindings.
  unfoldable pub lookup : Bindings → Phase → ℕ → Modifiers → Option Action
  lookup [] p key state = none
  lookup ((c, a) ∷ bs) p key state =
      let later = lookup bs p key state in
      if phase_eq (phase c) p && matches G c key state then some a else later

  -- `chords_for`.
  pub chords_for : Bindings → Action → List Text
  chords_for bs a =
      map (λ (b : Chord × Action). display G b.0)
        (keep (λ (b : Chord × Action). action_eq b.1 a) bs)

  -- `Keymap::default` pushes the chords of one action; `none` is its panic.
  pub default_of : Action → List Text → Option Bindings
  default_of a [] = some []
  default_of a (spec ∷ specs) =
      let rest = default_of a specs in
      if is_empty (trim spec) then rest else elim (parse G (trim spec)) [
        | err e ↦ none
        | ok c ↦ elim rest [ none ↦ none | some bs ↦ some ((c, a) ∷ bs) ]
      ]

  pub default_from : List Action → Option Bindings
  unfolding default_of
  default_from [] = some []
  default_from (a ∷ actions) = elim (default_of a (split_at_char b',' (default_chords a))) [
    | none ↦ none
    | some bs ↦ elim (default_from actions) [ none ↦ none | some more ↦ some (bs ++ more) ]
  ]

  pub default_keymap : Option Bindings
  unfolding default_from
  default_keymap = default_from all_actions

  -- One round of the loop of `load`.
  pub load_line : Bindings → Text → Bindings
  unfolding apply_line
  load_line bs line =
      if is_empty (without_comment line)
      then bs
      else elim (apply_line (without_comment line) bs) [ err _ ↦ bs | ok bs' ↦ bs' ]

  pub load_lines : Bindings → List Text → Bindings
  unfolding load_line
  load_lines bs [] = bs
  load_lines bs (line ∷ lines) = load_lines (load_line bs line) lines

  -- `Keymap::load`.
  pub load : Option Text → Bindings → Bindings
  unfolding load_lines
  load none defaults = defaults
  load (some text) defaults = load_lines defaults (lines text)
