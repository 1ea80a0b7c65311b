-- ===== src/Keys/Tests.antt =====
-- Concrete key bindings, over GDK's values for the keys that the built-in chords name.
use hwatu.Common.{
  ℕ, ◌-◌, ◌≡◌, refl, true, false, Option, none, some, ok, err, List, [], ◌∷◌, ◌++◌, if◌then◌else◌,
  ltb, inl, inr,
}
use hwatu.Common.Text.{
  Text, codes, text_eq, to_ascii_lowercase, is_ascii_uppercase, is_ascii_lowercase,
}
use hwatu.Keys.Actions.{back, zoom_in, from_name}
use hwatu.Keys.Actions.Names.{from_name-name}
use hwatu.Keys.Chords.{Gdk, Chord, Modifiers, capture, parse, matches}
use hwatu.Keys.Keymap.{
  Bindings, no_equals, parse_line, chords_of, parse_all, lookup, load_lines, default_keymap,
}
use hwatu.Keys.Keymap.Phases.{lookup_phase}
use hwatu.Keys.Keymap.Overrides.{bound, IsAside, load_lines-last}
use hwatu.Keys.Keymap.Defaults.{KnowsNames, default_keymap-is_some}

abbrev key_table : List (Text × ℕ)
key_table =
    (codes "Left", 0xff51)
    ∷ (codes "Right", 0xff53)
    ∷ (codes "F5", 0xffc2)
    ∷ (codes "F11", 0xffc8)
    ∷ (codes "plus", 0x2b)
    ∷ (codes "equal", 0x3d)
    ∷ (codes "minus", 0x2d)
    ∷ []

abbrev in_table : List (Text × ℕ) → Text → Option ℕ
in_table [] n = none
in_table ((m, k) ∷ table) n = if text_eq m n then some k else in_table table n

abbrev ascii_upper : ℕ → ℕ
ascii_upper c = if is_ascii_lowercase c then c - 32 else c

abbrev keyboard : Gdk
keyboard = record {
  from_name = in_table key_table;
  to_lower = to_ascii_lowercase;
  to_upper = ascii_upper;
  to_unicode = λ k. if ltb k 256 then some k else none;
  key_name = λ k. none;
  is_uppercase = is_ascii_uppercase;
  is_control = λ c. ltb c 32;
  is_alphabetic = λ c. is_ascii_lowercase (to_ascii_lowercase c);
  char_to_lowercase = λ c. to_ascii_lowercase c ∷ [];
  char_to_uppercase = λ c. ascii_upper c ∷ [];
}

abbrev alt_left : Chord
alt_left = record { key = 0xff51; ctrl = false; shift = false; alt = true }

abbrev capital_b : Chord
capital_b = record { key = 98; ctrl = false; shift = true; alt = false }

abbrev alt_only : Modifiers
alt_only = record { control_mask = false; shift_mask = false; alt_mask = true }

abbrev bare : Modifiers
bare = record { control_mask = false; shift_mask = false; alt_mask = false }

parses_chord :
    parse keyboard (codes "ctrl+ Alt+O")
    ≡ ok (record { key = 111; ctrl = true; shift = true; alt = true })
unfolding parse
parses_chord = refl

alt_left_goes_back : lookup keyboard ((alt_left, back) ∷ []) capture 0xff51 alt_only ≡ some back
unfolding lookup matches
alt_left_goes_back = refl

zoom_in_named : from_name (codes "zoom_in") ≡ some zoom_in
zoom_in_named = from_name-name zoom_in

lookup_phase_example : lookup keyboard ((alt_left, back) ∷ []) capture 0xff51 bare ≡ none
lookup_phase_example = lookup_phase keyboard ((alt_left, back) ∷ []) capture 0xff51 bare refl

parsed_line : parse_line keyboard (codes "back = B") ≡ ok (back, capital_b ∷ [])
unfolding parse_line parse from_name chords_of parse_all
parsed_line = refl

no_equals_line : parse_line keyboard (codes "back") ≡ err no_equals
unfolding parse_line
no_equals_line = refl

no_equals-IsAside : IsAside keyboard back (codes "back # nothing")
unfolding IsAside
no_equals-IsAside = inr (inl (no_equals, no_equals_line))

load_lines-last_example :
    bound
      (load_lines keyboard
        ((alt_left, back) ∷ [])
        ((codes "back = none" ∷ []) ++ codes "back = B" ∷ codes "back # nothing" ∷ []))
      back
    ≡ capital_b ∷ []
load_lines-last_example =
    load_lines-last keyboard ((alt_left, back) ∷ []) (codes "back = none" ∷ [])
      (codes "back # nothing" ∷ []) (codes "back = B") back (capital_b ∷ []) refl parsed_line
      (no_equals-IsAside, tt)

knows_names : KnowsNames keyboard
knows_names = record {
  left = (0xff51, refl);
  right = (0xff53, refl);
  f5 = (0xffc2, refl);
  f11 = (0xffc8, refl);
  plus = (0x2b, refl);
  equal = (0x3d, refl);
  minus = (0x2d, refl);
}

default_keymap-is_some_example : (bs : Bindings) × (default_keymap keyboard ≡ some bs)
default_keymap-is_some_example = default_keymap-is_some keyboard knows_names
