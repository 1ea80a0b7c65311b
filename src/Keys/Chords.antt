-- ===== src/Keys/Chords.antt =====
-- `Phase`, `Chord` and `key_from_char` of crates/hwatud/src/keys.rs. GDK's keyvals and Unicode's
-- tables are not code of this repository: they are a record of functions.
use hwatu.Common.{
  ℕ, ◌+◌, List, [], ◌∷◌, ◌++◌, map, Bool, true, false, not, ◌&&◌, ◌||◌, Option, none, some, Result,
  ok, err, ◌>>=◌, leb, ◌==◌, if◌then◌else◌, is_empty,
}
use hwatu.Common.Text.{Text, codes, text_eq, split_at_char, trim, lowercase}

pub record Gdk : Type 0 where
  -- `gdk::Key::from_name`, `to_lower`, `to_upper`, `to_unicode` and `name`.
  pub from_name : Text → Option ℕ
  pub to_lower : ℕ → ℕ
  pub to_upper : ℕ → ℕ
  pub to_unicode : ℕ → Option ℕ
  pub key_name : ℕ → Option Text
  -- `char::is_uppercase`, `is_control`, `is_alphabetic`, `to_lowercase` and `to_uppercase`.
  pub is_uppercase : ℕ → Bool
  pub is_control : ℕ → Bool
  pub is_alphabetic : ℕ → Bool
  pub char_to_lowercase : ℕ → Text
  pub char_to_uppercase : ℕ → Text

pub data Phase : Type 0 where
  capture bubble : Phase

abbrev pub phase_eq : Phase → Phase → Bool
phase_eq capture capture = true
phase_eq bubble bubble = true
phase_eq _ _ = false

pub record Chord : Type 0 where
  pub key : ℕ
  pub ctrl : Bool
  pub shift : Bool
  pub alt : Bool

abbrev pub phase : Chord → Phase
phase c = if c.ctrl || c.alt then capture else bubble

-- The modifiers of a `gdk::ModifierType` that the program reads.
pub record Modifiers : Type 0 where
  pub control_mask : Bool
  pub shift_mask : Bool
  pub alt_mask : Bool

-- Which of its failures `Chord::parse` reports.
pub data ChordError : Type 0 where
  empty_key : ChordError
  unknown_modifier unknown_key : Text → ChordError

abbrev pub no_modifiers : Modifiers
no_modifiers = record { control_mask = false; shift_mask = false; alt_mask = false }

-- One round of the loop over the modifiers.
abbrev pub add_modifier : Text → Modifiers → Result ChordError Modifiers
add_modifier m mods =
    let word = lowercase m in
    if text_eq word (codes "ctrl") || text_eq word (codes "control")
    then ok (record mods { control_mask = true })
    else if text_eq word (codes "shift")
    then ok (record mods { shift_mask = true })
    else if text_eq word (codes "alt") || text_eq word (codes "meta")
    then ok (record mods { alt_mask = true })
    else err (unknown_modifier word)

-- The loop, over all parts but the last, and the last part.
abbrev pub read_parts : Modifiers → Text → List Text → Result ChordError (Modifiers × Text)
read_parts mods part [] = ok (mods, part)
read_parts mods part (next ∷ parts) = elim (add_modifier part mods) [
  | err e ↦ err e
  | ok mods' ↦ read_parts mods' next parts
]

-- The last part, and the empty text where there is none.
abbrev pub last_part : List Text → Text
last_part [] = []
last_part (p ∷ []) = p
last_part (p ∷ q ∷ ps) = last_part (q ∷ ps)

-- `gdk_unicode_to_keyval`; a `char` is below 0x110000, so `|` of the flag adds it.
abbrev pub key_from_char : ℕ → ℕ
key_from_char cp = if leb cp 0xFF then cp else cp + 0x1000000

abbrev pub first_or : Text → ℕ → ℕ
first_or [] c = c
first_or (d ∷ s) c = d

module _ (G : Gdk) where
  -- The key of a token, and whether its case implies shift.
  abbrev pub key_of : Text → Result ChordError (ℕ × Bool)
  key_of (c ∷ []) = ok (key_from_char (first_or (G.char_to_lowercase c) c), G.is_uppercase c)
  key_of token = elim (G.from_name token) [
    | none ↦ err (unknown_key token)
    | some key ↦ ok (G.to_lower key, false)
  ]

  abbrev pub chord_from : Modifiers × Text → Result ChordError Chord
  chord_from (mods, token) = key_of token >>= λ ks. ok (record {
    key = ks.0;
    ctrl = mods.control_mask;
    shift = mods.shift_mask || ks.1;
    alt = mods.alt_mask;
  })

  abbrev pub parse_parts : List Text → Result ChordError Chord
  parse_parts [] = err empty_key
  parse_parts (part ∷ parts) =
      if is_empty (last_part (part ∷ parts))
      then err empty_key
      else read_parts no_modifiers part parts >>= chord_from

  -- `Chord::parse`; b'+' is the separator.
  unfoldable pub parse : Text → Result ChordError Chord
  parse spec = parse_parts (map trim (split_at_char b'+' spec))

  abbrev pub same_flag : Bool → Bool → Bool
  same_flag true b = b
  same_flag false b = not b

  -- `Chord::matches`.
  unfoldable pub matches : Chord → ℕ → Modifiers → Bool
  matches c key state =
      if not (G.to_lower key == c.key)
      then false
      else if not (same_flag state.control_mask c.ctrl)
      then false
      else if not (same_flag state.alt_mask c.alt)
      then false
      else if not (G.to_lower key == G.to_upper key) && not (same_flag state.shift_mask c.shift)
      then false
      else true

  abbrev pub flag_text : Bool → Text → Text
  flag_text b t = if b then t else []

  abbrev pub name_or_empty : Option Text → Text
  name_or_empty none = []
  name_or_empty (some n) = n

  -- `to_unicode().filter(|c| !c.is_control())`.
  abbrev pub printable : Option ℕ → Option ℕ
  printable none = none
  printable (some c) = if G.is_control c then none else some c

  -- `Display for Chord`.
  unfoldable pub display : Chord → Text
  display c =
      flag_text c.ctrl (codes "ctrl+")
      ++ (flag_text c.alt (codes "alt+") ++ elim (printable (G.to_unicode c.key)) [
        | some u ↦
            if G.is_alphabetic u
            then (if c.shift then G.char_to_uppercase u else u ∷ [])
            else u ∷ []
        | none ↦ flag_text c.shift (codes "shift+") ++ name_or_empty (G.key_name c.key)
      ])
