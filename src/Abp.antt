-- ===== src/Abp.antt =====
-- crates/hwatud/src/abp.rs: filter lists in Adblock Plus syntax into the content-blocker rules of
-- WebKit. Here are the rules and what the parts share of Rust's methods on `str` and `Vec`. A rule is
-- the JSON object of the source as a record; a key that the source leaves out is an empty field.
pub mod Patterns
pub mod Options
pub mod Network
pub mod Convert
mod Tests
use hwatu.Common.{
  ℕ, List, [], ◌∷◌, Bool, true, false, ◌&&◌, ◌||◌, Option, none, some, ltb, ◌==◌, if◌then◌else◌,
  any,
}
use hwatu.Common.Text.{Text, text_le, text_eq, trim_start_by, trim_end_by}

-- The `trigger` of a rule, with `Trigger` for the keys that the source inserts.
pub record Trigger : Type 0 where
  pub url_filter : Text
  pub case_sensitive : Bool
  pub resource_type : Option (List Text)
  pub load_type : Option Text
  pub if_domain : List Text
  pub unless_domain : List Text

pub data RuleAction : Type 0 where
  block ignore_previous_rules : RuleAction
  css_display_none : Text → RuleAction

pub record Rule : Type 0 where
  pub trigger : Trigger
  pub action : RuleAction

abbrev pub insert_text : Text → List Text → List Text
insert_text x [] = x ∷ []
insert_text x (y ∷ ys) = let rest = insert_text x ys in if text_le x y then x ∷ y ∷ ys else y ∷ rest

-- `sort`.
abbrev pub sort : List Text → List Text
sort [] = []
sort (x ∷ xs) = insert_text x (sort xs)

-- `dedup`.
abbrev pub dedup : List Text → List Text
dedup [] = []
dedup (x ∷ []) = x ∷ []
dedup (x ∷ y ∷ ys) = let rest = dedup (y ∷ ys) in if text_eq x y then rest else x ∷ rest

abbrev pub is_among : List Text → Text → Bool
is_among names t = any (λ name. text_eq name t) names

-- `trim_matches` of one character.
abbrev pub trim_matches : ℕ → Text → Text
trim_matches k s = trim_end_by (λ c. c == k) (trim_start_by (λ c. c == k) s)

-- A pattern that was stripped, or the text as it was.
abbrev pub stripped_or : Option Text → Text → Bool × Text
stripped_or (some rest) s = (true, rest)
stripped_or none s = (false, s)
