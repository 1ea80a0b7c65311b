-- ===== src/Abp/Convert/Orders.antt =====
-- The rules that a list becomes, against the contract of content blockers and the exceptions of the
-- list.
use hwatu.Common.{◌≤◌, ◌≡◌, List, [], ◌∷◌, ◌++◌, length, All}
use hwatu.Common.Text.{Text, join}
use hwatu.Abp.{block, ignore_previous_rules, css_display_none, Rule}
use hwatu.Abp.Network.{blocks, excepts}
use hwatu.Abp.Network.Sound.{IsCompilable}
use hwatu.Abp.Convert.{selector_chunk, Lists, hide}
use hwatu.Abp.Convert.Selectors.{IsHidden}

-- A rule that hides a group of at most 250 selectors that pass a test.
pub record IsHiding (P : Text → Type 0) (r : Rule) : Type 0 where
  pub chunk : List Text
  pub hides : r.action ≡ css_display_none (join (b',' ∷ b' ' ∷ []) chunk)
  pub few : length chunk ≤ selector_chunk
  pub allowed : All P chunk
  pub compilable : IsCompilable r

abbrev pub IsBlocking : Rule → Type 0
IsBlocking r = (r.action ≡ block) × IsCompilable r

abbrev pub IsExcepting : Rule → Type 0
IsExcepting r = (r.action ≡ ignore_previous_rules) × IsCompilable r

-- The rules in the order of the contract: first those that hide, of selectors that some line of the
-- list hides and none unhides, then those that block, then the exceptions.
pub record IsOrdered (lines : List Text) (rules : List Rule) : Type 0 where
  pub hiding : List Rule
  pub blocking : List Rule
  pub excepting : List Rule
  pub order : rules ≡ hiding ++ (blocking ++ excepting)
  pub hide : All (IsHiding (IsHidden lines)) hiding
  pub blocks : All IsBlocking blocking
  pub excepts : All IsExcepting excepting

-- The rules gathered so far are of their kinds.
pub record IsSorted (l : Lists) : Type 0 where
  pub blocking : All IsBlocking l.block_rules
  pub excepting : All IsExcepting l.exception_rules
