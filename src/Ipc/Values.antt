-- ===== src/Ipc/Values.antt =====
-- The small types of crates/ipc/src/lib.rs that requests carry, with their parsers.
pub mod Labels
use hwatu.Common.{
  ℕ, List, [], ◌∷◌, ◌++◌, Bool, false, not, ◌&&◌, ◌||◌, Option, none, some, Result, ok, err, ◌>>=◌,
  leb, if◌then◌else◌, is_empty, keep, Int32, nat, minus, parse_i32, i32_text, ◌==◌,
}
use hwatu.Common.Text.{
  Text, codes, text_eq, trim, eq_ignore_ascii_case, split_once_by, split_at_char,
}

pub data LoginFill : Type 0 where
  password otp : LoginFill

pub data ContentFormat : Type 0 where
  text html title links : ContentFormat

pub data LoadStage : Type 0 where
  committed dom settled : LoadStage

pub data PressKey : Type 0 where
  tab enter escape arrow_left arrow_right : PressKey

pub data OpenMode : Type 0 where
  normal background headless : OpenMode

pub data ClockAction : Type 0 where
  pause resume step set status seed : ClockAction

pub data AdblockCmd : Type 0 where
  on off status update : AdblockCmd

pub record FormField : Type 0 where
  pub selector : Option Text
  pub nth : Option ℕ
  pub contains : Option Text
  pub ref : Option ℕ
  pub value : Option Text
  pub checked : Option Bool

pub record Viewport : Type 0 where
  pub w : Int32
  pub h : Int32

-- `match value { ... }` on literals: the first row that has the word.
abbrev pub one_of : Text → List Text → Bool
one_of v [] = false
one_of v (k ∷ ks) = text_eq v k || one_of v ks

abbrev pub parse_login_fill : Text → Option LoginFill
parse_login_fill value =
    let v = trim value in
    if one_of v (codes "password" ∷ codes "pass" ∷ [])
    then some password
    else if one_of v (codes "otp" ∷ codes "totp" ∷ codes "code" ∷ [])
    then some otp
    else none

abbrev pub parse_content_format : Text → Option ContentFormat
parse_content_format value =
    let v = trim value in
    if text_eq v (codes "text")
    then some text
    else if text_eq v (codes "html")
    then some html
    else if text_eq v (codes "title")
    then some title
    else if text_eq v (codes "links")
    then some links
    else none

abbrev pub parse_load_stage : Text → Option LoadStage
parse_load_stage value =
    let v = trim value in
    if one_of v (codes "committed" ∷ codes "commit" ∷ [])
    then some committed
    else if one_of v (codes "dom" ∷ codes "ready" ∷ [])
    then some dom
    else if one_of v (codes "settled" ∷ codes "load" ∷ codes "full" ∷ [])
    then some settled
    else none

abbrev pub parse_press_key : Text → Option PressKey
parse_press_key v =
    if eq_ignore_ascii_case v (codes "tab")
    then some tab
    else if eq_ignore_ascii_case v (codes "enter") || eq_ignore_ascii_case v (codes "return")
    then some enter
    else if eq_ignore_ascii_case v (codes "escape") || eq_ignore_ascii_case v (codes "esc")
    then some escape
    else if eq_ignore_ascii_case v (codes "arrowleft")
    then some arrow_left
    else if eq_ignore_ascii_case v (codes "arrowright")
    then some arrow_right
    else none

-- `PressKey::as_str`.
abbrev pub press_key_name : PressKey → Text
press_key_name tab = codes "Tab"
press_key_name enter = codes "Enter"
press_key_name escape = codes "Escape"
press_key_name arrow_left = codes "ArrowLeft"
press_key_name arrow_right = codes "ArrowRight"

-- `(1..=16384).contains`.
abbrev pub is_side : Int32 → Bool
is_side (minus n) = false
is_side (nat n) = leb 1 n && leb n 16384

abbrev pub make_viewport : Option Int32 → Option Int32 → Option Viewport
make_viewport none h = none
make_viewport (some w) none = none
make_viewport (some w) (some h) =
    if not (is_side w) || not (is_side h) then none else some (record { w = w; h = h })

-- `Viewport::parse`.
unfoldable pub parse_viewport : Text → Option Viewport
parse_viewport value = elim (split_once_by (λ c. (c == b'x') || (c == b'X')) (trim value)) [
  | none ↦ none
  | some (w, h) ↦ make_viewport (parse_i32 (trim w)) (parse_i32 (trim h))
]

-- `collect` into a `Result`; the error is the entry.
pub parse_viewports : List Text → Result Text (List Viewport)
unfolding parse_viewport
parse_viewports [] = ok []
parse_viewports (s ∷ rest) = elim (parse_viewport s) [
  | none ↦ err (trim s)
  | some v ↦ parse_viewports rest >>= λ vs. ok (v ∷ vs)
]

-- `Viewport::parse_list`.
pub parse_list : Text → Result Text (List Viewport)
unfolding parse_viewports
parse_list value = parse_viewports (keep (λ s. not (is_empty (trim s))) (split_at_char b',' value))

-- `Viewport::label`.
unfoldable pub label : Viewport → Text
label v = i32_text v.w ++ b'x' ∷ i32_text v.h
