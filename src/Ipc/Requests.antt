-- ===== src/Ipc/Requests.antt =====
-- `Request` of crates/ipc/src/lib.rs with `kind`, `uses_eval`, `is_batch_action`,
-- `is_try_until_action` and the two validations. The type of its floating-point fields is a
-- parameter. The fields stand in the source's order.
pub mod Batches
mod Tests
use hwatu.Common.{
  ℕ, zero, suc, ◌+◌, ◌*◌, List, [], ◌∷◌, Bool, true, false, not, ◌&&◌, ◌||◌, Option, none, some,
  Result, ok, err, ltb, if◌then◌else◌, is_empty, Int32, ◌>>=◌, ◌>>◌, refuse_if,
}
use hwatu.Common.Text.{Text, codes}
use hwatu.Ipc.Values.{
  LoginFill, ContentFormat, LoadStage, PressKey, OpenMode, ClockAction, AdblockCmd, FormField,
  Viewport,
}

mutual
  pub data Request (F64 : Type 0) : Type 0 where
    open_page : Option Text → Option Text → OpenMode → Option Text → Request F64
    list_windows : Request F64
    close : ℕ → Request F64
    adblock : AdblockCmd → Request F64
    quit : Request F64
    ping : Request F64
    eval : Option ℕ → Text → Option ℕ → Request F64
    navigate : Option ℕ → Text → Bool → LoadStage → Option ℕ → Request F64
    screenshot : Option ℕ → Option Text → Bool → Bool → Request F64
    wait_load : Option ℕ → LoadStage → Option ℕ → Request F64
    check :
        Option Text
        → Option Text
        → Option Text
        → Option Text
        → Bool
        → Option Text
        → Bool
        → Bool
        → Option Text
        → Option Text
        → Option ℕ
        → Option ℕ
        → Option Text
        → Bool
        → LoadStage
        → Bool
        → Option ℕ
        → List Viewport
        → Option Text
        → Request F64
    prefetch : Text → Request F64
    challenge : Option ℕ → Bool → Option ℕ → Request F64
    focus : ℕ → Request F64
    unfocus : ℕ → Request F64
    upload : Option ℕ → Text → Text → Option Text → Option ℕ → Request F64
    scroll :
        Option ℕ
        → Option Text
        → Option ℕ
        → Option Text
        → Option F64
        → Option F64
        → Option ℕ
        → Request F64
    snapshot : Option ℕ → Bool → Bool → Option ℕ → Option ℕ → Request F64
    click :
        Option ℕ → Option Text → Option ℕ → Option Text → Option ℕ → Bool → Option ℕ → Request F64
    type_text :
        Option ℕ
        → Option Text
        → Option ℕ
        → Option Text
        → Option ℕ
        → Text
        → Bool
        → Bool
        → Bool
        → Option ℕ
        → Request F64
    press : Option ℕ → PressKey → Option ℕ → Request F64
    paste : Option ℕ → Option Text → Option ℕ → Option Text → Option ℕ → Option ℕ → Request F64
    console : Option ℕ → Bool → Option ℕ → Request F64
    net : Option ℕ → Bool → Option ℕ → Request F64
    motion : Option ℕ → Bool → Option ℕ → Option ℕ → Request F64
    seek : Option ℕ → Option F64 → Option F64 → Bool → Option ℕ → Request F64
    diff :
        ℕ
        → Option ℕ
        → Option Text
        → Option Text
        → Option ℕ
        → Option ℕ
        → Option Text
        → Bool
        → Bool
        → Option ℕ
        → Request F64
    expect :
        Option ℕ
        → Text
        → Option ℕ
        → Option Text
        → Option Text
        → Bool
        → Bool
        → Option ℕ
        → Bool
        → Request F64
    clock : Option ℕ → ClockAction → Option F64 → Option ℕ → Option ℕ → Request F64
    resize : Option ℕ → Int32 → Int32 → Request F64
    batch : Requests F64 → Request F64
    subscribe : Option (List Text) → Option ℕ → Request F64
    history : Text → Option ℕ → Bool → Request F64
    clear_site_data : Option Text → Request F64
    handoff : ℕ → Text → Bool → Request F64
    handoffs : Option ℕ → Request F64
    jump : Text → Bool → Request F64
    get_content :
        Option ℕ
        → ContentFormat
        → Option Text
        → Option ℕ
        → Option Text
        → Option ℕ
        → Option ℕ
        → Request F64
    fill_form : Option ℕ → List FormField → Bool → Option ℕ → Request F64
    list_downloads : Option ℕ → Request F64
    drop_file :
        Option ℕ
        → Text
        → Option ℕ
        → Option Text
        → Option Text
        → Option Text
        → Option Text
        → Option Text
        → Option ℕ
        → Request F64
    auth_context : Option ℕ → Request F64
    fork : Option ℕ → Option Text → Option ℕ → Option ℕ → Request F64
    list_forks : Request F64
    try_until : Option ℕ → Requests F64 → Option ℕ → Request F64
    scout :
        Text → Option ℕ → Option ℕ → Option Text → Option ℕ → Option Text → Option ℕ → Request F64
    fill_login : Option ℕ → LoginFill → Option Text → Option ℕ → Request F64
    list_frames : Option ℕ → Option ℕ → Request F64

  pub data Requests (F64 : Type 0) : Type 0 where
    nil : Requests F64
    cons : Request F64 → Requests F64 → Requests F64

unfoldable pub kind : {F64 : Type 0} → Request F64 → Text
kind (open_page _ _ _ _) = codes "open"
kind list_windows = codes "list"
kind (close _) = codes "close"
kind (adblock _) = codes "adblock"
kind quit = codes "quit"
kind ping = codes "ping"
kind (eval _ _ _) = codes "eval"
kind (navigate _ _ _ _ _) = codes "navigate"
kind (screenshot _ _ _ _) = codes "screenshot"
kind (wait_load _ _ _) = codes "wait_load"
kind (check _ _ _ _ _ _ _ _ _ _ _ _ _ _ _ _ _ _ _) = codes "check"
kind (prefetch _) = codes "prefetch"
kind (challenge _ _ _) = codes "challenge"
kind (focus _) = codes "focus"
kind (unfocus _) = codes "unfocus"
kind (upload _ _ _ _ _) = codes "upload"
kind (scroll _ _ _ _ _ _ _) = codes "scroll"
kind (snapshot _ _ _ _ _) = codes "snapshot"
kind (click _ _ _ _ _ _ _) = codes "click"
kind (type_text _ _ _ _ _ _ _ _ _ _) = codes "type"
kind (press _ _ _) = codes "press"
kind (paste _ _ _ _ _ _) = codes "paste"
kind (console _ _ _) = codes "console"
kind (net _ _ _) = codes "net"
kind (motion _ _ _ _) = codes "motion"
kind (seek _ _ _ _ _) = codes "seek"
kind (diff _ _ _ _ _ _ _ _ _ _) = codes "diff"
kind (expect _ _ _ _ _ _ _ _ _) = codes "expect"
kind (clock _ _ _ _ _) = codes "clock"
kind (resize _ _ _) = codes "resize"
kind (batch _) = codes "batch"
kind (subscribe _ _) = codes "subscribe"
kind (history _ _ _) = codes "history"
kind (clear_site_data _) = codes "clear_site_data"
kind (handoff _ _ _) = codes "handoff"
kind (handoffs _) = codes "handoffs"
kind (jump _ _) = codes "jump"
kind (get_content _ _ _ _ _ _ _) = codes "get_content"
kind (fill_form _ _ _ _) = codes "fill_form"
kind (list_downloads _) = codes "list_downloads"
kind (drop_file _ _ _ _ _ _ _ _ _) = codes "drop_file"
kind (auth_context _) = codes "auth_context"
kind (fork _ _ _ _) = codes "fork"
kind list_forks = codes "list_forks"
kind (try_until _ _ _) = codes "try_until"
kind (scout _ _ _ _ _ _ _) = codes "scout"
kind (fill_login _ _ _ _) = codes "fill_login"
kind (list_frames _ _) = codes "list_frames"

abbrev pub is_try_until_action : {F64 : Type 0} → Request F64 → Bool
is_try_until_action (click _ _ _ _ _ _ _) = true
is_try_until_action (type_text _ _ _ _ _ _ _ _ _ _) = true
is_try_until_action (expect _ _ _ _ _ _ _ _ watch) = not watch
is_try_until_action _ = false

abbrev pub is_batch_action : {F64 : Type 0} → Request F64 → Bool
is_batch_action (eval _ _ _) = true
is_batch_action (navigate _ _ _ _ _) = true
is_batch_action (screenshot _ _ _ _) = true
is_batch_action (wait_load _ _ _) = true
is_batch_action (scroll _ _ _ _ _ _ _) = true
is_batch_action (snapshot _ _ _ _ _) = true
is_batch_action (click _ _ _ _ _ _ _) = true
is_batch_action (type_text _ _ _ _ _ _ _ _ _ _) = true
is_batch_action (press _ _ _) = true
is_batch_action (paste _ _ _ _ _ _) = true
is_batch_action (console _ _ _) = true
is_batch_action (get_content _ _ _ _ _ _ _) = true
is_batch_action (fill_form _ _ _ _) = true
is_batch_action (expect _ _ _ _ _ _ _ _ watch) = not watch
is_batch_action _ = false

abbrev pub is_nested : {F64 : Type 0} → Request F64 → Bool
is_nested (batch _) = true
is_nested _ = false

abbrev pub is_watcher : {F64 : Type 0} → Request F64 → Bool
is_watcher (expect _ _ _ _ _ _ _ _ watch) = watch
is_watcher _ = false

-- `eval.as_ref().is_some_and(|js| !js.is_empty())`.
abbrev pub has_script : Option Text → Bool
has_script none = false
has_script (some js) = not (is_empty js)

unfoldable mutual
  pub uses_eval : {F64 : Type 0} → Request F64 → Bool
  uses_eval (eval _ _ _) = true
  uses_eval (check _ _ _ js _ _ _ _ _ _ _ _ _ _ _ _ _ _ _) = has_script js
  uses_eval (batch actions) = any_uses_eval actions
  uses_eval _ = false

  pub any_uses_eval : {F64 : Type 0} → Requests F64 → Bool
  any_uses_eval nil = false
  any_uses_eval (cons r rs) = uses_eval r || any_uses_eval rs

abbrev pub count : {F64 : Type 0} → Requests F64 → ℕ
count nil = 0
count (cons r rs) = suc (count rs)

abbrev pub batch_max_actions : ℕ
batch_max_actions = 32

abbrev pub try_until_max_alternatives : ℕ
try_until_max_alternatives = 8

-- Which failure a validation reports, with the index and the kind that its text names.
pub data RequestError : Type 0 where
  no_actions : RequestError
  too_many : ℕ → RequestError
  nested_batch resident_watcher : ℕ → RequestError
  unsupported : ℕ → Text → RequestError

-- One round of the loop of `validate_batch`.
abbrev pub check_action : {F64 : Type 0} → ℕ → Request F64 → Result RequestError (Unit {0})
check_action index action =
    refuse_if (is_nested action) (nested_batch index)
    >> refuse_if (is_watcher action) (resident_watcher index)
    >> refuse_if (not (is_batch_action action)) (unsupported index (kind action))

pub check_actions : {F64 : Type 0} → ℕ → Requests F64 → Result RequestError (Unit {0})
check_actions index nil = ok tt
check_actions index (cons r rs) = check_action index r >> check_actions (index + 1) rs

pub validate_batch : {F64 : Type 0} → Requests F64 → Result RequestError (Unit {0})
unfolding check_actions
validate_batch actions =
    refuse_if (ltb (count actions) 1) no_actions
    >> refuse_if (ltb batch_max_actions (count actions)) (too_many (count actions))
    >> check_actions 0 actions

pub check_alternatives : {F64 : Type 0} → ℕ → Requests F64 → Result RequestError (Unit {0})
check_alternatives index nil = ok tt
check_alternatives index (cons r rs) =
    refuse_if (not (is_try_until_action r)) (unsupported index (kind r))
    >> check_alternatives (index + 1) rs

pub validate_try_until : {F64 : Type 0} → Requests F64 → Result RequestError (Unit {0})
unfolding check_alternatives
validate_try_until alternatives =
    refuse_if (ltb (count alternatives) 1) no_actions
    >> refuse_if (ltb try_until_max_alternatives (count alternatives))
        (too_many (count alternatives))
    >> check_alternatives 0 alternatives

-- `inline_output_count` of crates/hwatud/src/ipc_server.rs.
abbrev pub from_bool : Bool → ℕ
from_bool true = 1
from_bool false = 0

unfoldable mutual
  pub inline_output_count : {F64 : Type 0} → Request F64 → ℕ
  inline_output_count (screenshot _ _ _ inline) = from_bool inline
  inline_output_count (check _ _ _ _ _ _ shot _ _ _ _ _ _ heat _ _ _ _ _) =
      from_bool shot + from_bool heat
  inline_output_count (diff _ _ _ _ _ _ _ heat _ _) = from_bool heat
  inline_output_count (batch actions) = inline_outputs actions
  inline_output_count _ = 0

  pub inline_outputs : {F64 : Type 0} → Requests F64 → ℕ
  inline_outputs nil = 0
  inline_outputs (cons r rs) = inline_output_count r + inline_outputs rs
