-- ===== src/Dispatch/Gate.antt =====
-- `dispatch` of crates/hwatud/src/ipc_server.rs, from its gates to the batch or the single request.
-- The request budget, the count of windows and what a single admitted request does are parameters.
pub mod Guards
pub mod Depth
mod Tests
use hwatu.Common.{
  ℕ, zero, suc, ◌++◌, [], Bool, true, false, not, ◌&&◌, Option, none, some, Result, ok, err, leb,
  if◌then◌else◌,
}
use hwatu.Common.Text.{Text, codes, decimal}
use hwatu.Ipc.Requests.{Request, Requests, batch, open_page, ping, uses_eval}
use hwatu.Dispatch.Batch.{
  Response, success, failure, BatchResult, BatchError, dispatch_batch, dispatch_batch_step,
}

pub record Limits (F64 World Value : Type 0) : Type 0 where
  -- `daemon.security.eval_enabled`.
  pub eval_enabled : Bool
  -- `rate_admit`, over a clock and floating-point tokens, and the text of `max_rps`.
  pub rate_admit : World → World × Bool
  pub max_rps : Text
  -- `daemon.windows.borrow().len()` and `max_windows`.
  pub open_windows : World → ℕ
  pub max_windows : ℕ
  -- What follows for one request that is no batch.
  pub run : World → Request F64 → World × Response Value
  -- The `batch` field of a response, and `Display` of the failures of a batch.
  pub batch_value : BatchResult Value → Value
  pub batch_error_text : BatchError → Text

abbrev pub is_ping : {F64 : Type 0} → Request F64 → Bool
is_ping ping = true
is_ping _ = false

abbrev pub is_open : {F64 : Type 0} → Request F64 → Bool
is_open (open_page _ _ _ _) = true
is_open _ = false

abbrev pub as_batch : {F64 : Type 0} → Request F64 → Option (Requests F64)
as_batch (batch actions) = some actions
as_batch _ = none

module _ {F64 World Value : Type 0} (l : Limits F64 World Value) where
  abbrev pub eval_disabled : Text
  eval_disabled = codes "eval disabled by daemon policy (--no-eval)"

  abbrev pub over_rate : Text
  over_rate =
      codes "over rate: daemon-wide request budget exceeded ("
      ++ (l.max_rps ++ codes "/s sustained); back off and retry (HWATU_MAX_RPS overrides)")

  abbrev pub over_quota : ℕ → Text
  over_quota n =
      codes "over quota: "
      ++ (decimal n
          ++ (codes " windows open (cap "
              ++ (decimal l.max_windows ++ codes "); close some or raise HWATU_MAX_WINDOWS")))

  -- The rate bulkhead, from which only a ping is exempt.
  abbrev pub take_token : World → Request F64 → World × Bool
  take_token w r = if is_ping r then (w, true) else l.rate_admit w

  abbrev pub is_over_quota : World → Request F64 → Bool
  is_over_quota w r = is_open r && leb l.max_windows (l.open_windows w)

  -- The early returns of `dispatch`: the error of the first gate that refuses.
  unfoldable pub admit : World → Request F64 → World × Option Text
  admit w r =
      if not l.eval_enabled && uses_eval r
      then (w, some eval_disabled)
      else let (w', in_budget) = take_token w r in
        if not in_budget
        then (w', some over_rate)
        else if is_over_quota w' r
        then (w', some (over_quota (l.open_windows w')))
        else (w', none)

  abbrev pub batch_reply : Result BatchError (BatchResult Value) → Response Value
  batch_reply (err e) = failure (l.batch_error_text e)
  batch_reply (ok result) = success (l.batch_value result)

  -- `dispatch`, with what it does with a batch.
  unfoldable pub dispatch_with :
      (World → Requests F64 → World × Response Value) → World → Request F64 → World × Response Value
  unfolding admit
  dispatch_with on_batch w r =
      let (w', refused) = admit w r in
      elim refused [
        | some message ↦ (w', failure message)
        | none ↦ elim (as_batch r) [ none ↦ l.run w' r | some actions ↦ on_batch w' actions ]
      ]

  -- The reply to a batch whose actions `dispatch_one` answers.
  unfoldable pub run_batch :
      (World → Request F64 → World × Response Value) → World → Requests F64 → World × Response Value
  run_batch dispatch_one w actions =
      let out = dispatch_batch F64 World Value dispatch_one w actions in (out.0, batch_reply out.1)

  -- What `dispatch` does with a batch; the number is how deep batches may stand in each other.
  pub on_batch : ℕ → World → Requests F64 → World × Response Value
  unfolding run_batch dispatch_with
  on_batch zero w actions = (w, failure [])
  on_batch (suc depth) w actions = run_batch (dispatch_with (on_batch depth)) w actions

  -- Batches are one deep.
  unfoldable pub dispatch : World → Request F64 → World × Response Value
  unfolding dispatch_with on_batch
  dispatch w r = dispatch_with (on_batch 1) w r
