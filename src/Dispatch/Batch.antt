-- ===== src/Dispatch/Batch.antt =====
-- `dispatch_batch`, `dispatch_batch_step` and `finish_batch` of crates/hwatud/src/ipc_server.rs. What
-- a single request does to the windows is a parameter: `dispatch` runs one request in a world and
-- calls back with its response.
pub mod Runs
use hwatu.Common.{
  ℕ, zero, suc, ◌+◌, List, [], ◌∷◌, ◌++◌, Bool, true, false, Option, none, some, Result, ok, err,
  ltb, if◌then◌else◌,
}
use hwatu.Common.Text.{Text, codes, decimal}
use hwatu.Ipc.Requests.{
  Request, Requests, nil, cons, RequestError, kind, count, validate_batch, inline_outputs,
}

-- `Response`, with its success fields as one value.
pub data Response (Value : Type 0) : Type 0 where
  success : Value → Response Value
  failure : Text → Response Value

pub data StepStatus : Type 0 where
  step_ok step_error step_skipped : StepStatus

-- `BatchStepResult`.
pub record StepResult (Value : Type 0) : Type 0 where
  pub index : ℕ
  pub action : Text
  pub status : StepStatus
  pub response : Option (Response Value)
  pub error : Option Text
  pub skipped_reason : Option Text

pub record BatchResult (Value : Type 0) : Type 0 where
  pub complete : Bool
  pub executed : ℕ
  pub failed_at : Option ℕ
  pub steps : List (StepResult Value)

-- The replies to a batch that is not run.
pub data BatchError : Type 0 where
  bad_batch : RequestError → BatchError
  too_much_inline : BatchError

module _ (F64 World Value : Type 0) (dispatch : World → Request F64 → World × Response Value) where
  abbrev pub skipped : ℕ → ℕ → Request F64 → StepResult Value
  skipped failed_at index r = record {
    index = index;
    action = kind r;
    status = step_skipped;
    response = none;
    error = none;
    skipped_reason = some (codes "not run after step " ++ (decimal failed_at ++ codes " failed"));
  }

  -- The loop of `finish_batch` over the actions after the failed one.
  unfoldable pub skip_rest : ℕ → ℕ → Requests F64 → List (StepResult Value)
  skip_rest failed_at index nil = []
  skip_rest failed_at index (cons r rs) =
      skipped failed_at index r ∷ skip_rest failed_at (index + 1) rs

  -- `finish_batch` with a failure at `index`, and `rest` the actions after it.
  unfoldable pub finish_failed : ℕ → List (StepResult Value) → Requests F64 → BatchResult Value
  unfolding skip_rest
  finish_failed index steps rest = record {
    complete = false;
    executed = index + 1;
    failed_at = some index;
    steps = steps ++ skip_rest index (index + 1) rest;
  }

  -- `finish_batch` with no failure.
  abbrev pub finish_complete : ℕ → List (StepResult Value) → BatchResult Value
  finish_complete total steps = record {
    complete = true;
    executed = total;
    failed_at = none;
    steps = steps;
  }

  abbrev pub ran_ok : ℕ → Request F64 → Value → StepResult Value
  ran_ok index r v = record {
    index = index;
    action = kind r;
    status = step_ok;
    response = some (success v);
    error = none;
    skipped_reason = none;
  }

  abbrev pub ran_error : ℕ → Request F64 → Text → StepResult Value
  ran_error index r message = record {
    index = index;
    action = kind r;
    status = step_error;
    response = some (failure message);
    error = some message;
    skipped_reason = none;
  }

  -- `dispatch_batch_step` at `index`, which is the first of the actions given; `total` is their
  -- number in the whole batch.
  unfoldable pub dispatch_batch_step :
      ℕ → World → List (StepResult Value) → ℕ → Requests F64 → World × BatchResult Value
  unfolding finish_failed
  dispatch_batch_step total w steps index nil = (w, finish_complete total steps)
  dispatch_batch_step total w steps index (cons r rs) =
      let (w', response) = dispatch w r in
      elim response [
        | success v ↦ dispatch_batch_step total w' (steps ++ ran_ok index r v ∷ []) (index + 1) rs
        | failure message ↦ (w', finish_failed index (steps ++ ran_error index r message ∷ []) rs)
      ]

  unfoldable pub dispatch_batch :
      World → Requests F64 → World × Result BatchError (BatchResult Value)
  unfolding dispatch_batch_step
  dispatch_batch w actions = elim (validate_batch actions) [
    | err e ↦ (w, err (bad_batch e))
    | ok _ ↦
        if ltb 1 (inline_outputs actions)
        then (w, err too_much_inline)
        else let run = dispatch_batch_step (count actions) w [] 0 actions in (run.0, ok run.1)
  ]
