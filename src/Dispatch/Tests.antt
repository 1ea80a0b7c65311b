-- ===== src/Dispatch/Tests.antt =====
-- A concrete batch: the second of three actions fails.
use hwatu.Common.{ℕ, ◌+◌, ◌<◌, ◌≤◌, ◌≡◌, refl, ◌⊎◌, none, some, false, ok, err, []}
use hwatu.Common.Text.{codes}
use hwatu.Ipc.Requests.{
  Request, Requests, nil, cons, click, eval, RequestError, validate_batch, inline_outputs,
}
use hwatu.Dispatch.Batch.{
  Response, success, failure, BatchResult, bad_batch, too_much_inline, dispatch_batch,
  dispatch_batch_step, finish_failed,
}
use hwatu.Dispatch.Batch.Runs.{IsReport, dispatch_batch-IsReport}

-- A daemon that counts requests, and fails those that click.
abbrev counting : ℕ → Request ℕ → ℕ × Response ℕ
counting w (click _ _ _ _ _ _ _) = (w + 1, failure (codes "no element"))
counting w _ = (w + 1, success w)

abbrev read_title : Request ℕ
read_title = eval none (codes "document.title") none

abbrev three_actions : Requests ℕ
three_actions =
    cons read_title
      (cons (click none (some (codes "a")) none none none false none) (cons read_title nil))

stops_at_click : (dispatch_batch_step ℕ ℕ ℕ counting 3 0 [] 0 three_actions).0 ≡ 2
unfolding dispatch_batch_step
stops_at_click = refl

reports_click : (dispatch_batch_step ℕ ℕ ℕ counting 3 0 [] 0 three_actions).1.failed_at ≡ some 1
unfolding dispatch_batch_step finish_failed
reports_click = refl

dispatch_batch-IsReport_example :
    let out = dispatch_batch ℕ ℕ ℕ counting 0 three_actions in
    ((e : RequestError) × (validate_batch three_actions ≡ err e) × (out ≡ (0, err (bad_batch e))))
    ⊎ ((validate_batch three_actions ≡ ok tt)
        × (1 < inline_outputs three_actions)
        × (out ≡ (0, err too_much_inline)))
    ⊎ ((validate_batch three_actions ≡ ok tt)
        × (inline_outputs three_actions ≤ 1)
        × (result : BatchResult ℕ) × (out.1 ≡ ok result)
        × IsReport ℕ ℕ ℕ counting 0 [] 0 three_actions (out.0, result))
dispatch_batch-IsReport_example = dispatch_batch-IsReport ℕ ℕ ℕ counting 0 three_actions
