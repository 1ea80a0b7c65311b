-- ===== src/Dispatch/Gate/Tests.antt =====
-- A daemon whose world counts the scripts that ran, with page JavaScript disabled.
use hwatu.Common.{
  ℕ, ◌+◌, ◌≡◌, refl, true, false, some, none, if◌then◌else◌, Bool-cases, false≢true, inl, inr,
}
use hwatu.Common.Text.{codes}
use hwatu.Ipc.Requests.{Request, Requests, nil, cons, batch, eval, click, uses_eval}
use hwatu.Dispatch.Batch.{Response, success, failure}
use hwatu.Dispatch.Gate.{Limits, dispatch, dispatch_with, on_batch, admit, eval_disabled}
use hwatu.Dispatch.Gate.Depth.{dispatch-on_batch}
use hwatu.Dispatch.Gate.Guards.{IsKept, dispatch-IsKept}

abbrev count_scripts : ℕ → Request ℕ → ℕ × Response ℕ
count_scripts w r = ((if uses_eval r then w + 1 else w), success w)

abbrev no_eval : Limits ℕ ℕ ℕ
no_eval = record {
  eval_enabled = false;
  rate_admit = λ w. (w, true);
  max_rps = codes "200";
  open_windows = λ w. 0;
  max_windows = 64;
  run = count_scripts;
  batch_value = λ result. result.executed;
  batch_error_text = λ e. codes "bad batch";
}

abbrev click_then_eval : Requests ℕ
click_then_eval =
    cons (click none (some (codes "a")) none none none false none)
      (cons (eval none (codes "document.title") none) nil)

refuses_eval : dispatch no_eval 0 (batch click_then_eval) ≡ (0, failure (eval_disabled no_eval))
unfolding dispatch dispatch_with on_batch admit uses_eval
refuses_eval = refl

abbrev RanNone : ℕ → Type 0
RanNone w = w ≡ 0

no_eval-IsKept : IsKept no_eval RanNone
no_eval-IsKept = record {
  by_rate = λ w h. h;
  by_run = λ w r through single h. elim (Bool-cases (uses_eval r)) [
    | inl e ↦ absurd (false≢true (through.allowed e))
    | inr e ↦ rw e h
  ];
}

dispatch-IsKept_example : RanNone (dispatch no_eval 0 (batch click_then_eval)).0
dispatch-IsKept_example =
    dispatch-IsKept no_eval RanNone no_eval-IsKept 0 (batch click_then_eval) refl

dispatch-on_batch_example :
    dispatch_with no_eval (on_batch no_eval 3) 0 (batch click_then_eval)
    ≡ dispatch no_eval 0 (batch click_then_eval)
dispatch-on_batch_example = dispatch-on_batch no_eval 2 0 (batch click_then_eval)
