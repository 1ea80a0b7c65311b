-- ===== src/Dispatch/Gate/Guards.antt =====
-- What the gates of `dispatch` keep from a single request's code.
use hwatu.Common.{
  ℕ, ◌+◌, ◌<◌, ◌≡◌, refl, Bool, true, false, not, ◌&&◌, Option, none, some, arith, ltb, Bool-cases,
  Option-cases, Result-cases, inl, inr, List, ◌++◌, ◌∷◌, [],
}
use hwatu.Common.{if◌then◌else◌}
use hwatu.Common.Text.{Text}
use hwatu.Ipc.Requests.{
  Request, Requests, nil, cons, uses_eval, validate_batch, count, inline_outputs,
}
use hwatu.Dispatch.Batch.{Response, StepResult, dispatch_batch, dispatch_batch_step, ran_ok}
use hwatu.Dispatch.Batch.Runs.{Response-cases}
use hwatu.Dispatch.Gate.{
  Limits, is_open, take_token, is_over_quota, eval_disabled, over_rate, over_quota, admit, as_batch,
  dispatch_with, run_batch, on_batch, dispatch,
}

-- None of three early returns is taken.
all_gates_pass :
    {World : Type 0} (w w' : World) (x y z : Text) (b c d : Bool)
    → let out : World × Option Text =
        if b
        then (w, some x)
        else if c
        then (w', some y)
        else if d
        then (w', some z)
        else (w', none) in
      out.1 ≡ none → (b ≡ false) × (c ≡ false) × (d ≡ false) × (out.0 ≡ w')
all_gates_pass w w' x y z true c d h = cc
all_gates_pass w w' x y z false true d h = cc
all_gates_pass w w' x y z false false true h = cc
all_gates_pass w w' x y z false false false h = (refl, refl, refl, refl)

module _ {F64 World Value : Type 0} (l : Limits F64 World Value) where
  -- What the gates let through: no page JavaScript where that is disabled, no new window at the cap.
  pub record IsLetThrough (w : World) (r : Request F64) : Type 0 where
    pub allowed : uses_eval r ≡ true → l.eval_enabled ≡ true
    pub in_quota : is_open r ≡ true → l.open_windows w < l.max_windows

  -- A property of worlds that neither the budget breaks, nor the code of a single request that the
  -- gates let through.
  pub record IsKept (I : World → Type 0) : Type 0 where
    pub by_rate : (w : World) → I w → I (l.rate_admit w).0
    pub by_run :
        (w : World) (r : Request F64) → IsLetThrough w r → as_batch r ≡ none → I w → I (l.run w r).0

  admit-IsLetThrough :
      (w : World) (r : Request F64) → (admit l w r).1 ≡ none → IsLetThrough (admit l w r).0 r
  unfolding admit
  admit-IsLetThrough w r h =
      let (quiet, budget, quota, after) =
        all_gates_pass w (take_token l w r).0 (eval_disabled l) (over_rate l)
          (over_quota l (l.open_windows (take_token l w r).0)) (not l.eval_enabled && uses_eval r)
          (not (take_token l w r).1) (is_over_quota l (take_token l w r).0 r) h in
      record { allowed = λ u. ground arith; in_quota = λ o. rw after (ground arith) }

  module _ (I : World → Type 0) (k : IsKept I) where
    admit_kept : (w : World) (r : Request F64) → I w → I (admit l w r).0
    unfolding admit
    admit_kept w r h = ground (arith, k.by_rate w h)

    dispatch_with_kept :
        (f : World → Requests F64 → World × Response Value)
        → ((w : World) (rs : Requests F64) → I w → I (f w rs).0)
        → (w : World) (r : Request F64) → I w
        → I (dispatch_with l f w r).0
    unfolding dispatch_with
    dispatch_with_kept f batches w r h =
        let (w', refused) = admit l w r in
        elim (Option-cases refused) [
          | inr (m, e) ↦ rw (e, dispatch_with) (admit_kept w r h)
          | inl e ↦ elim (Option-cases (as_batch r)) [
            | inl single ↦
                rw (e, dispatch_with)
                  (rw single (k.by_run w' r (admit-IsLetThrough w r e) single (admit_kept w r h)))
            | inr (rs, many) ↦ rw (e, dispatch_with) (rw many (batches w' rs (admit_kept w r h)))
          ]
        ]

    step_kept :
        (f : World → Request F64 → World × Response Value)
        → ((w : World) (r : Request F64) → I w → I (f w r).0)
        → (total : ℕ) (w : World) (steps : List (StepResult Value)) (i : ℕ) (rs : Requests F64)
        → I w
        → I (dispatch_batch_step F64 World Value f total w steps i rs).0
    unfolding dispatch_batch_step
    step_kept f one total w steps i nil h = h
    step_kept f one total w steps i (cons r rs) h =
        elim (Response-cases F64 World Value f (f w r).1) [
          | inl (v, e) ↦
              rw (e, dispatch_batch_step)
                (step_kept f one total (f w r).0 (steps ++ ran_ok F64 World Value f i r v ∷ [])
                  (i + 1) rs (one w r h))
          | inr (m, e) ↦ rw (e, dispatch_batch_step) (one w r h)
        ]

    run_batch_kept :
        (f : World → Request F64 → World × Response Value)
        → ((w : World) (r : Request F64) → I w → I (f w r).0)
        → (w : World) (rs : Requests F64) → I w
        → I (run_batch l f w rs).0
    unfolding run_batch dispatch_batch
    run_batch_kept f one w rs h = elim (Result-cases (validate_batch rs)) [
      | inl (e, v) ↦ rw (v, dispatch_batch) h
      | inr (u, v) ↦ elim (Bool-cases (ltb 1 (inline_outputs rs))) [
        | inl many ↦ rw (v, many, dispatch_batch) h
        | inr few ↦ rw (v, few, dispatch_batch) (step_kept f one (count rs) w [] 0 rs h)
      ]
    ]

  -- The code behind the gates is only called where the gates allow it: what holds of the world stays
  -- so over a request, batches and their actions included, if the request budget keeps it and every
  -- single request keeps it that uses no page JavaScript where the policy disables that, and opens no
  -- window where the cap is reached.
  pub dispatch-IsKept :
      (I : World → Type 0) → IsKept I → (w : World) (r : Request F64) → I w → I (dispatch l w r).0
  unfolding dispatch on_batch
  dispatch-IsKept I k w r h =
      dispatch_with_kept I k (on_batch l 1)
        (run_batch_kept I k (dispatch_with l (on_batch l 0))
          (dispatch_with_kept I k (on_batch l 0) (λ w' rs h'. h')))
        w r h
