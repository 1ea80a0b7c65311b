-- ===== src/Dispatch/Gate/Depth.antt =====
-- How deep batches stand in each other.
use hwatu.Common.{
  ℕ, suc, ◌+◌, ◌≡◌, refl, ap, ◌∙◌, List, [], ◌∷◌, ◌++◌, true, none, ok, ltb, Result-cases,
  Bool-cases, Option-cases, inl, inr,
}
use hwatu.Ipc.Requests.{
  Request, Requests, nil, cons, batch, is_batch_action, validate_batch, count, inline_outputs,
}
use hwatu.Ipc.Requests.Batches.{AllPass, validate_batch_iff}
use hwatu.Dispatch.Batch.{
  Response, StepResult, dispatch_batch, dispatch_batch_step, ran_ok, ran_error, finish_failed,
  skip_rest,
}
use hwatu.Dispatch.Batch.Runs.{Response-cases}
use hwatu.Dispatch.Gate.{
  Limits, admit, as_batch, dispatch_with, run_batch, on_batch, dispatch, batch_reply,
}

-- Two ways to run a request that agree on what a batch may hold agree on batches.
module _ (F64 World Value : Type 0) (f g : World → Request F64 → World × Response Value)
    (agree : (w : World) (r : Request F64) → is_batch_action r ≡ true → f w r ≡ g w r) where
  dispatch_batch_step_agree :
      (total : ℕ) (w : World) (steps : List (StepResult Value)) (i : ℕ) (rs : Requests F64)
      → AllPass is_batch_action rs
      → dispatch_batch_step F64 World Value f total w steps i rs
        ≡ dispatch_batch_step F64 World Value g total w steps i rs
  unfolding dispatch_batch_step finish_failed skip_rest
  dispatch_batch_step_agree total w steps i nil h = refl
  dispatch_batch_step_agree total w steps i (cons r rs) h =
      elim (Response-cases F64 World Value g (g w r).1) [
        | inl (v, e) ↦
            rw (agree w r h.0, dispatch_batch_step)
              (rw (e, dispatch_batch_step)
                (ap
                    (λ (x : World × Response Value).
                      dispatch_batch_step F64 World Value f total x.0
                        (steps ++ ran_ok F64 World Value f i r v ∷ []) (i + 1) rs)
                    (agree w r h.0)
                  ∙ dispatch_batch_step_agree total (g w r).0
                      (steps ++ ran_ok F64 World Value f i r v ∷ []) (i + 1) rs h.1))
        | inr (m, e) ↦
            rw (agree w r h.0, dispatch_batch_step)
              (rw (e, dispatch_batch_step)
                (ap
                  (λ (x : World × Response Value). (
                    x.0,
                    finish_failed F64 World Value f i
                        (steps ++ ran_error F64 World Value f i r m ∷ []) rs,
                  ))
                  (agree w r h.0)))
      ]

  dispatch_batch_agree :
      (w : World) (actions : Requests F64)
      → dispatch_batch F64 World Value f w actions ≡ dispatch_batch F64 World Value g w actions
  unfolding dispatch_batch
  dispatch_batch_agree w actions = elim (Result-cases (validate_batch actions)) [
    | inl (e, v) ↦ rw (v, dispatch_batch) refl
    | inr (u, v) ↦
        let valid = (validate_batch_iff actions).0 v in
        let same = dispatch_batch_step_agree (count actions) w [] 0 actions valid.2 in
        elim (Bool-cases (ltb 1 (inline_outputs actions))) [
          | inl many ↦ rw (v, many, dispatch_batch) refl
          | inr few ↦ rw (v, few, dispatch_batch) (ap (λ x. (x.0, ok x.1)) same)
        ]
  ]

module _ {F64 World Value : Type 0} (l : Limits F64 World Value) where
  as_batch-none : (r : Request F64) → is_batch_action r ≡ true → as_batch r ≡ none
  as_batch-none (batch _) h = cc
  as_batch-none _ h = refl

  -- An action that a batch may hold is answered without a look at batches.
  dispatch_with_flat :
      (f g : World → Requests F64 → World × Response Value) (w : World) (r : Request F64)
      → is_batch_action r ≡ true
      → dispatch_with l f w r ≡ dispatch_with l g w r
  unfolding dispatch_with
  dispatch_with_flat f g w r h = elim (Option-cases (admit l w r).1) [
    | inl e ↦ rw (e, dispatch_with) (rw (as_batch-none r h) refl)
    | inr (m, e) ↦ rw (e, dispatch_with) refl
  ]

  -- Batches do not nest: however deep a batch may call `dispatch` again, a request is answered as it
  -- is where the actions of a batch can call no further batch, so that the recursion of `dispatch` and
  -- `dispatch_batch` ends after one level on every request.
  pub dispatch-on_batch :
      (n : ℕ) (w : World) (r : Request F64)
      → dispatch_with l (on_batch l (suc n)) w r ≡ dispatch l w r
  unfolding dispatch on_batch run_batch
  dispatch-on_batch n w r i =
      dispatch_with l
        (λ w' actions.
          let out =
            dispatch_batch_agree F64 World Value (dispatch_with l (on_batch l n))
              (dispatch_with l (on_batch l 0)) (dispatch_with_flat (on_batch l n) (on_batch l 0)) w'
              actions i in
          (out.0, batch_reply l out.1))
        w r
