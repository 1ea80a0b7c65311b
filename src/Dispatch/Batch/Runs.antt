-- ===== src/Dispatch/Batch/Runs.antt =====
-- What the reply to a batch says of its run.
use hwatu.Common.{
  ℕ, ◌+◌, ◌≤◌, ◌<◌, ◌≡◌, refl, List, [], ◌∷◌, ◌++◌, map, true, false, none, some, ok, err, ltb,
  replicate, ap, ◌∙◌, sym, arith, ◌⊎◌, inl, inr, append-nil, append_assoc, Result-cases, Bool-cases,
  ltb→lt,
}
use hwatu.Common.Text.{Text}
use hwatu.Ipc.Requests.{
  Request, Requests, nil, cons, RequestError, kind, count, validate_batch, inline_outputs,
}
use hwatu.Dispatch.Batch.{
  Response, success, failure, StepStatus, step_ok, step_error, step_skipped, StepResult,
  BatchResult, skip_rest, finish_failed, ran_ok, ran_error, bad_batch, too_much_inline,
  dispatch_batch_step, dispatch_batch,
}

module _ (F64 World Value : Type 0) (dispatch : World → Request F64 → World × Response Value) where
  -- What happens to a list of actions: all succeed, or some succeed, one fails and the rest is left
  -- alone. The indices are the worlds before and after, the number of actions that ran, and the
  -- statuses of all actions.
  pub data Runs : World → Requests F64 → World → ℕ → List StepStatus → Type 0 where
    all_done : (w : World) → Runs w nil w 0 []
    goes_on :
        (w w' w'' : World) (r : Request F64) (v : Value) (rs : Requests F64) (n : ℕ)
        (ss : List StepStatus)
        → dispatch w r ≡ (w', success v)
        → Runs w' rs w'' n ss
        → Runs w (cons r rs) w'' (n + 1) (step_ok ∷ ss)
    stops :
        (w w' : World) (r : Request F64) (message : Text) (rs : Requests F64)
        → dispatch w r ≡ (w', failure message)
        → Runs w (cons r rs) w' 1 (step_error ∷ replicate (count rs) step_skipped)

  abbrev pub count_up : ℕ → Requests F64 → List ℕ
  count_up i nil = []
  count_up i (cons r rs) = i ∷ count_up (i + 1) rs

  abbrev pub kinds : Requests F64 → List Text
  kinds nil = []
  kinds (cons r rs) = kind r ∷ kinds rs

  -- The report of `rs`, from index `i` on, after the steps `before`.
  pub record IsReport (w : World) (before : List (StepResult Value)) (i : ℕ) (rs : Requests F64)
      (out : World × BatchResult Value) : Type 0 where
    pub ran : ℕ
    pub statuses : List StepStatus
    pub later : List (StepResult Value)
    pub runs : Runs w rs out.0 ran statuses
    pub reported : out.1.steps ≡ before ++ later
    pub in_order : map (λ (s : StepResult Value). s.index) later ≡ count_up i rs
    pub named : map (λ (s : StepResult Value). s.action) later ≡ kinds rs
    pub told : map (λ (s : StepResult Value). s.status) later ≡ statuses
    pub verdict :
        ((out.1.complete ≡ true)
          × (out.1.failed_at ≡ none)
          × (ran ≡ count rs)
          × (out.1.executed ≡ i + ran))
        ⊎ ((k : ℕ) × (out.1.complete ≡ false)
            × (out.1.failed_at ≡ some k)
            × (i + ran ≡ k + 1)
            × (out.1.executed ≡ i + ran))

  pub Response-cases :
      (x : Response Value) → ((v : Value) × (x ≡ success v)) ⊎ ((m : Text) × (x ≡ failure m))
  Response-cases (success v) = inl (v, refl)
  Response-cases (failure m) = inr (m, refl)

  skip_rest-indices :
      (f i : ℕ) (rs : Requests F64)
      → map (λ (s : StepResult Value). s.index) (skip_rest F64 World Value dispatch f i rs)
        ≡ count_up i rs
  unfolding skip_rest
  skip_rest-indices f i nil = refl
  skip_rest-indices f i (cons r rs) = ap (λ x. i ∷ x) (skip_rest-indices f (i + 1) rs)

  skip_rest-kinds :
      (f i : ℕ) (rs : Requests F64)
      → map (λ (s : StepResult Value). s.action) (skip_rest F64 World Value dispatch f i rs)
        ≡ kinds rs
  unfolding skip_rest
  skip_rest-kinds f i nil = refl
  skip_rest-kinds f i (cons r rs) = ap (λ x. kind r ∷ x) (skip_rest-kinds f (i + 1) rs)

  skip_rest-statuses :
      (f i : ℕ) (rs : Requests F64)
      → map (λ (s : StepResult Value). s.status) (skip_rest F64 World Value dispatch f i rs)
        ≡ replicate (count rs) step_skipped
  unfolding skip_rest
  skip_rest-statuses f i nil = refl
  skip_rest-statuses f i (cons r rs) = ap (λ x. step_skipped ∷ x) (skip_rest-statuses f (i + 1) rs)

  goes_on_IsReport :
      (w w' : World) (before : List (StepResult Value)) (i : ℕ) (r : Request F64)
      (rs : Requests F64) (now : StepResult Value) (v : Value) {out : World × BatchResult Value}
      → dispatch w r ≡ (w', success v)
      → now.index ≡ i
      → now.action ≡ kind r
      → now.status ≡ step_ok
      → IsReport w' (before ++ now ∷ []) (i + 1) rs out
      → IsReport w before i (cons r rs) out
  goes_on_IsReport w w' before i r rs now v {out} d ni na ns rest = record {
    ran = rest.ran + 1;
    statuses = step_ok ∷ rest.statuses;
    later = now ∷ rest.later;
    runs = goes_on w w' out.0 r v rs rest.ran rest.statuses d rest.runs;
    reported = rest.reported ∙ append_assoc before (now ∷ []) rest.later;
    in_order = cc (ni, rest.in_order);
    named = cc (na, rest.named);
    told = cc (ns, rest.told);
    verdict = elim rest.verdict [
      | inl (c, f, n, x) ↦ inl (c, f, omega arith, omega arith)
      | inr (k, c, f, n, x) ↦ inr (k, c, f, omega arith, omega arith)
    ];
  }

  stop_IsReport :
      (w w' : World) (before : List (StepResult Value)) (i : ℕ) (r : Request F64)
      (rs : Requests F64) (message : Text)
      → dispatch w r ≡ (w', failure message)
      → IsReport w before i (cons r rs) (
        w',
        finish_failed F64 World Value dispatch i
            (before ++ ran_error F64 World Value dispatch i r message ∷ [])
            rs,
      )
  unfolding finish_failed
  stop_IsReport w w' before i r rs message d =
      let now = ran_error F64 World Value dispatch i r message in
      let rest = skip_rest F64 World Value dispatch i (i + 1) rs in
      record {
        ran = 1;
        statuses = step_error ∷ replicate (count rs) step_skipped;
        later = now ∷ rest;
        runs = stops w w' r message rs d;
        reported = append_assoc before (now ∷ []) rest;
        in_order = ap (λ x. i ∷ x) (skip_rest-indices i (i + 1) rs);
        named = ap (λ x. kind r ∷ x) (skip_rest-kinds i (i + 1) rs);
        told = ap (λ x. step_error ∷ x) (skip_rest-statuses i (i + 1) rs);
        verdict = inr (i, refl, refl, refl, refl);
      }

  pub dispatch_batch_step-IsReport :
      (total : ℕ) (w : World) (before : List (StepResult Value)) (i : ℕ) (rs : Requests F64)
      → i + count rs ≡ total
      → IsReport w before i rs (dispatch_batch_step F64 World Value dispatch total w before i rs)
  unfolding dispatch_batch_step finish_failed
  dispatch_batch_step-IsReport total w before i nil h = record {
    ran = 0;
    statuses = [];
    later = [];
    runs = all_done w;
    reported = sym (append-nil before);
    in_order = refl;
    named = refl;
    told = refl;
    verdict = inl (refl, refl, refl, omega arith);
  }
  dispatch_batch_step-IsReport total w before i (cons r rs) h =
      elim (Response-cases (dispatch w r).1) [
        | inl (v, e) ↦
            let w' = (dispatch w r).0 in
            let now = ran_ok F64 World Value dispatch i r v in
            let steps = before ++ now ∷ [] in
            let rest = dispatch_batch_step-IsReport total w' steps (i + 1) rs (omega arith) in
            rw (e, dispatch_batch_step)
              (goes_on_IsReport w w' before i r rs now v (ap (λ x. (w', x)) e) refl refl refl rest)
        | inr (message, e) ↦
            rw (e, dispatch_batch_step)
              (stop_IsReport w (dispatch w r).0 before i r rs message
                (ap (λ x. ((dispatch w r).0, x)) e))
      ]

  -- A batch that the validation refuses, or with more than one inline output, is answered with that
  -- error and leaves the world alone. Any other batch is run in order up to the end or up to the first
  -- action that fails, and nothing after it is run; the report has one step for each action, numbered
  -- from 0, with the action's kind and what became of it (ok, error or skipped), the count of the
  -- actions that ran, and the index of the one that failed, if one did.
  pub dispatch_batch-IsReport :
      (w : World) (actions : Requests F64)
      → let out = dispatch_batch F64 World Value dispatch w actions in
        ((e : RequestError) × (validate_batch actions ≡ err e) × (out ≡ (w, err (bad_batch e))))
        ⊎ ((validate_batch actions ≡ ok tt)
            × (1 < inline_outputs actions)
            × (out ≡ (w, err too_much_inline)))
        ⊎ ((validate_batch actions ≡ ok tt)
            × (inline_outputs actions ≤ 1)
            × (result : BatchResult Value) × (out.1 ≡ ok result)
            × IsReport w [] 0 actions (out.0, result))
  unfolding dispatch_batch
  dispatch_batch-IsReport w actions = elim (Result-cases (validate_batch actions)) [
    | inl (e, v) ↦ inl (e, v, rw (v, dispatch_batch) refl)
    | inr (u, v) ↦
        let outputs = inline_outputs actions in
        let run = dispatch_batch_step F64 World Value dispatch (count actions) w [] 0 actions in
        elim (Bool-cases (ltb 1 outputs)) [
          | inl b ↦ inr (inl (v, ltb→lt 1 outputs b, rw (v, b, dispatch_batch) refl))
          | inr b ↦
              let few : outputs ≤ 1 = ground arith in
              inr (
                inr (
                  v,
                  few,
                  run.1,
                  rw (v, b, dispatch_batch) refl,
                  rw (v, b, dispatch_batch)
                      (dispatch_batch_step-IsReport (count actions) w [] 0 actions (omega arith)),
                ))
        ]
  ]
