-- ===== src/Ipc/Requests/Batches.antt =====
-- What the validations of batches and alternatives accept.
use hwatu.Common.{
  ℕ, ◌+◌, ◌≤◌, ◌≡◌, refl, ◌↔◌, Bool, true, false, not, Result, ok, err, ◌>>◌, refuse_if, arith, ltb,
}
use hwatu.Ipc.Requests.{
  Request, Requests, nil, cons, is_batch_action, is_try_until_action, is_nested, is_watcher,
  uses_eval, any_uses_eval, count, batch_max_actions, check_action, check_actions, validate_batch,
  check_alternatives, validate_try_until, kind, no_actions, too_many, nested_batch,
  resident_watcher, unsupported, batch, eval, check, expect, try_until_max_alternatives,
}

-- Every request passes the test.
abbrev pub AllPass : {F64 : Type 0} → (Request F64 → Bool) → Requests F64 → Type 0
AllPass p nil = Unit
AllPass p (cons r rs) = (p r ≡ true) × AllPass p rs

batch_action_is_flat :
    {F64 : Type 0} (r : Request F64) → is_batch_action r ≡ true → is_nested r ≡ false
batch_action_is_flat (batch _) h = cc
batch_action_is_flat _ h = refl

not-true : (b : Bool) → not b ≡ true → b ≡ false
not-true b h = ground arith

batch_action_ends :
    {F64 : Type 0} (r : Request F64) → is_batch_action r ≡ true → is_watcher r ≡ false
batch_action_ends (expect _ _ _ _ _ _ _ _ watch) h = not-true watch h
batch_action_ends _ h = refl

then-ok : {E : Type 0} (m k : Result E (Unit {0})) → (m >> k) ≡ ok tt → (m ≡ ok tt) × (k ≡ ok tt)
then-ok (ok tt) k h = (refl, h)
then-ok (err e) k h = cc

passed : {E : Type 0} (b : Bool) (e : E) → refuse_if b e ≡ ok tt → b ≡ false
passed true e h = cc
passed false e h = refl

false-not : (b : Bool) → not b ≡ false → b ≡ true
false-not b h = ground arith

check_action-ok :
    {F64 : Type 0} (i : ℕ) (r : Request F64) → check_action i r ≡ ok tt → is_batch_action r ≡ true
check_action-ok i r h =
    let last =
      then-ok
        (refuse_if (is_nested r) (nested_batch i) >> refuse_if (is_watcher r) (resident_watcher i))
        (refuse_if (not (is_batch_action r)) (unsupported i (kind r))) h in
    false-not (is_batch_action r) (passed (not (is_batch_action r)) (unsupported i (kind r)) last.1)

action-check :
    {F64 : Type 0} (i : ℕ) (r : Request F64) → is_batch_action r ≡ true → check_action i r ≡ ok tt
action-check i r h = rw (batch_action_is_flat r h, batch_action_ends r h, h) refl

check_actions_iff :
    {F64 : Type 0} (i : ℕ) (rs : Requests F64)
    → (check_actions i rs ≡ ok tt) ↔ AllPass is_batch_action rs
unfolding check_actions
check_actions_iff i nil = (λ h. tt, λ h. refl)
check_actions_iff i (cons r rs) = (
  λ h.
      let both = then-ok (check_action i r) (check_actions (i + 1) rs) h in
      (check_action-ok i r both.0, (check_actions_iff (i + 1) rs).0 both.1),
  λ h. rw (action-check i r h.0) ((check_actions_iff (i + 1) rs).1 h.1),
)

bounded_iff :
    {E : Type 0} (n most : ℕ) (e d : E) (k : Result E (Unit {0}))
    → ((refuse_if (ltb n 1) e >> refuse_if (ltb most n) d >> k) ≡ ok tt)
      ↔ ((1 ≤ n) × (n ≤ most) × (k ≡ ok tt))
bounded_iff n most e d k = (
  λ h.
      let two = then-ok (refuse_if (ltb n 1) e >> refuse_if (ltb most n) d) k h in
      let one = then-ok (refuse_if (ltb n 1) e) (refuse_if (ltb most n) d) two.0 in
      let low : ltb n 1 ≡ false = passed (ltb n 1) e one.0 in
      let high : ltb most n ≡ false = passed (ltb most n) d one.1 in
      (ground arith, ground arith, two.1),
  λ h.
      let low : ltb n 1 ≡ false = ground arith in
      let high : ltb most n ≡ false = ground arith in rw (low, high, h.2) refl,
)

-- A batch is accepted exactly if it has 1 to 32 actions and each of them is one of the supported
-- actions: so none of them is a batch itself, and none a resident watcher.
pub validate_batch_iff :
    {F64 : Type 0} (rs : Requests F64)
    → (validate_batch rs ≡ ok tt)
      ↔ ((1 ≤ count rs) × (count rs ≤ batch_max_actions) × AllPass is_batch_action rs)
unfolding validate_batch
validate_batch_iff rs =
    let bounds =
      bounded_iff (count rs) batch_max_actions no_actions (too_many (count rs))
        (check_actions 0 rs) in
    (
      λ h. let r = bounds.0 h in (r.0, r.1, (check_actions_iff 0 rs).0 r.2),
      λ h. bounds.1 (h.0, h.1, (check_actions_iff 0 rs).1 h.2),
    )

alternative_is_quiet :
    {F64 : Type 0} (r : Request F64) → is_try_until_action r ≡ true → uses_eval r ≡ false
unfolding uses_eval
alternative_is_quiet (eval _ _ _) h = cc
alternative_is_quiet (check _ _ _ _ _ _ _ _ _ _ _ _ _ _ _ _ _ _ _) h = cc
alternative_is_quiet (batch _) h = cc
alternative_is_quiet _ h = refl

check_alternatives-quiet :
    {F64 : Type 0} (i : ℕ) (rs : Requests F64)
    → check_alternatives i rs ≡ ok tt
    → any_uses_eval rs ≡ false
unfolding check_alternatives uses_eval any_uses_eval
check_alternatives-quiet i nil h = refl
check_alternatives-quiet i (cons r rs) h =
    let both =
      then-ok (refuse_if (not (is_try_until_action r)) (unsupported i (kind r)))
        (check_alternatives (i + 1) rs) h in
    let quick =
      false-not (is_try_until_action r)
        (passed (not (is_try_until_action r)) (unsupported i (kind r)) both.0) in
    rw (alternative_is_quiet r quick, check_alternatives-quiet (i + 1) rs both.1) refl

-- `uses_eval` does not look into the alternatives of a `TryUntil`, and need not: alternatives that
-- the validation accepts are 1 to 8, and none of them asks for page JavaScript.
pub validate_try_until-quiet :
    {F64 : Type 0} (rs : Requests F64)
    → validate_try_until rs ≡ ok tt
    → (1 ≤ count rs) × (count rs ≤ try_until_max_alternatives) × (any_uses_eval rs ≡ false)
unfolding validate_try_until
validate_try_until-quiet rs h =
    let r =
      (bounded_iff (count rs) try_until_max_alternatives no_actions (too_many (count rs))
          (check_alternatives 0 rs)).0
        h in
    (r.0, r.1, check_alternatives-quiet 0 rs r.2)
