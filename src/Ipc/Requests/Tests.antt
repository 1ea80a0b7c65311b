-- ===== src/Ipc/Requests/Tests.antt =====
-- Concrete batches.
use hwatu.Common.{ℕ, ◌≤◌, ◌≡◌, refl, ◌↔◌, true, false, none, some, ok, err}
use hwatu.Common.Text.{codes}
use hwatu.Ipc.Requests.{
  Request, Requests, nil, cons, click, eval, batch, validate_batch, validate_try_until,
  batch_max_actions, is_batch_action, any_uses_eval, try_until_max_alternatives, nested_batch,
  check_actions, check_alternatives, uses_eval,
}
use hwatu.Ipc.Requests.Batches.{AllPass, validate_batch_iff, validate_try_until-quiet}

abbrev click_first : Request ℕ
click_first = click none (some (codes "a")) none none none false none

abbrev eval_title : Request ℕ
eval_title = eval none (codes "document.title") none

abbrev two_actions : Requests ℕ
two_actions = cons click_first (cons eval_title nil)

abbrev one_click : Requests ℕ
one_click = cons click_first nil

accepts_two : validate_batch two_actions ≡ ok tt
unfolding validate_batch check_actions
accepts_two = refl

refuses_nested :
    validate_batch (cons click_first (cons (batch two_actions) nil)) ≡ err (nested_batch 1)
unfolding validate_batch check_actions
refuses_nested = refl

nested_eval : uses_eval (batch (cons (batch two_actions) nil)) ≡ true
unfolding uses_eval
nested_eval = refl

accepts_click : validate_try_until one_click ≡ ok tt
unfolding validate_try_until check_alternatives
accepts_click = refl

validate_batch_iff_example :
    (validate_batch two_actions ≡ ok tt)
    ↔ ((1 ≤ 2) × (2 ≤ batch_max_actions) × AllPass is_batch_action two_actions)
validate_batch_iff_example = validate_batch_iff two_actions

validate_try_until-quiet_example :
    (1 ≤ 1) × (1 ≤ try_until_max_alternatives) × (any_uses_eval one_click ≡ false)
validate_try_until-quiet_example = validate_try_until-quiet one_click accepts_click
