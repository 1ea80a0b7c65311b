-- ===== src/Net/Log.antt =====
-- The bounded request log against the log of everything that was recorded since it was last cleared.
use hwatu.Common.{
  ℕ, not, append-nil, zero, suc, ◌+◌, ◌-◌, ◌≤◌, ◌<◌, min, ◌≡◌, refl, sym, ap, ◌∙◌, List, [], ◌∷◌,
  ◌++◌, Bool, true, false, Option, none, some, ◌==◌, if◌then◌else◌, length, drop, arith, Bool-cases,
  inl, inr, length-append, length-drop, ==_iff,
}
use hwatu.Common.Text.{Text, is_some}
use hwatu.Net.{
  Entry, Buffer, Resource, cap, pop_front, push_entry, read, entry_of, type_of, or_zero, is_silent,
  on_resource,
}

-- The last `n` elements.
abbrev pub last_n : ℕ → List Entry → List Entry
last_n n xs = drop (length xs - n) xs

-- What happens to a log: a resource ends at an instant, or the log is read.
pub data Use : Type 0 where
  ends : ℕ → Resource → Use
  reads : Bool → Option ℕ → Use

pub apply_use : Use → Buffer → Buffer
unfolding read on_resource
apply_use (ends now ev) b = on_resource now ev b
apply_use (reads clear limit) b = record b { queue = (read clear limit b.queue).1 }

-- The buffer after the uses, and all entries recorded since the last clearing read.
pub run : List Use → Buffer → Buffer
run [] b = b
run (u ∷ us) b = run us (apply_use u b)

-- When a resource that ended at an instant had started, after an earlier instant.
abbrev pub started_after : ℕ → ℕ → Option ℕ → ℕ
started_after now epoch none = now - epoch
started_after now epoch (some duration) = now - (epoch + duration)

-- Whether anything is known of how a load ended: an error, a status or a MIME type.
abbrev pub has_outcome : Option Text → Option ℕ → Option Text → Bool
has_outcome none none none = false
has_outcome none none (some m) = true
has_outcome none (some s) m = true
has_outcome (some e) s m = true

-- What the log is to hold of a resource that ended at an instant.
abbrev pub logged : ℕ → ℕ → Resource → List Entry
logged now epoch ev =
    let entry : Entry = record {
      method = ev.method;
      url = ev.url;
      status = ev.status;
      resource_type = type_of ev;
      start_ms = started_after now epoch ev.duration_ms;
      duration_ms = ev.duration_ms;
      error = ev.error;
      page = ev.page;
    } in
    if has_outcome ev.error ev.status ev.mime then entry ∷ [] else []

pub record_all : List Use → ℕ → List Entry → List Entry
record_all [] epoch log = log
record_all (ends now ev ∷ us) epoch log =
    let epoch' = if ev.is_main then now else epoch in
    record_all us epoch' (log ++ logged now epoch' ev)
record_all (reads clear limit ∷ us) epoch log = record_all us epoch (if clear then [] else log)

drop-append : (n : ℕ) (xs ys : List Entry) → n ≤ length xs → drop n (xs ++ ys) ≡ drop n xs ++ ys
drop-append zero xs ys h = refl
drop-append (suc n) [] ys h = ground arith
drop-append (suc n) (x ∷ xs) ys h = drop-append n xs ys (omega arith)

pop_front-drop : (n : ℕ) (xs : List Entry) → pop_front (drop n xs) ≡ drop (suc n) xs
pop_front-drop zero [] = refl
pop_front-drop zero (x ∷ xs) = refl
pop_front-drop (suc n) [] = refl
pop_front-drop (suc n) (x ∷ xs) = pop_front-drop n xs

abbrev no_entries : List Entry
no_entries = []

drop_nil : (n : ℕ) → drop n no_entries ≡ no_entries
drop_nil zero = refl
drop_nil (suc n) = refl

drop-drop : (m n : ℕ) (xs : List Entry) → drop m (drop n xs) ≡ drop (n + m) xs
drop-drop m zero xs = let e : 0 + m ≡ m = omega arith in ap (λ k. drop k xs) (sym e)
drop-drop m (suc n) [] = drop_nil m ∙ sym (drop_nil (suc n + m))
drop-drop m (suc n) (x ∷ xs) =
    let e : suc n + m ≡ suc (n + m) = omega arith in
    drop-drop m n xs ∙ ap (λ k. drop k (x ∷ xs)) (sym e)

pub push_entry-last_n :
    (e : Entry) (log : List Entry) → push_entry e (last_n cap log) ≡ last_n cap (log ++ e ∷ [])
unfolding push_entry
push_entry-last_n e log =
    let len : length (log ++ e ∷ []) ≡ length log + 1 = length-append log (e ∷ []) in
    let kept : length (last_n cap log) ≡ length log - (length log - cap) =
      length-drop (length log - cap) log in
    elim (Bool-cases (length (last_n cap log) == cap)) [
      | inl full ↦
          let l : length (last_n cap log) ≡ cap = (==_iff (length (last_n cap log)) cap).0 full in
          let one : length (log ++ e ∷ []) - cap ≡ suc (length log - cap) = omega arith in
          rw full (
            ap (λ q. q ++ e ∷ []) (pop_front-drop (length log - cap) log)
            ∙ sym (drop-append (suc (length log - cap)) log (e ∷ []) (omega arith))
            ∙ ap (λ k. drop k (log ++ e ∷ [])) (sym one))
      | inr room ↦
          let short : length log < cap = ground arith in
          let none_lost : length log - cap ≡ 0 = omega arith in
          let still : length (log ++ e ∷ []) - cap ≡ 0 = omega arith in
          rw (room, none_lost, still) refl
    ]

on_resource-last_n :
    (now : ℕ) (ev : Resource) (b : Buffer) (log : List Entry)
    → b.queue ≡ last_n cap log
    → (on_resource now ev b).queue
      ≡ last_n cap (
          if is_silent ev
          then log
          else log ++ entry_of ev (now - (if ev.is_main then now else b.epoch)) ∷ [])
unfolding on_resource
on_resource-last_n now ev b log h = elim (Bool-cases (is_silent ev)) [
  | inl s ↦ rw (s, on_resource) h
  | inr s ↦
      let e = entry_of ev (now - (if ev.is_main then now else b.epoch)) in
      rw (s, on_resource) (ap (push_entry e) h ∙ push_entry-last_n e log)
]

on_resource_epoch :
    (now : ℕ) (ev : Resource) (b : Buffer)
    → (on_resource now ev b).epoch ≡ (if ev.is_main then now else b.epoch)
unfolding on_resource
on_resource_epoch now ev b = elim (Bool-cases (is_silent ev)) [
  | inl s ↦ rw (s, on_resource) refl
  | inr s ↦ rw (s, on_resource) refl
]

started_after_lem :
    (now epoch : ℕ) (duration : Option ℕ)
    → (now - epoch) - or_zero duration ≡ started_after now epoch duration
started_after_lem now epoch none = omega arith
started_after_lem now epoch (some d) = omega arith

is_silent-has_outcome :
    (ev : Resource) → is_silent ev ≡ not (has_outcome ev.error ev.status ev.mime)
is_silent-has_outcome ev = go ev.error ev.status ev.mime
  where
    go :
        (e : Option Text) (s : Option ℕ) (m : Option Text)
        → (if is_some e
            then false
            else if is_some s
            then false
            else if is_some m
            then false
            else true)
          ≡ not (has_outcome e s m)
    go none none none = refl
    go none none (some m) = refl
    go none (some s) m = refl
    go (some e) s m = refl

logged_lem :
    (now epoch : ℕ) (ev : Resource) (log : List Entry)
    → (if is_silent ev then log else log ++ entry_of ev (now - epoch) ∷ [])
      ≡ log ++ logged now epoch ev
logged_lem now epoch ev log =
    let silent = is_silent-has_outcome ev in
    let as_spec : Entry = record (entry_of ev (now - epoch)) {
      start_ms = started_after now epoch ev.duration_ms;
    } in
    let same : entry_of ev (now - epoch) ≡ as_spec =
      ap (λ n. record (entry_of ev (now - epoch)) { start_ms = n })
        (started_after_lem now epoch ev.duration_ms) in
    let skipping : Bool → List Entry =
      λ s. if s then log else log ++ entry_of ev (now - epoch) ∷ [] in
    let adding : Bool → List Entry = λ o. log ++ (if o then as_spec ∷ [] else []) in
    elim (Bool-cases (has_outcome ev.error ev.status ev.mime)) [
      | inl e ↦
          ap skipping (silent ∙ ap not e)
          ∙ ap (λ (x : Entry). log ++ x ∷ []) same
          ∙ sym (ap adding e)
      | inr e ↦ ap skipping (silent ∙ ap not e) ∙ sym (append-nil log) ∙ sym (ap adding e)
    ]

-- After any sequence of finished resources and reads, the log of a window holds exactly the last 500
-- of the entries recorded since it was last cleared, in order: one for each resource that ended with
-- an error, a status or a MIME type, with the offset of its start from the end of the last main
-- resource, or 0 if it had started before that.
pub run-last_n :
    (us : List Use) (b : Buffer) (log : List Entry)
    → b.queue ≡ last_n cap log
    → (run us b).queue ≡ last_n cap (record_all us b.epoch log)
unfolding run record_all apply_use
run-last_n [] b log h = h
run-last_n (ends now ev ∷ us) b log h =
    let epoch = if ev.is_main then now else b.epoch in
    let log' = log ++ logged now epoch ev in
    run-last_n us (on_resource now ev b) log'
      (on_resource-last_n now ev b log h ∙ ap (last_n cap) (logged_lem now epoch ev log))
    ∙ ap (λ t. last_n cap (record_all us t log')) (on_resource_epoch now ev b)
run-last_n (reads true limit ∷ us) b log h = run-last_n us (apply_use (reads true limit) b) [] refl
run-last_n (reads false limit ∷ us) b log h = run-last_n us (apply_use (reads false limit) b) log h

-- A read with a limit returns the last `limit` entries recorded since the log was last cleared, or
-- the last 500 if the limit is more; without a limit, the last 500.
pub read-last_n :
    (clear : Bool) (limit : ℕ) (log : List Entry)
    → ((read clear none (last_n cap log)).0 ≡ last_n cap log)
      × ((read clear (some limit) (last_n cap log)).0 ≡ last_n (min limit cap) log)
unfolding read
read-last_n clear limit log =
    let kept : length (last_n cap log) ≡ length log - (length log - cap) =
      length-drop (length log - cap) log in
    let sum : (length log - cap) + (length (last_n cap log) - limit) ≡ length log - min limit cap =
      omega arith in
    (
      refl,
      drop-drop (length (last_n cap log) - limit) (length log - cap) log ∙ ap (λ k. drop k log) sum,
    )
