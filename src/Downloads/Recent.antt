-- ===== src/Downloads/Recent.antt =====
-- What the registry of downloads holds after any sequence of signals.
use hwatu.Common.{
  ◌-◌, ◌<◌, zero, map, false, if◌then◌else◌, drop, length-map, length-drop, ℕ, suc, ◌+◌, ◌≤◌, ◌≡◌,
  refl, sym, ap, ◌∙◌, subst, List, [], ◌∷◌, ◌++◌, none, ◌==◌, leb, leb→le, length, arith,
  Bool-cases, inl, inr, length-append,
}
use hwatu.Downloads.{
  DownloadRecord, active, Registry, registry_cap, remove_first, insert, update_first, update,
  decide, finish, fail, Signal, started, decided, ended, broke, wire_download,
}

-- The ids of the records are `low + 1`, `low + 2`, and so on up to `high`.
abbrev pub AreNumbered : ℕ → ℕ → List DownloadRecord → Type 0
AreNumbered low high [] = low ≡ high
AreNumbered low high (r ∷ rs) = (r.id ≡ low + 1) × AreNumbered (low + 1) high rs

AreNumbered-append :
    (low high : ℕ) (rs : List DownloadRecord) (r : DownloadRecord)
    → AreNumbered low high rs
    → r.id ≡ high + 1
    → AreNumbered low (high + 1) (rs ++ r ∷ [])
AreNumbered-append low high [] r h e =
    let here : r.id ≡ low + 1 = e ∙ ap (λ n. n + 1) (sym h) in (here, ap (λ n. n + 1) h)
AreNumbered-append low high (s ∷ rs) r (first, h) e =
    (first, AreNumbered-append (low + 1) high rs r h e)

-- The records with an id, all of them, changed.
abbrev pub changed : ℕ → (DownloadRecord → DownloadRecord) → DownloadRecord → DownloadRecord
changed id f r = if r.id == id then f r else r

-- All downloads that were ever started, with what their signals have told of them.
unfoldable pub record_all : List DownloadRecord → List Signal → List DownloadRecord
record_all log [] = log
record_all log (started url window at ∷ ss) =
    record_all
      (log
        ++ record {
          id = length log + 1;
          url = url;
          destination = none;
          state = active;
          error = none;
          window = window;
          started_at = at;
        }
          ∷ [])
      ss
record_all log (decided id dest ∷ ss) = record_all (map (changed id (decide dest)) log) ss
record_all log (ended id dest ∷ ss) = record_all (map (changed id (finish dest)) log) ss
record_all log (broke id message ∷ ss) = record_all (map (changed id (fail message)) log) ss

-- The registry holds the last 200 downloads of the log, which are numbered from 1 on.
pub record IsRecent (log : List DownloadRecord) (reg : Registry) : Type 0 where
  pub kept : reg.entries ≡ drop (length log - registry_cap) log
  pub given : reg.next_id ≡ length log
  pub numbered : AreNumbered 0 (length log) log

AreNumbered-changed :
    (f : DownloadRecord → DownloadRecord) (id low high : ℕ) (rs : List DownloadRecord)
    → ((r : DownloadRecord) → (f r).id ≡ r.id)
    → AreNumbered low high rs
    → AreNumbered low high (map (changed id f) rs)
AreNumbered-changed f id low high [] same h = h
AreNumbered-changed f id low high (r ∷ rs) same (first, h) = elim (Bool-cases (r.id == id)) [
  | inl e ↦ rw e (same r ∙ first, AreNumbered-changed f id (low + 1) high rs same h)
  | inr e ↦ rw e (first, AreNumbered-changed f id (low + 1) high rs same h)
]

-- No record after the id is changed.
changed_behind :
    (f : DownloadRecord → DownloadRecord) (id low high : ℕ) (rs : List DownloadRecord)
    → id ≤ low
    → AreNumbered low high rs
    → map (changed id f) rs ≡ rs
changed_behind f id low high [] h n = refl
changed_behind f id low high (r ∷ rs) h (first, n) =
    let other : (r.id == id) ≡ false = ground arith in
    rw other (ap (λ x. r ∷ x) (changed_behind f id (low + 1) high rs (omega arith) n))

-- The first record with an id is the only one.
update_first-changed :
    (f : DownloadRecord → DownloadRecord) (id low high : ℕ) (rs : List DownloadRecord)
    → AreNumbered low high rs
    → update_first id f rs ≡ map (changed id f) rs
unfolding update_first
update_first-changed f id low high [] h = refl
update_first-changed f id low high (r ∷ rs) (first, h) = elim (Bool-cases (r.id == id)) [
  | inl e ↦
      let here : id ≤ low + 1 = ground arith in
      rw (update_first, e) (ap (λ x. f r ∷ x) (sym (changed_behind f id (low + 1) high rs here h)))
  | inr e ↦ rw (update_first, e) (ap (λ x. r ∷ x) (update_first-changed f id (low + 1) high rs h))
]

AreNumbered-drop :
    (n low high : ℕ) (rs : List DownloadRecord)
    → AreNumbered low high rs
    → (low' : ℕ) × AreNumbered low' high (drop n rs)
AreNumbered-drop zero low high rs h = (low, h)
AreNumbered-drop (suc n) low high [] h = (low, h)
AreNumbered-drop (suc n) low high (r ∷ rs) (first, h) = AreNumbered-drop n (low + 1) high rs h

drop-map :
    (g : DownloadRecord → DownloadRecord) (n : ℕ) (rs : List DownloadRecord)
    → drop n (map g rs) ≡ map g (drop n rs)
drop-map g zero rs = refl
drop-map g (suc n) [] = refl
drop-map g (suc n) (r ∷ rs) = drop-map g n rs

update-IsRecent :
    (f : DownloadRecord → DownloadRecord) (id : ℕ) (log : List DownloadRecord) (reg : Registry)
    → ((r : DownloadRecord) → (f r).id ≡ r.id)
    → IsRecent log reg
    → IsRecent (map (changed id f) log) (update id f reg)
update-IsRecent f id log reg same h =
    let n = length log - registry_cap in
    let len : length (map (changed id f) log) ≡ length log = length-map (changed id f) log in
    let (low, last) = AreNumbered-drop n 0 (length log) log h.numbered in
    record {
      kept =
          ap (update_first id f) h.kept
          ∙ update_first-changed f id low (length log) (drop n log) last
          ∙ sym (drop-map (changed id f) n log)
          ∙ ap (λ k. drop (k - registry_cap) (map (changed id f) log)) (sym len);
      given = h.given ∙ sym len;
      numbered =
          subst (λ k. AreNumbered 0 k (map (changed id f) log)) (sym len)
            (AreNumbered-changed f id 0 (length log) log same h.numbered);
    }

drop-append :
    (n : ℕ) (xs ys : List DownloadRecord) → n ≤ length xs → drop n (xs ++ ys) ≡ drop n xs ++ ys
drop-append zero xs ys h = refl
drop-append (suc n) [] ys h = ground arith
drop-append (suc n) (x ∷ xs) ys h = drop-append n xs ys (omega arith)

remove_first-drop : (n : ℕ) (xs : List DownloadRecord) → remove_first (drop n xs) ≡ drop (suc n) xs
remove_first-drop zero [] = refl
remove_first-drop zero (x ∷ xs) = refl
remove_first-drop (suc n) [] = refl
remove_first-drop (suc n) (x ∷ xs) = remove_first-drop n xs

abbrev make_room : List DownloadRecord → List DownloadRecord
make_room rs = if leb registry_cap (length rs) then remove_first rs else rs

make_room-drop :
    (new : DownloadRecord) (log : List DownloadRecord)
    → make_room (drop (length log - registry_cap) log) ++ new ∷ []
      ≡ drop (length (log ++ new ∷ []) - registry_cap) (log ++ new ∷ [])
make_room-drop new log =
    let q = drop (length log - registry_cap) log in
    let len : length (log ++ new ∷ []) ≡ length log + 1 = length-append log (new ∷ []) in
    let held : length q ≡ length log - (length log - registry_cap) =
      length-drop (length log - registry_cap) log in
    elim (Bool-cases (leb registry_cap (length q))) [
      | inl full ↦
          let l : registry_cap ≤ length q = leb→le registry_cap (length q) full in
          let one : length (log ++ new ∷ []) - registry_cap ≡ suc (length log - registry_cap) =
            omega arith in
          rw full (
            ap (λ rs. rs ++ new ∷ []) (remove_first-drop (length log - registry_cap) log)
            ∙ sym (drop-append (suc (length log - registry_cap)) log (new ∷ []) (omega arith))
            ∙ ap (λ k. drop k (log ++ new ∷ [])) (sym one))
      | inr room ↦
          let short : length log < registry_cap = ground arith in
          let none_lost : length log - registry_cap ≡ 0 = omega arith in
          let still : length (log ++ new ∷ []) - registry_cap ≡ 0 = omega arith in
          rw (room, none_lost, still) refl
    ]

insert-IsRecent :
    (r : DownloadRecord) (log : List DownloadRecord) (reg : Registry)
    → IsRecent log reg
    → IsRecent (log ++ (record r { id = length log + 1 }) ∷ []) (insert r reg)
insert-IsRecent r log reg h =
    let new : ℕ → DownloadRecord = λ n. record r { id = n + 1 } in
    let len : length (log ++ new (length log) ∷ []) ≡ length log + 1 =
      length-append log (new (length log) ∷ []) in
    record {
      kept =
          ap (λ rs. make_room rs ++ new reg.next_id ∷ []) h.kept
          ∙ ap (λ n. make_room (drop (length log - registry_cap) log) ++ new n ∷ []) h.given
          ∙ make_room-drop (new (length log)) log;
      given = ap (λ n. n + 1) h.given ∙ sym len;
      numbered =
          subst (λ k. AreNumbered 0 k (log ++ new (length log) ∷ [])) (sym len)
            (AreNumbered-append 0 (length log) log (new (length log)) h.numbered refl);
    }

unfoldable pub run : Registry → List Signal → Registry
run reg [] = reg
run reg (s ∷ ss) = run (wire_download s reg) ss

-- Whatever downloads start and whatever signals of theirs arrive, in any order, the registry holds
-- the last 200 of all downloads that were ever started, with what their signals have told of them,
-- in order and numbered from 1 in the order in which they started: only the oldest are dropped, no id
-- is given twice, and a signal for one that was dropped changes nothing. The registry is empty at
-- first, or such a one already.
pub run-IsRecent :
    (ss : List Signal) (log : List DownloadRecord) (reg : Registry)
    → IsRecent log reg
    → IsRecent (record_all log ss) (run reg ss)
unfolding run record_all wire_download
run-IsRecent [] log reg h = h
run-IsRecent (started url window at ∷ ss) log reg h =
    let r : DownloadRecord = record {
      id = 0;
      url = url;
      destination = none;
      state = active;
      error = none;
      window = window;
      started_at = at;
    } in
    run-IsRecent ss (log ++ (record r { id = length log + 1 }) ∷ []) (insert r reg)
      (insert-IsRecent r log reg h)
run-IsRecent (decided id dest ∷ ss) log reg h =
    run-IsRecent ss (map (changed id (decide dest)) log) (update id (decide dest) reg)
      (update-IsRecent (decide dest) id log reg (λ r. refl) h)
run-IsRecent (ended id dest ∷ ss) log reg h =
    run-IsRecent ss (map (changed id (finish dest)) log) (update id (finish dest) reg)
      (update-IsRecent (finish dest) id log reg (λ r. refl) h)
run-IsRecent (broke id message ∷ ss) log reg h =
    run-IsRecent ss (map (changed id (fail message)) log) (update id (fail message) reg)
      (update-IsRecent (fail message) id log reg (λ r. refl) h)
