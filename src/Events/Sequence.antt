-- ===== src/Events/Sequence.antt =====
-- What a live subscriber is sent: the acknowledgement, then its events, numbered without a gap.
use hwatu.Common.{
  ℕ, suc, ◌+◌, ◌%◌, ◌≡◌, refl, sym, ap, ◌∙◌, List, [], ◌∷◌, ◌++◌, Option, Bool, true, false, not,
  ◌||◌, ◌⊎◌, inl, inr, All, arith, Bool-cases, ok, append_assoc,
}
use hwatu.Common.Text.{Text, codes}
use hwatu.Json.{JsonApi}
use hwatu.Ipc.Frame.{Bytes, encode_frame}
use hwatu.Events.{
  Event, Subscriber, max_queued_bytes, u64_mod, start_write, pump, write_done, enqueue, deliver,
  wants, ack, fresh,
}
use hwatu.Events.Enqueue.{Enqueued, ignored, killed, queued, with_line, enqueue-Enqueued}
use hwatu.Events.Step.{IsKept, Reachable, Reachable-All}

-- The buffers written to the socket, then those that wait.
abbrev pub frames : Subscriber → List Bytes
frames s = s.sent ++ s.queue

start_write-frames :
    (s : Subscriber) (q : List Bytes)
    → s.queue ≡ q
    → (frames (start_write s q) ≡ frames s) × ((start_write s q).seq ≡ s.seq)
start_write-frames s [] h = (refl, refl)
start_write-frames s (buf ∷ rest) h =
    (append_assoc s.sent (buf ∷ []) rest ∙ ap (λ q. s.sent ++ q) (sym h), refl)

pump-frames : (s : Subscriber) → (frames (pump s) ≡ frames s) × ((pump s).seq ≡ s.seq)
unfolding pump
pump-frames s = elim (Bool-cases (s.write_in_flight || s.dead)) [
  | inl e ↦ rw e (refl, refl)
  | inr e ↦ rw e (start_write-frames s s.queue refl)
]

pump_dead : (s : Subscriber) → (pump s).dead ≡ s.dead
unfolding pump
pump_dead s = ground (arith, start_write_dead s s.queue)
  where
    start_write_dead : (t : Subscriber) (q : List Bytes) → (start_write t q).dead ≡ t.dead
    start_write_dead t [] = refl
    start_write_dead t (buf ∷ rest) = refl

module _ (J : JsonApi) (to_vec : Event (J.Value) → Option Bytes) where
  -- `Log n l`: `l` holds the frames of an acknowledgement numbered 0 and of `n` events, the k-th
  -- of them numbered k as a `u64`.
  pub data Log : ℕ → List Bytes → Type 0 where
    acknowledged :
        (e : Event J.Value) {line : Bytes} {l : List Bytes}
        → e.seq ≡ 0
        → e.event ≡ codes "subscribed"
        → encode_frame to_vec e max_queued_bytes ≡ ok line
        → l ≡ line ∷ []
        → Log 0 l
    followed :
        {n : ℕ} {before : List Bytes} (e : Event J.Value) {line : Bytes} {l : List Bytes}
        → Log n before
        → e.seq ≡ suc n % u64_mod
        → encode_frame to_vec e max_queued_bytes ≡ ok line
        → l ≡ before ++ line ∷ []
        → Log (suc n) l

  pub record IsNumbered (s : Subscriber) : Type 0 where
    pub count : ℕ
    pub numbered : s.seq ≡ count % u64_mod
    pub logged : Log count (frames s)

  pub IsInSequence : Subscriber → Type 0
  IsInSequence s = (s.dead ≡ true) ⊎ IsNumbered s

  IsNumbered-cong :
      {s t : Subscriber} → IsNumbered s → frames t ≡ frames s → t.seq ≡ s.seq → IsNumbered t
  IsNumbered-cong {s} {t} h p q = record {
    count = h.count;
    numbered = q ∙ h.numbered;
    logged = rw p h.logged;
  }

  pump-IsInSequence : (s : Subscriber) → IsNumbered s → IsInSequence (pump s)
  unfolding IsInSequence
  pump-IsInSequence s h = inr (IsNumbered-cong h (pump-frames s).0 (pump-frames s).1)

  next_seq : (n : ℕ) → (n % u64_mod + 1) % u64_mod ≡ suc n % u64_mod
  next_seq n = omega arith

  Enqueued-IsInSequence :
      (s : Subscriber) (e : Event J.Value) {t : Subscriber}
      → IsNumbered s
      → e.seq ≡ (s.seq + 1) % u64_mod
      → Enqueued J to_vec (record s { seq = (s.seq + 1) % u64_mod }) e t
      → IsInSequence t
  unfolding IsInSequence
  Enqueued-IsInSequence s e h q (ignored d p) = rw p (inl d)
  Enqueued-IsInSequence s e h q (killed p) = rw p (inl refl)
  Enqueued-IsInSequence s e h q (queued line d enc fits p) = rw p (
      unfold IsInSequence in
      pump-IsInSequence (with_line J to_vec (record s { seq = (s.seq + 1) % u64_mod }) line)
        (record {
          count = suc h.count;
          numbered = ap (λ k. (k + 1) % u64_mod) h.numbered ∙ next_seq h.count;
          logged =
              followed e h.logged (q ∙ (ap (λ k. (k + 1) % u64_mod) h.numbered ∙ next_seq h.count))
                enc (sym (append_assoc s.sent s.queue (line ∷ [])));
        }))

  subscribe-IsInSequence :
      (id : ℕ) (kinds : Option (List Text)) (window : Option ℕ) (ts_ms : ℕ) {t : Subscriber}
      → Enqueued J to_vec (fresh J to_vec id kinds window) (ack J to_vec kinds window ts_ms) t
      → IsInSequence t
  unfolding IsInSequence
  subscribe-IsInSequence id kinds window ts_ms (ignored d p) = rw p (inl d)
  subscribe-IsInSequence id kinds window ts_ms (killed p) = rw p (inl refl)
  subscribe-IsInSequence id kinds window ts_ms (queued line d enc fits p) = rw p (
      unfold IsInSequence in
      pump-IsInSequence (with_line J to_vec (fresh J to_vec id kinds window) line) (record {
        count = 0;
        numbered = refl;
        logged = acknowledged (ack J to_vec kinds window ts_ms) refl refl enc refl;
      }))

  module _ (kind : Text) (window : Option ℕ) (ts_ms : ℕ) (payload : J.Value) (s : Subscriber) where
    deliver_dead : s.dead ≡ true → deliver J to_vec kind window ts_ms payload s ≡ s
    unfolding deliver
    deliver_dead d = ground arith

    -- The event that a live subscriber who wants it is sent.
    abbrev pub numbered_event : Event J.Value
    numbered_event = record {
      event = kind;
      seq = (s.seq + 1) % u64_mod;
      window_id = window;
      ts_ms = ts_ms;
      payload = payload;
    }

    -- What is queued or already written after the delivery, one way or the other.
    pub Delivered : Subscriber → Type 0
    Delivered t =
        (t.dead ≡ true)
        ⊎ ((line : Bytes) × (encode_frame to_vec numbered_event max_queued_bytes ≡ ok line)
            × (frames t ≡ frames s ++ line ∷ []))

    Enqueued-Delivered :
        {t : Subscriber}
        → Enqueued J to_vec (record s { seq = (s.seq + 1) % u64_mod }) numbered_event t
        → Delivered t
    unfolding Delivered
    Enqueued-Delivered (ignored d p) = rw p (inl d)
    Enqueued-Delivered (killed p) = rw p (inl refl)
    Enqueued-Delivered (queued line d enc fits p) = rw p (
        inr (
          line,
          enc,
          (pump-frames (with_line J to_vec (record s { seq = (s.seq + 1) % u64_mod }) line)).0
              ∙ sym (append_assoc s.sent s.queue (line ∷ [])),
        ))

    deliver_wanted :
        s.dead ≡ false
        → wants s kind window ≡ true
        → deliver J to_vec kind window ts_ms payload s
          ≡ enqueue J to_vec (record s { seq = (s.seq + 1) % u64_mod }) numbered_event
    unfolding deliver
    deliver_wanted d w = ground arith

    deliver_unwanted :
        wants s kind window ≡ false → deliver J to_vec kind window ts_ms payload s ≡ s
    unfolding deliver
    deliver_unwanted w = ground arith

  deliver-IsInSequence :
      (kind : Text) (window : Option ℕ) (ts_ms : ℕ) (payload : J.Value) (s : Subscriber)
      → IsInSequence s
      → IsInSequence (deliver J to_vec kind window ts_ms payload s)
  unfolding deliver IsInSequence
  deliver-IsInSequence kind window ts_ms payload s (inl d) =
      rw (deliver_dead kind window ts_ms payload s d) (inl d)
  deliver-IsInSequence kind window ts_ms payload s (inr h) =
      elim (Bool-cases (s.dead || not (wants s kind window))) [
        | inl skip ↦ rw skip (inr h)
        | inr go ↦ rw go (
            unfold IsInSequence in Enqueued-IsInSequence s _ h refl (enqueue-Enqueued J to_vec _ _))
      ]

  write_done-IsInSequence :
      (success : Bool) (s : Subscriber) → IsInSequence s → IsInSequence (write_done success s)
  unfolding write_done IsInSequence
  write_done-IsInSequence false s h = inl refl
  write_done-IsInSequence true s (inl d) =
      inl (pump_dead (record s { write_in_flight = false }) ∙ d)
  write_done-IsInSequence true s (inr h) =
      unfold IsInSequence in
      pump-IsInSequence (record s { write_in_flight = false }) (IsNumbered-cong h refl refl)

  IsInSequence-IsKept : IsKept J to_vec IsInSequence
  IsInSequence-IsKept = record {
    by_deliver = deliver-IsInSequence;
    by_write = λ success s h f. write_done-IsInSequence success s h;
    by_subscribe = λ id kinds window ts_ms.
        subscribe-IsInSequence id kinds window ts_ms (enqueue-Enqueued J to_vec _ _);
  }

-- Whatever happens, each registered subscriber is either dead, or what it was sent and what is
-- queued for it are, in this order, the frame of its acknowledgement with number 0 and the frames
-- of events numbered 1, 2, 3 and so on (modulo 2 ^ 64) with no gap, the last number being its `seq`.
pub Reachable-IsInSequence :
    (J : JsonApi) (to_vec : Event J.Value → Option Bytes) (subs : List Subscriber)
    → Reachable J to_vec subs
    → All (IsInSequence J to_vec) subs
Reachable-IsInSequence J to_vec subs r =
    Reachable-All J to_vec (IsInSequence J to_vec) (IsInSequence-IsKept J to_vec) r

-- No event is lost on a live subscriber: one that it does not want changes nothing, and one that it
-- wants stands, with the next number, behind all that was sent or queued before, or the subscriber
-- is dead.
pub deliver_lossless :
    (J : JsonApi) (to_vec : Event J.Value → Option Bytes) (kind : Text) (window : Option ℕ)
    (ts_ms : ℕ) (payload : J.Value) (s : Subscriber)
    → s.dead ≡ false
    → (wants s kind window ≡ false → deliver J to_vec kind window ts_ms payload s ≡ s)
      × (wants s kind window ≡ true
          → Delivered J to_vec kind window ts_ms payload s
              (deliver J to_vec kind window ts_ms payload s))
deliver_lossless J to_vec kind window ts_ms payload s d = (
  deliver_unwanted J to_vec kind window ts_ms payload s,
  λ w.
      rw (deliver_wanted J to_vec kind window ts_ms payload s d w)
        (Enqueued-Delivered J to_vec kind window ts_ms payload s (enqueue-Enqueued J to_vec _ _)),
)
