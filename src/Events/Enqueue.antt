-- ===== src/Events/Enqueue.antt =====
-- What `enqueue` and `deliver` can do to a subscriber, one case for each way through them.
use hwatu.Common.{
  ◌+◌, ◌≤◌, ◌≡◌, refl, [], ◌∷◌, ◌++◌, Option, true, false, length, arith, ltb, Bool-cases, inl, inr,
  ◌⊎◌, Result, ok, err,
}
use hwatu.Json.{JsonApi}
use hwatu.Ipc.Frame.{Bytes, EncodeError, encode_frame}
use hwatu.Events.{Event, Subscriber, max_queued_bytes, pump, kill, enqueue}

pub Result-cases {ℓ κ} :
    {E : Type ℓ} {A : Type κ} (r : Result E A) → ((a : A) × (r ≡ ok a)) ⊎ ((e : E) × (r ≡ err e))
Result-cases (ok a) = inl (a, refl)
Result-cases (err e) = inr (e, refl)

module _ (J : JsonApi) (to_vec : Event (J.Value) → Option Bytes) where
  abbrev pub with_line : Subscriber → Bytes → Subscriber
  with_line s line = record s {
    queued_bytes = s.queued_bytes + length line;
    queue = s.queue ++ line ∷ [];
  }

  pub data Enqueued (s : Subscriber) (e : Event J.Value) (t : Subscriber) : Type 0 where
    ignored : s.dead ≡ true → t ≡ s → Enqueued s e t
    killed : t ≡ kill s → Enqueued s e t
    queued :
        (line : Bytes)
        → s.dead ≡ false
        → encode_frame to_vec e max_queued_bytes ≡ ok line
        → s.queued_bytes + length line ≤ max_queued_bytes
        → t ≡ pump (with_line s line)
        → Enqueued s e t

  enqueue_dead : (s : Subscriber) (e : Event J.Value) → s.dead ≡ true → enqueue J to_vec s e ≡ s
  unfolding enqueue
  enqueue_dead s e d = rw d

  enqueue_err :
      (s : Subscriber) (e : Event J.Value) (x : EncodeError)
      → s.dead ≡ false
      → encode_frame to_vec e max_queued_bytes ≡ err x
      → enqueue J to_vec s e ≡ kill s
  unfolding enqueue
  enqueue_err s e x d h = rw (h, enqueue) (ground arith)

  enqueue_full :
      (s : Subscriber) (e : Event J.Value) (line : Bytes)
      → s.dead ≡ false
      → encode_frame to_vec e max_queued_bytes ≡ ok line
      → ltb max_queued_bytes (s.queued_bytes + length line) ≡ true
      → enqueue J to_vec s e ≡ kill s
  unfolding enqueue
  enqueue_full s e line d h f = rw (h, enqueue) (ground arith)

  enqueue_queued :
      (s : Subscriber) (e : Event J.Value) (line : Bytes)
      → s.dead ≡ false
      → encode_frame to_vec e max_queued_bytes ≡ ok line
      → ltb max_queued_bytes (s.queued_bytes + length line) ≡ false
      → enqueue J to_vec s e ≡ pump (with_line s line)
  unfolding enqueue
  enqueue_queued s e line d h f = rw (h, enqueue) (ground arith)

  pub enqueue-Enqueued : (s : Subscriber) (e : Event J.Value) → Enqueued s e (enqueue J to_vec s e)
  enqueue-Enqueued s e = elim (Bool-cases s.dead) [
    | inl d ↦ ignored d (enqueue_dead s e d)
    | inr d ↦ elim (Result-cases (encode_frame to_vec e max_queued_bytes)) [
      | inr (x, h) ↦ killed (enqueue_err s e x d h)
      | inl (line, h) ↦ elim (Bool-cases (ltb max_queued_bytes (s.queued_bytes + length line))) [
        | inl f ↦ killed (enqueue_full s e line d h f)
        | inr f ↦ queued line d h (ground arith) (enqueue_queued s e line d h f)
      ]
    ]
  ]
