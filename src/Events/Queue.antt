-- ===== src/Events/Queue.antt =====
-- The byte accounting and the bound of a subscriber's queue.
use hwatu.Common.{
  ℕ, ◌+◌, ◌≤◌, ◌≡◌, refl, List, [], ◌∷◌, ◌++◌, Option, Bool, true, false, All, length, arith,
  Bool-cases, inl, inr, not, ◌||◌,
}
use hwatu.Common.Text.{Text}
use hwatu.Json.{JsonApi}
use hwatu.Ipc.Frame.{Bytes}
use hwatu.Events.{
  Event, Subscriber, max_queued_bytes, start_write, pump, write_done, kill, enqueue, deliver, wants,
  ack, fresh,
}
use hwatu.Events.Enqueue.{Enqueued, ignored, killed, queued, with_line, enqueue-Enqueued}
use hwatu.Events.Step.{IsKept, Reachable, Reachable-All}

abbrev pub total : List Bytes → ℕ
total [] = 0
total (b ∷ bs) = length b + total bs

total-append : (xs : List Bytes) (b : Bytes) → total (xs ++ b ∷ []) ≡ total xs + length b
total-append [] b = omega arith
total-append (x ∷ xs) b = omega (arith, total-append xs b)

-- The count of queued bytes is exact and within the cap, and a live subscriber with no write in
-- flight has nothing left to write.
pub record IsAccounted (s : Subscriber) : Type 0 where
  pub exact : s.queued_bytes ≡ total s.queue
  pub capped : s.queued_bytes ≤ max_queued_bytes
  pub busy : s.write_in_flight ≡ false → s.dead ≡ false → s.queue ≡ []

start_write-IsAccounted :
    (s : Subscriber) (q : List Bytes)
    → s.queue ≡ q
    → s.queued_bytes ≡ total q
    → s.queued_bytes ≤ max_queued_bytes
    → IsAccounted (start_write s q)
start_write-IsAccounted s [] e h c = record { exact = rw e h; capped = c; busy = λ _ _. e }
start_write-IsAccounted s (buf ∷ rest) e h c = record {
  exact = omega arith;
  capped = omega arith;
  busy = λ f. cc;
}

pump-IsAccounted :
    (s : Subscriber)
    → s.queued_bytes ≡ total s.queue
    → s.queued_bytes ≤ max_queued_bytes
    → IsAccounted (pump s)
unfolding pump
pump-IsAccounted s h c = ground (arith, start_write-IsAccounted s s.queue refl h c)

write_done-IsAccounted :
    (success : Bool) (s : Subscriber) → IsAccounted s → IsAccounted (write_done success s)
unfolding write_done
write_done-IsAccounted true s h =
    pump-IsAccounted (record s { write_in_flight = false }) h.exact h.capped
write_done-IsAccounted false s h = ground arith

kill-IsAccounted : (s : Subscriber) → IsAccounted s → IsAccounted (kill s)
kill-IsAccounted s h = record { exact = h.exact; capped = h.capped; busy = λ f. cc }

module _ (J : JsonApi) (to_vec : Event (J.Value) → Option Bytes) where
  Enqueued-IsAccounted :
      (s : Subscriber) (e : Event J.Value) {t : Subscriber}
      → IsAccounted s
      → Enqueued J to_vec s e t
      → IsAccounted t
  Enqueued-IsAccounted s e h (ignored d p) = rw p h
  Enqueued-IsAccounted s e h (killed p) = rw p (kill-IsAccounted s h)
  Enqueued-IsAccounted s e h (queued line d enc fits p) = rw p (
      pump-IsAccounted (with_line J to_vec s line)
        (omega (arith, h.exact, total-append s.queue line)) fits)

  enqueue-IsAccounted :
      (s : Subscriber) (e : Event J.Value) → IsAccounted s → IsAccounted (enqueue J to_vec s e)
  enqueue-IsAccounted s e h = Enqueued-IsAccounted s e h (enqueue-Enqueued J to_vec s e)

  deliver-IsAccounted :
      (kind : Text) (window : Option ℕ) (ts_ms : ℕ) (payload : J.Value) (s : Subscriber)
      → IsAccounted s
      → IsAccounted (deliver J to_vec kind window ts_ms payload s)
  unfolding deliver
  deliver-IsAccounted kind window ts_ms payload s h =
      elim (Bool-cases (s.dead || not (wants s kind window))) [
        | inl skip ↦ rw skip h
        | inr go ↦
            rw go (
              enqueue-IsAccounted _ _
                (record { exact = h.exact; capped = h.capped; busy = h.busy }))
      ]

  IsAccounted-IsKept : IsKept J to_vec IsAccounted
  IsAccounted-IsKept = record {
    by_deliver = deliver-IsAccounted;
    by_write = λ success s h f. write_done-IsAccounted success s h;
    by_subscribe = λ id kinds window ts_ms.
        enqueue-IsAccounted (fresh J to_vec id kinds window) (ack J to_vec kinds window ts_ms)
          (record { exact = refl; capped = omega arith; busy = λ _ _. refl });
  }

-- Whatever happens (events, subscriptions, writes that succeed or fail, disconnects, in any order),
-- each registered subscriber's count of queued bytes is the size of its queue, that size is at most
-- one MiB, and a subscriber that is not dead and has no write in flight has an empty queue: what
-- was accepted is being written.
pub Reachable-IsAccounted :
    (J : JsonApi) (to_vec : Event J.Value → Option Bytes) (subs : List Subscriber)
    → Reachable J to_vec subs
    → All IsAccounted subs
Reachable-IsAccounted J to_vec subs r =
    Reachable-All J to_vec IsAccounted (IsAccounted-IsKept J to_vec) r
