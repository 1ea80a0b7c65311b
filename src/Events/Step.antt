-- ===== src/Events/Step.antt =====
-- The broker as a transition system: what the daemon, the clients and the kernel may do next.
use hwatu.Common.{
  ℕ, List, [], Option, Bool, true, All, All-append, All-keep, All-map, ◌≡◌, ◌==◌, ◌&&◌, &&-right,
  Bool-cases, inl, inr,
}
use hwatu.Common.Text.{Text}
use hwatu.Json.{JsonApi}
use hwatu.Ipc.Frame.{Bytes}
use hwatu.Events.{
  Event, Subscriber, emit, subscribe, drop_subscriber, complete_write, deliver, write_done, enqueue,
  fresh, ack,
}

module _ (J : JsonApi) (to_vec : Event (J.Value) → Option Bytes) where
  pub data Step (subs : List Subscriber) : List Subscriber → Type 0 where
    emits :
        (kind : Text) (window : Option ℕ) (ts_ms : ℕ) (payload : J.Value)
        → Step subs (emit J to_vec kind window ts_ms payload subs)
    subscribes :
        (id : ℕ) (kinds : Option (List Text)) (window : Option ℕ) (ts_ms : ℕ)
        → Step subs (subscribe J to_vec id kinds window ts_ms subs)
    writes : (id : ℕ) (success : Bool) → Step subs (complete_write id success subs)
    disconnects : (id : ℕ) → Step subs (drop_subscriber id subs)

  -- The registries that a daemon can come to, from none.
  pub data Reachable : List Subscriber → Type 0 where
    start : Reachable []
    step : {subs subs' : List Subscriber} → Reachable subs → Step subs subs' → Reachable subs'

  -- A property of subscribers that each thing that can happen to one keeps.
  pub record IsKept (P : Subscriber → Type 0) : Type 0 where
    pub by_deliver :
        (kind : Text) (window : Option ℕ) (ts_ms : ℕ) (payload : J.Value) (s : Subscriber)
        → P s
        → P (deliver J to_vec kind window ts_ms payload s)
    pub by_write :
        (success : Bool) (s : Subscriber)
        → P s
        → s.write_in_flight ≡ true
        → P (write_done success s)
    pub by_subscribe :
        (id : ℕ) (kinds : Option (List Text)) (window : Option ℕ) (ts_ms : ℕ)
        → P (enqueue J to_vec (fresh J to_vec id kinds window) (ack J to_vec kinds window ts_ms))

  module _ (P : Subscriber → Type 0) (k : IsKept P) where
    emit-All :
        (kind : Text) (window : Option ℕ) (ts_ms : ℕ) (payload : J.Value) (subs : List Subscriber)
        → All P subs
        → All P (emit J to_vec kind window ts_ms payload subs)
    unfolding emit
    emit-All kind window ts_ms payload subs h = All-keep P _ _ (
        All-map P P (deliver J to_vec kind window ts_ms payload)
          (k.by_deliver kind window ts_ms payload) subs h)

    complete_write-All :
        (id : ℕ) (success : Bool) (subs : List Subscriber)
        → All P subs
        → All P (complete_write id success subs)
    unfolding complete_write
    complete_write-All id success subs h =
        All-map P P _
          (λ s p. elim (Bool-cases (s.id == id && s.write_in_flight)) [
            | inl e ↦ rw e (k.by_write success s p (&&-right (s.id == id) s.write_in_flight e))
            | inr e ↦ rw e p
          ])
          subs h

    Step-All : {subs subs' : List Subscriber} → All P subs → Step subs subs' → All P subs'
    unfolding subscribe drop_subscriber
    Step-All {subs = subs} h (emits kind window ts_ms payload) =
        emit-All kind window ts_ms payload subs h
    Step-All {subs = subs} h (subscribes id kinds window ts_ms) =
        All-append P subs _ h (k.by_subscribe id kinds window ts_ms, tt)
    Step-All {subs = subs} h (writes id success) = complete_write-All id success subs h
    Step-All {subs = subs} h (disconnects id) = All-keep P _ subs h

    pub Reachable-All : {subs : List Subscriber} → Reachable subs → All P subs
    Reachable-All start = tt
    Reachable-All (step r st) = Step-All (Reachable-All r) st
