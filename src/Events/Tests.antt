-- ===== src/Events/Tests.antt =====
-- A concrete broker: two events, one subscriber, a write that completes in between.
use hwatu.Common.{◌≡◌, refl, List, [], ◌∷◌, Option, some, none, true, false, All}
use hwatu.Common.Text.{codes}
use hwatu.Json.Sample.{Tree, null, sample_json}
use hwatu.Ipc.Frame.{Bytes, encode_frame}
use hwatu.Events.{Event, Subscriber, emit, subscribe, complete_write, wants, deliver, fresh}
use hwatu.Events.Step.{emits, subscribes, writes, Reachable, start, step}
use hwatu.Events.Queue.{IsAccounted, Reachable-IsAccounted}
use hwatu.Events.Sequence.{IsInSequence, Reachable-IsInSequence, Delivered, deliver_lossless}

-- A serializer that shows the number of an event.
abbrev show_seq : Event Tree → Option Bytes
show_seq e = some (e.seq ∷ [])

abbrev one : List Subscriber
one = subscribe sample_json show_seq 7 none none 0 []

abbrev two_events : List Subscriber
two_events =
    emit sample_json show_seq (codes "load") none 2 null
      (complete_write 7 true (emit sample_json show_seq (codes "load") none 1 null one))

reached : Reachable sample_json show_seq two_events
reached =
    step
      (step (step (step start (subscribes 7 none none 0)) (emits (codes "load") none 1 null))
        (writes 7 true))
      (emits (codes "load") none 2 null)

two_events_test :
    two_events
    ≡ record {
      id = 7;
      kinds = none;
      window = none;
      seq = 2;
      sent = (0 ∷ 10 ∷ []) ∷ (1 ∷ 10 ∷ []) ∷ [];
      closed = false;
      queue = (2 ∷ 10 ∷ []) ∷ [];
      queued_bytes = 2;
      write_in_flight = true;
      dead = false;
    }
      ∷ []
unfolding emit subscribe complete_write encode_frame
two_events_test = refl

Reachable-IsAccounted_example : All IsAccounted two_events
Reachable-IsAccounted_example = Reachable-IsAccounted sample_json show_seq two_events reached

Reachable-IsInSequence_example : All (IsInSequence sample_json show_seq) two_events
Reachable-IsInSequence_example = Reachable-IsInSequence sample_json show_seq two_events reached

deliver_lossless_example :
    let s = fresh sample_json show_seq 7 none none in
    (wants s (codes "load") none ≡ false
      → deliver sample_json show_seq (codes "load") none 1 null s ≡ s)
    × (wants s (codes "load") none ≡ true
        → Delivered sample_json show_seq
            (codes "load")
            none
            1
            null
            s
            (deliver sample_json show_seq (codes "load") none 1 null s))
deliver_lossless_example =
    deliver_lossless sample_json show_seq (codes "load") none 1 null
      (fresh sample_json show_seq 7 none none) refl
