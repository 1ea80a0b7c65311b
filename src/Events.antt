-- ===== src/Events.antt =====
-- crates/hwatud/src/events.rs: push events to subscribers. A subscriber's socket is the list of the
-- buffers that were handed to `write_all_async`, and whether it was closed; the completions of
-- writes and reads are steps of their own. `Rc` identity is the field `id`.
pub mod Enqueue
pub mod Step
mod Tests
pub mod Queue
pub mod Sequence
use hwatu.Common.{
  ℕ, ◌+◌, ◌-◌, ◌*◌, ◌%◌, ◌^◌, List, [], ◌∷◌, ◌++◌, map, Bool, true, false, not, ◌&&◌, ◌||◌, Option,
  none, some, Result, ok, err, ltb, ◌==◌, if◌then◌else◌, length, is_empty, any, keep,
}
use hwatu.Common.Text.{Text, codes, text_eq}
use hwatu.Json.{JsonApi}
use hwatu.Ipc.Frame.{Bytes, encode_frame}

abbrev pub max_queued_bytes : ℕ
max_queued_bytes = 1024 * 1024

abbrev pub u64_mod : ℕ
u64_mod = 2 ^ 64

-- `hwatu_ipc::Event`.
pub record Event (Value : Type 0) : Type 0 where
  pub event : Text
  pub seq : ℕ
  pub window_id : Option ℕ
  pub ts_ms : ℕ
  pub payload : Value

pub record Subscriber : Type 0 where
  pub id : ℕ
  pub kinds : Option (List Text)
  pub window : Option ℕ
  pub seq : ℕ
  pub sent : List Bytes
  pub closed : Bool
  pub queue : List Bytes
  pub queued_bytes : ℕ
  pub write_in_flight : Bool
  pub dead : Bool

abbrev pub opt_eq : Option ℕ → ℕ → Bool
opt_eq none n = false
opt_eq (some m) n = m == n

abbrev pub window_ok : Option ℕ → Option ℕ → Bool
window_ok none w = true
window_ok (some w) v = opt_eq v w

abbrev pub kind_ok : Option (List Text) → Text → Bool
kind_ok none kind = true
kind_ok (some ks) kind = any (λ k. text_eq k kind) ks

unfoldable pub wants : Subscriber → Text → Option ℕ → Bool
wants s kind window_id = window_ok s.window window_id && kind_ok s.kinds kind

-- Hands the buffer at the front of the queue to the socket.
abbrev pub start_write : Subscriber → List Bytes → Subscriber
start_write s [] = s
start_write s (buf ∷ rest) = record s {
  queue = rest;
  queued_bytes = s.queued_bytes - length buf;
  write_in_flight = true;
  sent = s.sent ++ buf ∷ [];
}

unfoldable pub pump : Subscriber → Subscriber
pump s = if s.write_in_flight || s.dead then s else start_write s s.queue

-- The callback of `write_all_async`, on success and on an error.
unfoldable pub write_done : Bool → Subscriber → Subscriber
unfolding pump
write_done true s = pump (record s { write_in_flight = false })
write_done false s = record s { write_in_flight = false; dead = true }

-- `dead.set(true)` and `socket.close`.
abbrev pub kill : Subscriber → Subscriber
kill s = record s { dead = true; closed = true }

module _ (J : JsonApi) (to_vec : Event (J.Value) → Option Bytes) where
  open J use {Value, null, string, array, object}

  pub enqueue : Subscriber → Event Value → Subscriber
  unfolding pump
  enqueue s e = if s.dead then s else elim (encode_frame to_vec e max_queued_bytes) [
    | err _ ↦ kill s
    | ok line ↦
        let queued = s.queued_bytes + length line in
        if ltb max_queued_bytes queued
        then kill s
        else pump (record s { queued_bytes = queued; queue = s.queue ++ line ∷ [] })
  ]

  -- The body of the loop of `Broker::emit`.
  pub deliver : Text → Option ℕ → ℕ → Value → Subscriber → Subscriber
  unfolding wants enqueue
  deliver kind window_id ts_ms payload s =
      let seq = (s.seq + 1) % u64_mod in
      let e : Event Value = record {
        event = kind;
        seq = seq;
        window_id = window_id;
        ts_ms = ts_ms;
        payload = payload;
      } in
      if s.dead || not (wants s kind window_id) then s else enqueue (record s { seq = seq }) e

  -- `Broker::emit` over the registry of subscribers; `ts_ms` is the clock's reading.
  pub emit : Text → Option ℕ → ℕ → Value → List Subscriber → List Subscriber
  unfolding deliver
  emit kind window_id ts_ms payload subs =
      keep (λ (s : Subscriber). not s.dead) (map (deliver kind window_id ts_ms payload) subs)

  abbrev pub kinds_value : Option (List Text) → Value
  kinds_value none = null
  kinds_value (some ks) = array (map string ks)

  abbrev pub ack : Option (List Text) → Option ℕ → ℕ → Event Value
  ack kinds window ts_ms = record {
    event = codes "subscribed";
    seq = 0;
    window_id = window;
    ts_ms = ts_ms;
    payload = object ((codes "kinds", kinds_value kinds) ∷ []);
  }

  abbrev pub fresh : ℕ → Option (List Text) → Option ℕ → Subscriber
  fresh id kinds window = record {
    id = id;
    kinds = kinds;
    window = window;
    seq = 0;
    sent = [];
    closed = false;
    queue = [];
    queued_bytes = 0;
    write_in_flight = false;
    dead = false;
  }

  -- The new subscriber stands last in the registry, with its acknowledgement queued.
  pub subscribe : ℕ → Option (List Text) → Option ℕ → ℕ → List Subscriber → List Subscriber
  unfolding enqueue
  subscribe id kinds window ts_ms subs =
      subs ++ enqueue (fresh id kinds window) (ack kinds window ts_ms) ∷ []

-- `drop_subscriber`: what the registry holds afterwards.
pub drop_subscriber : ℕ → List Subscriber → List Subscriber
drop_subscriber id subs = keep (λ (s : Subscriber). not (s.id == id)) subs

-- The completion of a write of the subscriber `id`.
pub complete_write : ℕ → Bool → List Subscriber → List Subscriber
unfolding write_done
complete_write id success subs =
    map (λ (s : Subscriber). if s.id == id && s.write_in_flight then write_done success s else s)
      subs
