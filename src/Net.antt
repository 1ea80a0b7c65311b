-- ===== src/Net.antt =====
-- crates/hwatud/src/net.rs: the request log of a window. Instants are milliseconds; the clock's
-- reading is an argument. `attach`'s callback is `on_resource`.
pub mod Log
mod Tests
use hwatu.Common.{
  ℕ, ◌+◌, ◌-◌, List, [], ◌∷◌, ◌++◌, Bool, true, false, ◌&&◌, ◌||◌, Option, none, some, ◌==◌,
  if◌then◌else◌, length, drop,
}
use hwatu.Common.Text.{Text, codes, lowercase, contains, starts_with, is_some}

abbrev pub cap : ℕ
cap = 500

pub record Entry : Type 0 where
  pub method : Text
  pub url : Text
  pub status : Option ℕ
  pub resource_type : Text
  pub start_ms : ℕ
  pub duration_ms : Option ℕ
  pub error : Option Text
  pub page : Option Text

pub record Buffer : Type 0 where
  pub queue : List Entry
  pub epoch : ℕ

abbrev pub pop_front : List Entry → List Entry
pop_front [] = []
pop_front (e ∷ es) = es

-- `Buffer::push`, on the queue.
unfoldable pub push_entry : Entry → List Entry → List Entry
push_entry entry q = (if length q == cap then pop_front q else q) ++ entry ∷ []

-- `limit.map_or(0, |n| q.len().saturating_sub(n))`.
abbrev pub skip_for : Option ℕ → ℕ → ℕ
skip_for none len = 0
skip_for (some n) len = len - n

-- `Buffer::read`: what it returns and the queue afterwards.
unfoldable pub read : Bool → Option ℕ → List Entry → List Entry × List Entry
read clear limit q = (drop (skip_for limit (length q)) q, if clear then [] else q)

unfoldable pub classify : Text → Bool → Text
classify mime is_main =
    let m = lowercase mime in
    if is_main
    then codes "document"
    else if contains (codes "javascript") m || contains (codes "ecmascript") m
    then codes "script"
    else if starts_with (codes "text/css") m
    then codes "stylesheet"
    else if starts_with (codes "image/") m
    then codes "image"
    else if starts_with (codes "font/") m || contains (codes "font") m
    then codes "font"
    else if starts_with (codes "audio/") m || starts_with (codes "video/") m
    then codes "media"
    else if contains (codes "json") m || contains (codes "xml") m
    then codes "data"
    else if starts_with (codes "text/html") m
    then codes "document"
    else codes "other"

-- What the engine tells of a resource that finished or failed.
pub record Resource : Type 0 where
  pub is_main : Bool
  pub method : Text
  pub url : Text
  pub status : Option ℕ
  pub mime : Option Text
  pub duration_ms : Option ℕ
  pub error : Option Text
  pub page : Option Text

abbrev pub or_zero : Option ℕ → ℕ
or_zero none = 0
or_zero (some n) = n

abbrev pub or_empty : Option Text → Text
or_empty none = []
or_empty (some s) = s

abbrev pub type_of : Resource → Text
type_of ev = elim ev.error [
  | some _ ↦ codes "other"
  | none ↦ classify (or_empty ev.mime) ev.is_main
]

-- A load with no error, no status and no MIME type was cancelled.
abbrev pub is_silent : Resource → Bool
is_silent ev =
    if is_some ev.error
    then false
    else if is_some ev.status
    then false
    else if is_some ev.mime
    then false
    else true

abbrev pub entry_of : Resource → ℕ → Entry
entry_of ev offset = record {
  method = ev.method;
  url = ev.url;
  status = ev.status;
  resource_type = type_of ev;
  start_ms = offset - or_zero ev.duration_ms;
  duration_ms = ev.duration_ms;
  error = ev.error;
  page = ev.page;
}

-- The callback of `attach` at the instant `now`: a main resource restarts the timeline.
unfoldable pub on_resource : ℕ → Resource → Buffer → Buffer
unfolding push_entry
on_resource now ev b =
    let epoch = if ev.is_main then now else b.epoch in
    if is_silent ev
    then record { queue = b.queue; epoch = epoch }
    else record { queue = push_entry (entry_of ev (now - epoch)) b.queue; epoch = epoch }
