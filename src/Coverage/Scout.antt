-- ===== src/Coverage/Scout.antt =====
-- `scout`, `scout_step`, `scout_harvest`, `scout_finish` and `remaining_ms` of
-- crates/hwatud/src/coverage.rs. The window that crawls is a parameter: its operations change a
-- world, and the clock is read from it, in nanoseconds. The callbacks are the order of the calls.
pub mod Steps
pub mod Bounds
use hwatu.Common.{
  ℕ, zero, suc, ◌+◌, ◌-◌, ◌*◌, ◌/◌, min, max, List, [], ◌∷◌, ◌++◌, Bool, true, false, not, ◌&&◌,
  ◌||◌, Option, none, some, Result, ok, err, ltb, leb, if◌then◌else◌, length, any,
}
use hwatu.Common.Text.{Text, codes, text_eq, contains}
use hwatu.Json.{JsonApi}
use hwatu.Dispatch.Batch.{Response, success, failure}
use hwatu.Coverage.Hosts.{host_of}

abbrev pub scout_max_depth : ℕ
scout_max_depth = 2

abbrev pub scout_max_pages : ℕ
scout_max_pages = 10

abbrev pub clamp : ℕ → ℕ → ℕ → ℕ
clamp low high n = min high (max low n)

-- The headless window of a crawl, and what of the daemon the crawl uses.
pub record Crawler (J : JsonApi) (World : Type 0) : Type 0 where
  pub clock : World → World × ℕ
  -- `open_with_profile`, and `close` of a window that is still there.
  pub open_headless : World → Text → Option Text → World
  pub close_window : World → World
  -- `automation::after_load`, `automation::navigate` with whether it replied with no error, and
  -- `eval_with` of the script that takes the text up to a budget; the last number is the timeout.
  pub after_load : World → ℕ → World
  pub navigate : World → Text → ℕ → World × Bool
  pub eval_harvest : World → ℕ → ℕ → World × Response (Option J.Value)
  -- `str::to_lowercase`, over Unicode's tables.
  pub to_lowercase : Text → Text

-- An element of `pages`: what was harvested at a level, or an error.
pub data Page (Value : Type 0) : Type 0 where
  harvested : Value → ℕ → Page Value
  failed : Text → Text → Page Value

-- `ScoutState`. The set of visited addresses is a list, the latest first.
pub record ScoutState (Value : Type 0) : Type 0 where
  pub host : Text
  pub filter : Option Text
  pub budget : ℕ
  pub max_pages : ℕ
  pub depth : ℕ
  pub deadline : ℕ
  pub queue : List (Text × ℕ)
  pub visited : List Text
  pub pages : List (Page Value)
  pub navigated_first : Bool

pub record ScoutReply (Value : Type 0) : Type 0 where
  pub pages : List (Page Value)
  pub visited : ℕ

abbrev pub is_visited : List Text → Text → Bool
is_visited visited url = any (λ v. text_eq v url) visited

-- `remaining_ms`.
abbrev pub remaining_ms : ℕ → ℕ → ℕ → ℕ
remaining_ms deadline now cap = max 1 (min cap ((deadline - now) / 1000000))

module _ {J : JsonApi} {World : Type 0} (c : Crawler J World) where
  abbrev pub on_host : Text → Text → Bool
  on_host host url = elim (host_of url) [ none ↦ false | some h ↦ text_eq h host ]

  abbrev pub text_or_empty : Option Text → Text
  text_or_empty none = []
  text_or_empty (some t) = t

  abbrev pub text_at : J.Value → Text → Option Text
  text_at v key = elim (J.get v key) [ none ↦ none | some t ↦ J.as_str t ]

  abbrev pub passes_filter : Option Text → Text → Text → Bool
  passes_filter none href text = true
  passes_filter (some f) href text =
      contains (c.to_lowercase f) (c.to_lowercase href)
      || contains (c.to_lowercase f) (c.to_lowercase text)

  -- The tests of one link, with its text.
  abbrev pub is_wanted : ScoutState J.Value → Text → Text → Bool
  is_wanted s href text =
      on_host s.host href && passes_filter s.filter href text && not (is_visited s.visited href)

  -- The loop over the links of a page at a level: what it pushes to the queue.
  unfoldable pub wanted_links : ScoutState J.Value → ℕ → List J.Value → List (Text × ℕ)
  unfolding host_of
  wanted_links s level [] = []
  wanted_links s level (link ∷ links) =
      let rest = wanted_links s level links in
      elim (text_at link (codes "url")) [
        | none ↦ rest
        | some href ↦
            if is_wanted s href (text_or_empty (text_at link (codes "text")))
            then (href, level + 1) ∷ rest
            else rest
      ]

  abbrev pub links_of : J.Value → List J.Value
  links_of value = elim (J.get value (codes "links")) [
    | none ↦ []
    | some links ↦ elim (J.as_array links) [ none ↦ [] | some ls ↦ ls ]
  ]

  abbrev pub push_page : Page J.Value → ScoutState J.Value → ScoutState J.Value
  push_page p s = record s { pages = s.pages ++ p ∷ [] }

  -- The callback of `scout_harvest`.
  unfoldable pub harvest :
      Text → ℕ → Response (Option J.Value) → ScoutState J.Value → ScoutState J.Value
  unfolding wanted_links
  harvest url level (failure message) s = push_page (failed url message) s
  harvest url level (success none) s = push_page (failed url (codes "empty harvest")) s
  harvest url level (success (some value)) s =
      let found = if ltb level s.depth then wanted_links s level (links_of value) else [] in
      push_page (harvested value level) (record s { queue = s.queue ++ found })

  unfoldable pub scout_harvest : World → Text → ℕ → ScoutState J.Value → World × ScoutState J.Value
  unfolding harvest
  scout_harvest w url level s =
      let (w', now) = c.clock w in
      let (w'', response) = c.eval_harvest w' s.budget (remaining_ms s.deadline now 10000) in
      (w'', harvest url level response s)

  -- Whether the address of this step was loaded: the window has been at the first one since it was
  -- opened.
  abbrev pub load_page : World → Text → ScoutState J.Value → World × Bool
  load_page w url s =
      let (w', now) = c.clock w in
      let wait = remaining_ms s.deadline now 15000 in
      if s.navigated_first then (c.after_load w' wait, true) else c.navigate w' url wait

  abbrev pub entered : Text → ScoutState J.Value → ScoutState J.Value
  entered url s = record s { visited = url ∷ s.visited; navigated_first = false }

  -- A step of the crawl behind the test of `visited`.
  unfoldable pub scout_visit : World → Text → ℕ → ScoutState J.Value → World × ScoutState J.Value
  unfolding scout_harvest
  scout_visit w url level s =
      let (w', loaded) = load_page w url s in
      if loaded
      then scout_harvest w' url level (entered url s)
      else (w', push_page (failed url (codes "load failed or timed out")) (entered url s))

  -- The steps that find the next address: those that were visited are popped and passed over.
  unfoldable pub scout_next :
      World → ℕ → List Text → List (Text × ℕ) → World × Option ((Text × ℕ) × List (Text × ℕ))
  scout_next w deadline visited [] = ((c.clock w).0, none)
  scout_next w deadline visited (entry ∷ queue) =
      let (w', now) = c.clock w in
      let rest = scout_next w' deadline visited queue in
      if leb deadline now
      then (w', none)
      else if is_visited visited entry.0
      then rest
      else (w', some (entry, queue))

  -- What the next step loads, if the crawl has not reached its pages or its deadline.
  unfoldable pub next_of :
      World → ScoutState J.Value → World × Option ((Text × ℕ) × List (Text × ℕ))
  unfolding scout_next
  next_of w s =
      if leb s.max_pages (length s.pages)
      then (w, none)
      else scout_next w s.deadline s.visited s.queue

  -- `scout_step` up to the end of the crawl. The fuel is the number of pages allowed, since each step
  -- adds one.
  unfoldable pub scout_loop : ℕ → World → ScoutState J.Value → World × ScoutState J.Value
  unfolding next_of scout_visit
  scout_loop zero w s = (w, s)
  scout_loop (suc fuel) w s =
      let (w', next) = next_of w s in
      elim next [
        | none ↦ (w', s)
        | some eq ↦
            let (w'', s') = scout_visit w' eq.0.0 eq.0.1 (record s { queue = eq.1 }) in
            scout_loop fuel w'' s'
      ]

  abbrev pub or_default : Option ℕ → ℕ → ℕ
  or_default none d = d
  or_default (some n) d = n

  -- The state that a crawl starts in.
  abbrev pub scout_state :
      Text → Text → Option ℕ → Option ℕ → Option Text → Option ℕ → ℕ → ScoutState J.Value
  scout_state host url depth max_pages filter budget deadline = record {
    host = host;
    filter = filter;
    budget = clamp 200 20000 (or_default budget 2000);
    max_pages = clamp 1 scout_max_pages (or_default max_pages 5);
    depth = min (or_default depth 1) scout_max_depth;
    deadline = deadline;
    queue = (url, 0) ∷ [];
    visited = [];
    pages = [];
    navigated_first = true;
  }

  -- `scout_finish`.
  abbrev pub scout_finish : World × ScoutState J.Value → World × ScoutReply J.Value
  scout_finish (w, s) = (c.close_window w, record { pages = s.pages; visited = length s.visited })

  -- The state of a crawl whose window was opened, and the crawl.
  abbrev pub crawl_start :
      World
      → Text
      → Text
      → Option ℕ
      → Option ℕ
      → Option Text
      → Option ℕ
      → Option ℕ
      → World × ScoutState J.Value
  crawl_start w host url depth max_pages filter budget timeout_ms =
      let (w', now) = c.clock w in
      let deadline = now + max 1 (or_default timeout_ms 60000) * 1000000 in
      (w', scout_state host url depth max_pages filter budget deadline)

  unfoldable pub crawl :
      World
      → Text
      → Text
      → Option ℕ
      → Option ℕ
      → Option Text
      → Option ℕ
      → Option ℕ
      → World × ScoutState J.Value
  unfolding scout_loop
  crawl w host url depth max_pages filter budget timeout_ms =
      let (w', s) = crawl_start w host url depth max_pages filter budget timeout_ms in
      scout_loop s.max_pages w' s

  unfoldable pub scout :
      World
      → Text
      → Option ℕ
      → Option ℕ
      → Option Text
      → Option ℕ
      → Option Text
      → Option ℕ
      → World × Result Text (ScoutReply J.Value)
  unfolding host_of crawl
  scout w url depth max_pages filter budget profile timeout_ms = elim (host_of url) [
    | none ↦ (w, err (codes "scout needs an absolute http(s) URL, got " ++ url))
    | some host ↦
        let w' = c.open_headless w url profile in
        let done = scout_finish (crawl w' host url depth max_pages filter budget timeout_ms) in
        (done.0, ok done.1)
  ]
