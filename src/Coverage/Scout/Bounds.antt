-- ===== src/Coverage/Scout/Bounds.antt =====
-- Where a crawl goes, and that it ends.
use hwatu.Common.{ℕ, ◌≤◌, ◌≡◌, Option, some, length, All}
use hwatu.Common.Text.{Text}
use hwatu.Json.{JsonApi}
use hwatu.Coverage.Hosts.{host_of}
use hwatu.Coverage.Scout.{Crawler, ScoutState, scout_max_depth, scout_max_pages, scout_state, crawl}
use hwatu.Coverage.Scout.Steps.{NoRepeat, IsReached, IsShallow, IsCrawl}

module _ {J : JsonApi} {World : Type 0} (c : Crawler J World) (start : Text) where
  -- What the rest of a crawl keeps.
  pub record IsCrawled (s s' : ScoutState J.Value) : Type 0 where
    pub crawl : IsCrawl c start s'
    pub host : s'.host ≡ s.host
    pub depth : s'.depth ≡ s.depth
    pub max_pages : s'.max_pages ≡ s.max_pages
    pub few : length s'.pages ≤ s'.max_pages

module _ {J : JsonApi} {World : Type 0} (c : Crawler J World) where
  -- A crawl of the addresses from `start` on that goes as far as it may: every address that it loads is
  -- on the host, none is loaded twice, each gives one page, of which there are at most 10, and each is
  -- the first one, or linked to by a page that was harvested one link nearer to it, at most twice.
  pub record IsBounded (start host : Text) (s : ScoutState J.Value) : Type 0 where
    pub inside : All (λ url. host_of url ≡ some host) s.visited
    pub once : NoRepeat s.visited
    pub pages : length s.pages ≡ length s.visited
    pub few : length s.pages ≤ scout_max_pages
    pub reached : All (IsReached c start s.depth s.pages) s.visited
    pub shallow : All (IsShallow c start s.depth) s.pages
    pub deep : s.depth ≤ scout_max_depth

  module _ (host url : Text) (named : host_of url ≡ some host) (depth max_pages : Option ℕ)
      (filter : Option Text) (budget : Option ℕ) (deadline : ℕ) where
    abbrev initial : ScoutState J.Value
    initial = scout_state c host url depth max_pages filter budget deadline
