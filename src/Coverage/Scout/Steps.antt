-- ===== src/Coverage/Scout/Steps.antt =====
-- What each step of a crawl keeps.
use hwatu.Common.{
  ℕ, zero, suc, sym, subst, ◌⊎◌, ◌+◌, ◌≤◌, ◌≡◌, refl, ap, ◌∙◌, List, [], ◌∷◌, ◌++◌, true, false,
  Option, none, some, ltb, leb, length, arith, Bool-cases, Option-cases, inl, inr, All, All-append,
  length-append, if◌then◌else◌,
}
use hwatu.Common.Text.{Text, codes, text_eq→eq}
use hwatu.Json.{JsonApi}
use hwatu.Dispatch.Batch.{Response, success, failure}
use hwatu.Coverage.Hosts.{host_of}
use hwatu.Coverage.Scout.{
  Crawler, Page, harvested, failed, ScoutState, is_visited, on_host, text_or_empty, text_at,
  is_wanted, wanted_links, links_of, push_page, harvest, scout_harvest, load_page, entered,
  scout_visit, scout_next, crawl,
}

-- No address stands in a list twice.
abbrev pub NoRepeat : List Text → Type 0
NoRepeat [] = Unit
NoRepeat (url ∷ urls) = (is_visited urls url ≡ false) × NoRepeat urls

-- An address that a crawl may load.
abbrev pub IsInside : Text → ℕ → Text × ℕ → Type 0
IsInside host depth e = (host_of e.0 ≡ some host) × (e.1 ≤ depth)

module _ {J : JsonApi} {World : Type 0} (c : Crawler J World) (start : Text) where
  -- One of the links has the address.
  abbrev pub HasLink : List J.Value → Text → Type 0
  HasLink [] url = ⊥
  HasLink (link ∷ links) url = (text_at c link (codes "url") ≡ some url) ⊎ HasLink links url

  abbrev pub IsAmong : List (Page J.Value) → Page J.Value → Type 0
  IsAmong [] p = ⊥
  IsAmong (q ∷ qs) p = (q ≡ p) ⊎ IsAmong qs p

  -- An address is so many links away from the first one: it is the first one, or a page that was
  -- harvested one link nearer links to it.
  abbrev pub IsAway : List (Page J.Value) → ℕ → Text → Type 0
  IsAway pages zero url = url ≡ start
  IsAway pages (suc level) url =
      (value : J.Value) × IsAmong pages (harvested value level) × HasLink (links_of c value) url

  -- An address that was loaded is at most so many links away.
  abbrev pub IsReached : ℕ → List (Page J.Value) → Text → Type 0
  IsReached depth pages url = (level : ℕ) × (level ≤ depth) × IsAway pages level url

  abbrev pub IsQueued : Text → ℕ → List (Page J.Value) → Text × ℕ → Type 0
  IsQueued host depth pages e = IsInside host depth e × IsAway pages e.1 e.0

  IsAmong-append :
      (pages : List (Page J.Value)) (p q : Page J.Value)
      → IsAmong pages q
      → IsAmong (pages ++ p ∷ []) q
  IsAmong-append [] p q h = elim h [ ]
  IsAmong-append (x ∷ pages) p q (inl e) = inl e
  IsAmong-append (x ∷ pages) p q (inr h) = inr (IsAmong-append pages p q h)

  IsAmong-last : (pages : List (Page J.Value)) (p : Page J.Value) → IsAmong (pages ++ p ∷ []) p
  IsAmong-last [] p = inl refl
  IsAmong-last (x ∷ pages) p = inr (IsAmong-last pages p)

  IsAway-append :
      (pages : List (Page J.Value)) (p : Page J.Value) (level : ℕ) (url : Text)
      → IsAway pages level url
      → IsAway (pages ++ p ∷ []) level url
  IsAway-append pages p zero url h = h
  IsAway-append pages p (suc level) url (value, there, linked) =
      (value, IsAmong-append pages p (harvested value level) there, linked)

  IsReached-append :
      (depth : ℕ) (pages : List (Page J.Value)) (p : Page J.Value) (urls : List Text)
      → All (IsReached depth pages) urls
      → All (IsReached depth (pages ++ p ∷ [])) urls
  IsReached-append depth pages p [] h = tt
  IsReached-append depth pages p (url ∷ urls) ((level, near, away), h) =
      ((level, near, IsAway-append pages p level url away), IsReached-append depth pages p urls h)

  IsQueued-append :
      (host : Text) (depth : ℕ) (pages : List (Page J.Value)) (p : Page J.Value)
      (queue : List (Text × ℕ))
      → All (IsQueued host depth pages) queue
      → All (IsQueued host depth (pages ++ p ∷ [])) queue
  IsQueued-append host depth pages p [] h = tt
  IsQueued-append host depth pages p (e ∷ queue) ((inside, away), h) =
      ((inside, IsAway-append pages p e.1 e.0 away), IsQueued-append host depth pages p queue h)

  -- A page comes from a level within the depth.
  abbrev pub IsShallow : ℕ → Page J.Value → Type 0
  IsShallow depth (harvested v level) = level ≤ depth
  IsShallow depth (failed url message) = Unit

  -- A crawl under way: every address that was loaded is on the host and was loaded once, each gave one
  -- page, and no more addresses will be loaded than that are on the host and within the depth.
  pub record IsCrawl (s : ScoutState J.Value) : Type 0 where
    pub inside : All (λ url. host_of url ≡ some s.host) s.visited
    pub once : NoRepeat s.visited
    pub pages : length s.pages ≡ length s.visited
    pub shallow : All (IsShallow s.depth) s.pages
    pub reached : All (IsReached s.depth s.pages) s.visited
    pub queued : All (IsQueued s.host s.depth s.pages) s.queue

  on_host-eq : (host url : Text) → on_host c host url ≡ true → host_of url ≡ some host
  on_host-eq host url h = elim (Option-cases (host_of url)) [
    | inl e ↦ cc (rw (e, on_host) at h)
    | inr (x, e) ↦ e ∙ ap some (text_eq→eq x host (rw (e, on_host) at h))
  ]

  -- An entry that a page at a level adds to the queue.
  abbrev IsLinked : Text → ℕ → ℕ → List J.Value → Text × ℕ → Type 0
  IsLinked host depth level links e = IsInside host depth e × (e.1 ≡ suc level) × HasLink links e.0

  wanted_links-IsLinked :
      (s : ScoutState J.Value) (level : ℕ) (links whole : List J.Value)
      → level + 1 ≤ s.depth
      → ((url : Text) → HasLink links url → HasLink whole url)
      → All (IsLinked s.host s.depth level whole) (wanted_links c s level links)
  unfolding wanted_links
  wanted_links-IsLinked s level [] whole h into = tt
  wanted_links-IsLinked s level (link ∷ links) whole h into =
      let later = wanted_links-IsLinked s level links whole h (λ url l. into url (inr l)) in
      elim (Option-cases (text_at c link (codes "url"))) [
        | inl e ↦ rw (e, wanted_links) later
        | inr (href, e) ↦
            let linked = into href (inl e) in
            elim (Bool-cases
              (is_wanted c s href (text_or_empty c (text_at c link (codes "text"))))) [
                | inl y ↦
                    rw (e, wanted_links)
                      (rw y
                        (((on_host-eq s.host href (ground arith), h), omega arith, linked), later))
                | inr n ↦ rw (e, wanted_links) (rw n later)
              ]
      ]

  -- What a page adds to a crawl that has just entered its address.
  pub record IsEntered (s : ScoutState J.Value) : Type 0 where
    pub inside : All (λ url. host_of url ≡ some s.host) s.visited
    pub once : NoRepeat s.visited
    pub pages : length s.pages + 1 ≡ length s.visited
    pub shallow : All (IsShallow s.depth) s.pages
    pub reached : All (IsReached s.depth s.pages) s.visited
    pub queued : All (IsQueued s.host s.depth s.pages) s.queue

  -- What a step leaves alone.
  pub record IsSameCrawl (s s' : ScoutState J.Value) : Type 0 where
    pub host : s'.host ≡ s.host
    pub depth : s'.depth ≡ s.depth
    pub max_pages : s'.max_pages ≡ s.max_pages
    pub pages : length s'.pages ≡ length s.pages + 1

  push_page-IsCrawl :
      (p : Page J.Value) (s : ScoutState J.Value) (queue : List (Text × ℕ))
      → IsShallow s.depth p
      → IsEntered s
      → All (IsQueued s.host s.depth (s.pages ++ p ∷ [])) queue
      → let s' = push_page c p (record s { queue = queue }) in IsCrawl s' × IsSameCrawl s s'
  push_page-IsCrawl p s queue hp h queued = (
    record {
      inside = h.inside;
      once = h.once;
      pages = omega (arith, length-append s.pages (p ∷ []), h.pages);
      shallow = All-append (IsShallow s.depth) s.pages (p ∷ []) h.shallow (hp, tt);
      reached = IsReached-append s.depth s.pages p s.visited h.reached;
      queued = queued;
    },
    record { host = refl; depth = refl; max_pages = refl; pages = length-append s.pages (p ∷ []) },
  )

  -- A page that was not harvested adds nothing to the queue.
  push_failed-IsCrawl :
      (url message : Text) (s : ScoutState J.Value)
      → IsEntered s
      → IsCrawl (push_page c (failed url message) s)
        × IsSameCrawl s (push_page c (failed url message) s)
  push_failed-IsCrawl url message s h =
      push_page-IsCrawl (failed url message) s s.queue tt h
        (IsQueued-append s.host s.depth s.pages (failed url message) s.queue h.queued)

  found_links : ScoutState J.Value → ℕ → J.Value → List (Text × ℕ)
  found_links s level value =
      if ltb level s.depth then wanted_links c s level (links_of c value) else []

  linked-IsQueued :
      (s : ScoutState J.Value) (level : ℕ) (value : J.Value) (es : List (Text × ℕ))
      → All (IsLinked s.host s.depth level (links_of c value)) es
      → All (IsQueued s.host s.depth (s.pages ++ harvested value level ∷ [])) es
  linked-IsQueued s level value [] h = tt
  linked-IsQueued s level value (e ∷ es) ((inside, one, linked), h) =
      let pages = s.pages ++ harvested value level ∷ [] in
      let away : IsAway pages (suc level) e.0 =
        (value, IsAmong-last s.pages (harvested value level), linked) in
      ((inside, subst (λ n. IsAway pages n e.0) (sym one) away), linked-IsQueued s level value es h)

  found_IsQueued :
      (s : ScoutState J.Value) (level : ℕ) (value : J.Value)
      → All
          (IsQueued s.host s.depth (s.pages ++ harvested value level ∷ []))
          (found_links s level value)
  unfolding found_links
  found_IsQueued s level value = elim (Bool-cases (ltb level s.depth)) [
    | inl deep ↦
        let links = links_of c value in
        rw deep (
          linked-IsQueued s level value (wanted_links c s level links)
            (wanted_links-IsLinked s level links links (ground arith) (λ url h. h)))
    | inr last ↦ rw last tt
  ]

  harvest-IsCrawl :
      (url : Text) (level : ℕ) (response : Response (Option J.Value)) (s : ScoutState J.Value)
      → level ≤ s.depth
      → IsEntered s
      → IsCrawl (harvest c url level response s) × IsSameCrawl s (harvest c url level response s)
  unfolding harvest found_links
  harvest-IsCrawl url level (failure message) s l h = push_failed-IsCrawl url message s h
  harvest-IsCrawl url level (success none) s l h =
      push_failed-IsCrawl url (codes "empty harvest") s h
  harvest-IsCrawl url level (success (some value)) s l h =
      let page = harvested value level in
      push_page-IsCrawl page s (s.queue ++ found_links s level value) l h (
        All-append (IsQueued s.host s.depth (s.pages ++ page ∷ [])) s.queue
          (found_links s level value) (IsQueued-append s.host s.depth s.pages page s.queue h.queued)
          (found_IsQueued s level value))

  entered-IsEntered :
      (url : Text) (s : ScoutState J.Value)
      → host_of url ≡ some s.host
      → IsReached s.depth s.pages url
      → is_visited s.visited url ≡ false
      → IsCrawl s
      → IsEntered (entered c url s)
  entered-IsEntered url s on near fresh h = record {
    reached = (near, h.reached);
    inside = (on, h.inside);
    once = (fresh, h.once);
    pages = omega (arith, h.pages);
    shallow = h.shallow;
    queued = h.queued;
  }

  pub scout_visit-IsCrawl :
      (w : World) (e : Text × ℕ) (s : ScoutState J.Value)
      → IsQueued s.host s.depth s.pages e
      → is_visited s.visited e.0 ≡ false
      → IsCrawl s
      → let s' = (scout_visit c w e.0 e.1 s).1 in IsCrawl s' × IsSameCrawl s s'
  unfolding scout_visit scout_harvest
  scout_visit-IsCrawl w e s inside fresh h =
      let near : IsReached s.depth s.pages e.0 = (e.1, inside.0.1, inside.1) in
      let entry = entered-IsEntered e.0 s inside.0.0 near fresh h in
      let at = entered c e.0 s in
      elim (Bool-cases (load_page c w e.0 s).1) [
        | inl there ↦
            rw (there, scout_visit)
              (let (crawl, same) = harvest-IsCrawl e.0 e.1 _ at inside.0.1 entry in
                (
                  crawl,
                  record {
                    host = same.host;
                    depth = same.depth;
                    max_pages = same.max_pages;
                    pages = same.pages;
                  },
                ))
        | inr late ↦
            rw (late, scout_visit)
              (let (crawl, same) =
                  push_failed-IsCrawl e.0 (codes "load failed or timed out") at entry in
                (
                  crawl,
                  record {
                    host = same.host;
                    depth = same.depth;
                    max_pages = same.max_pages;
                    pages = same.pages;
                  },
                ))
      ]

  -- The address that a step finds is from the queue and was not loaded before.
  pub scout_next-some :
      (P : Text × ℕ → Type 0) (w : World) (deadline : ℕ) (visited : List Text)
      (queue : List (Text × ℕ)) (eq : (Text × ℕ) × List (Text × ℕ))
      → All P queue
      → (scout_next c w deadline visited queue).1 ≡ some eq
      → P eq.0 × All P eq.1 × (is_visited visited eq.0.0 ≡ false)
  unfolding scout_next
  scout_next-some P w deadline visited [] eq h e = cc
  scout_next-some P w deadline visited (entry ∷ queue) eq h e =
      elim (Bool-cases (leb deadline (c.clock w).1)) [
        | inl late ↦ cc (rw (late, scout_next) at e)
        | inr now ↦ elim (Bool-cases (is_visited visited entry.0)) [
          | inl seen ↦
              scout_next-some P (c.clock w).0 deadline visited queue eq h.1
                (rw (now, seen, scout_next) at e)
          | inr fresh ↦
              let same : some (entry, queue) ≡ some eq = rw (now, fresh, scout_next) at e in
              let found : (entry, queue) ≡ eq = cc in rw (← found) (h.0, h.1, fresh)
        ]
      ]
