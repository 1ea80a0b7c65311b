-- ===== src/Coverage/Tests.antt =====
-- A crawl of a site whose every page links to itself, to another page and to another host.
use hwatu.Common.{ℕ, ◌+◌, ◌≡◌, refl, [], ◌∷◌, true, none, some}
use hwatu.Common.Text.{Text, codes, lowercase}
use hwatu.Json.Sample.{Tree, str, arr, obj, entry, end, cons, nil, sample_json}
use hwatu.Dispatch.Batch.{success}
use hwatu.Coverage.Hosts.{host_of}
use hwatu.Coverage.Scout.{
  Crawler, ScoutState, crawl, scout_loop, scout_next, scout_visit, scout_harvest, harvest,
  wanted_links, next_of,
}

host_of_userinfo : host_of (codes "https://me@WWW.a.io:8080/x?y#z") ≡ some (codes "www.a.io")
unfolding host_of
host_of_userinfo = refl

host_of_www : host_of (codes "http://www.a.io") ≡ some (codes "a.io")
unfolding host_of
host_of_www = refl

abbrev link_to : Text → Tree
link_to url = obj (entry (codes "url") (str url) (entry (codes "text") (str (codes "more")) end))

abbrev every_page : Tree
every_page = obj (
    entry (codes "links")
      (arr (
        cons (link_to (codes "http://a.io/"))
          (cons (link_to (codes "http://a.io/b")) (cons (link_to (codes "http://c.io/")) nil))))
      end)

-- The world counts the readings of the clock.
abbrev site : Crawler sample_json ℕ
site = record {
  clock = λ w. (w + 1, w);
  open_headless = λ w url profile. w;
  close_window = λ w. w;
  after_load = λ w wait. w;
  navigate = λ w url wait. (w, true);
  eval_harvest = λ w budget wait. (w, success (some every_page));
  to_lowercase = lowercase;
}

abbrev site_start : Text
site_start = codes "http://a.io/"

abbrev site_crawl : ℕ × ScoutState Tree
unfolding crawl
site_crawl = crawl site 0 (codes "a.io") site_start none none none none none

loads_both : site_crawl.1.visited ≡ codes "http://a.io/b" ∷ codes "http://a.io/" ∷ []
unfolding site_crawl crawl scout_loop scout_next scout_visit scout_harvest harvest wanted_links
    host_of next_of
loads_both = refl
