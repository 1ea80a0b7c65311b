-- ===== src/Net/Tests.antt =====
-- A concrete request log.
use hwatu.Common.{◌≡◌, refl, List, [], ◌∷◌, true, false, none, some}
use hwatu.Common.Text.{codes}
use hwatu.Net.{Entry, Buffer, Resource, cap, entry_of, classify}
use hwatu.Net.Log.{Use, ends, reads, run, record_all, last_n, run-last_n}

abbrev page_load : Resource
page_load = record {
  is_main = true;
  method = codes "GET";
  url = codes "http://a/";
  status = some 200;
  mime = some (codes "text/html");
  duration_ms = some 5;
  error = none;
  page = none;
}

abbrev cancelled : Resource
cancelled = record page_load { is_main = false; status = none; mime = none }

abbrev empty_log : Buffer
empty_log = record { queue = []; epoch = 0 }

abbrev three_uses : List Use
three_uses = ends 10 page_load ∷ ends 12 cancelled ∷ reads false (some 1) ∷ []

classifies_feed : classify (codes "application/Feed+JSON") false ≡ codes "data"
unfolding classify
classifies_feed = refl

run-last_n_example : (run three_uses empty_log).queue ≡ last_n cap (record_all three_uses 0 [])
run-last_n_example = run-last_n three_uses empty_log [] refl

abbrev two_entries : List Entry
two_entries = entry_of page_load 5 ∷ entry_of page_load 7 ∷ []
