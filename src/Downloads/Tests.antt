-- ===== src/Downloads/Tests.antt =====
-- Concrete downloads.
use hwatu.Common.{◌≡◌, refl, List, [], ◌∷◌, ◌++◌, map, Bool, false, none, some, ◌||◌, arith}
use hwatu.Common.Text.{Text, codes, text_eq, decimal, decimal_of}
use hwatu.Downloads.{
  DownloadRecord, finished, failed, Registry, Signal, started, decided, ended, broke, list,
  update_first, wire_download,
}
use hwatu.Downloads.Names.{unique_path, try_from, IsFree, unique_path-IsFree}
use hwatu.Downloads.Recent.{IsRecent, record_all, run, run-IsRecent}

abbrev no_downloads : Registry
no_downloads = record { entries = []; next_id = 0 }

-- Two downloads; the first breaks and its late end does not make it a finished one.
abbrev some_signals : List Signal
some_signals =
    started (codes "https://a/x") none 5
    ∷ started (codes "https://a/y") (some 2) 6
    ∷ decided 1 (codes "/tmp/x")
    ∷ broke 1 (codes "reset")
    ∷ ended 1 (codes "/tmp/x")
    ∷ ended 2 (codes "/tmp/y")
    ∷ []

states : map DownloadRecord.state (run no_downloads some_signals).entries ≡ failed ∷ finished ∷ []
unfolding run wire_download update_first
states = refl

last_listed : map DownloadRecord.id (list (some 1) (run no_downloads some_signals)) ≡ 2 ∷ []
unfolding run wire_download update_first
last_listed = refl

no_downloads-IsRecent : IsRecent [] no_downloads
no_downloads-IsRecent = record { kept = refl; given = refl; numbered = refl }

run-IsRecent_example : IsRecent (record_all [] some_signals) (run no_downloads some_signals)
run-IsRecent_example = run-IsRecent some_signals [] no_downloads no_downloads-IsRecent

abbrev directory : Text → Text
directory n = codes "/d/" ++ n

abbrev two_files : Text → Bool
two_files p = text_eq p (codes "/d/a.tar.gz") || text_eq p (codes "/d/a.tar (1).gz")

numbered_test :
    unique_path two_files directory 5 (codes "a.tar.gz") ≡ some (codes "/d/a.tar (2).gz")
unfolding unique_path try_from decimal decimal_of
numbered_test = refl

hidden_test :
    unique_path (λ p. text_eq p (codes "/d/.rc")) directory 5 (codes ".rc")
    ≡ some (codes "/d/.rc (1)")
unfolding unique_path try_from decimal decimal_of
hidden_test = refl

second_free : two_files (codes "/d/a.tar (2).gz") ≡ false
second_free = refl

unique_path-IsFree_example :
    IsFree two_files directory (unique_path two_files directory 5 (codes "a.tar.gz"))
unfolding decimal decimal_of
unique_path-IsFree_example =
    unique_path-IsFree two_files directory 5 1 (codes "a.tar.gz") second_free (omega arith)
