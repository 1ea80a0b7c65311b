-- ===== src/Snapdiff/Tests.antt =====
-- Concrete snapshots and their differences.
use hwatu.Common.{ℕ, ◌+◌, ◌≤◌, ◌≡◌, refl, List, [], ◌∷◌, map, All, length, arith, false}
use hwatu.Common.Text.{Text, codes, text_eq}
use hwatu.Json.Sample.{tree_eq, Tree, str, arr, obj, cons, nil, entry, end, sample_json}
use hwatu.Snapdiff.{Node, moved, diff, fill_row, claim}
use hwatu.Snapdiff.Leftovers.{Remains}
use hwatu.Snapdiff.Optimal.{Common, diff_optimal}
use hwatu.Snapdiff.Pairing.{diff_accounts, diff_apart}
use hwatu.Snapdiff.Normalize.{normalize}
use hwatu.Snapdiff.Normalize.Refs.{SamePage, diff_ignores_refs}

abbrev line : Text → Node Tree
line s = record { key = s; bare = str s; emit = str s }

abbrev old_page : List (Node Tree)
old_page = line (codes "a") ∷ line (codes "b") ∷ line (codes "c") ∷ []

abbrev new_page : List (Node Tree)
new_page = line (codes "b") ∷ line (codes "d") ∷ line (codes "a") ∷ []

reports_move : diff sample_json old_page new_page ≡ record {
  added = str (codes "d") ∷ [];
  removed = str (codes "c") ∷ [];
  changed = moved (codes "a") (str (codes "a")) ∷ [];
  unchanged_count = 1;
}
unfolding diff fill_row tree_eq claim
reports_move = refl

diff_optimal_example :
    Common sample_json old_page new_page (diff sample_json old_page new_page).unchanged_count
    × ((k : ℕ)
        → Common sample_json old_page new_page k
        → k ≤ (diff sample_json old_page new_page).unchanged_count)
diff_optimal_example = diff_optimal sample_json old_page new_page (omega arith)

diff_accounts_example :
    let r = diff sample_json old_page new_page in
    (r.unchanged_count + length r.changed + length r.removed ≡ 3)
    × (r.unchanged_count + length r.changed + length r.added ≡ 3)
diff_accounts_example = diff_accounts sample_json old_page new_page

diff_apart_example :
    (os ns : List (Node Tree)) × Remains os old_page
    × Remains ns new_page
    × ((diff sample_json old_page new_page).removed ≡ map (λ (o : Node Tree). o.bare) os)
    × ((diff sample_json old_page new_page).added ≡ map (λ (n : Node Tree). n.emit) ns)
    × All (λ (o : Node Tree). All (λ (n : Node Tree). text_eq n.key o.key ≡ false) ns) os
diff_apart_example = diff_apart sample_json old_page new_page

-- A page with one link, whose ref is given.
abbrev link_page : Text → Tree
link_page ref = obj (
    entry (codes "url") (str (codes "u")) (
      entry (codes "interactables")
        (arr (
          cons (obj (entry (codes "tag") (str (codes "a")) (entry (codes "ref") (str ref) end)))
            nil))
        end))

same_page : SamePage sample_json (link_page (codes "1")) (link_page (codes "2"))
same_page = record { url = refl; title = refl; text = refl; elements = (refl, tt) }

diff_ignores_refs_example :
    diff sample_json
      (normalize sample_json (link_page (codes "1")))
      (normalize sample_json (link_page (codes "2")))
    ≡ record {
      added = [];
      removed = [];
      changed = [];
      unchanged_count = length (normalize sample_json (link_page (codes "1")));
    }
diff_ignores_refs_example =
    diff_ignores_refs sample_json (link_page (codes "1")) (link_page (codes "2")) same_page
