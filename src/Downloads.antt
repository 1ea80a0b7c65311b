-- ===== src/Downloads.antt =====
-- crates/hwatud/src/downloads.rs: the registry of downloads, and the changes that a download's
-- signals make to it. A time is a number; a path is its text.
pub mod Names
pub mod Recent
mod Tests
use hwatu.Common.{
  ℕ, zero, suc, ◌+◌, ◌-◌, List, [], ◌∷◌, ◌++◌, Bool, true, false, Option, none, some, ◌==◌, leb,
  min, if◌then◌else◌, length, drop,
}
use hwatu.Common.Text.{Text}

pub data DownloadState : Type 0 where
  active : DownloadState
  finished : DownloadState
  failed : DownloadState

pub record DownloadRecord : Type 0 where
  pub id : ℕ
  pub url : Text
  pub destination : Option Text
  pub state : DownloadState
  pub error : Option Text
  pub window : Option ℕ
  pub started_at : ℕ

pub record Registry : Type 0 where
  pub entries : List DownloadRecord
  pub next_id : ℕ

abbrev pub registry_cap : ℕ
registry_cap = 200

-- `remove(0)`.
abbrev pub remove_first : List DownloadRecord → List DownloadRecord
remove_first [] = []
remove_first (r ∷ rs) = rs

abbrev pub insert : DownloadRecord → Registry → Registry
insert r reg =
    let id = reg.next_id + 1 in
    let kept =
      if leb registry_cap (length reg.entries) then remove_first reg.entries else reg.entries in
    record { entries = kept ++ (record r { id = id }) ∷ []; next_id = id }

-- The first entry with the id is changed.
unfoldable pub update_first :
    ℕ → (DownloadRecord → DownloadRecord) → List DownloadRecord → List DownloadRecord
update_first id f [] = []
update_first id f (r ∷ rs) =
    let rest = update_first id f rs in if r.id == id then f r ∷ rs else r ∷ rest

abbrev pub update : ℕ → (DownloadRecord → DownloadRecord) → Registry → Registry
update id f reg = record reg { entries = update_first id f reg.entries }

abbrev pub list : Option ℕ → Registry → List DownloadRecord
list none reg = reg.entries
list (some limit) reg = drop (length reg.entries - min limit (length reg.entries)) reg.entries

-- The changes of `wire_download`: the destination is decided, the download finishes or fails.
abbrev pub decide : Text → DownloadRecord → DownloadRecord
decide dest r = record r { destination = some dest }

abbrev pub state_finished : DownloadState → DownloadState
state_finished active = finished
state_finished finished = finished
state_finished failed = failed

abbrev pub finish : Text → DownloadRecord → DownloadRecord
finish dest r = record r { state = state_finished r.state; destination = some dest }

abbrev pub fail : Text → DownloadRecord → DownloadRecord
fail message r = record r { state = failed; error = some message }

-- What happens to the registry: a download starts, or one of its signals arrives.
pub data Signal : Type 0 where
  started : Text → Option ℕ → ℕ → Signal
  decided : ℕ → Text → Signal
  ended : ℕ → Text → Signal
  broke : ℕ → Text → Signal

unfoldable pub wire_download : Signal → Registry → Registry
wire_download (started url window at) reg =
    insert
      (record {
        id = 0;
        url = url;
        destination = none;
        state = active;
        error = none;
        window = window;
        started_at = at;
      })
      reg
wire_download (decided id dest) reg = update id (decide dest) reg
wire_download (ended id dest) reg = update id (finish dest) reg
wire_download (broke id message) reg = update id (fail message) reg
