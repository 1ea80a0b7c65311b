-- ===== src/Keys/Actions.antt =====
-- `Action` of crates/hwatud/src/keys.rs: what a key can do, with its tables of texts.
pub mod Names
use hwatu.Common.{
  ℕ, ◌≡◌, refl, Bool, true, Option, none, some, List, [], ◌∷◌, ◌==◌, ==_iff, ap, sym, ◌∙◌,
  find_first, get_elem?,
}
use hwatu.Common.Text.{Text, codes, text_eq}

pub data Action : Type 0 where
  close new_window url_open url_edit : Action
  yank_url find find_back find_next : Action
  find_prev scroll_down scroll_up back : Action
  forward reload hard_reload zoom_in : Action
  zoom_out zoom_reset fullscreen mute : Action
  reopen_closed print hint_follow hint_new_window : Action
  hint_yank fill_password dark_mode open_mpv : Action
  edit_in_editor reader share command_palette : Action

-- `Action::ALL`.
abbrev pub all_actions : List Action
all_actions =
    close ∷ new_window ∷ url_open ∷ url_edit ∷ yank_url ∷ find ∷ find_back ∷ find_next ∷ find_prev
    ∷ scroll_down ∷ scroll_up ∷ back ∷ forward ∷ reload ∷ hard_reload ∷ zoom_in ∷ zoom_out
    ∷ zoom_reset ∷ fullscreen ∷ mute ∷ reopen_closed ∷ print ∷ hint_follow ∷ hint_new_window
    ∷ hint_yank ∷ fill_password ∷ dark_mode ∷ open_mpv ∷ edit_in_editor ∷ reader ∷ share
    ∷ command_palette ∷ []

-- The place of an action in `all_actions`; the derived `==` compares it.
abbrev pub place : Action → ℕ
place close = 0
place new_window = 1
place url_open = 2
place url_edit = 3
place yank_url = 4
place find = 5
place find_back = 6
place find_next = 7
place find_prev = 8
place scroll_down = 9
place scroll_up = 10
place back = 11
place forward = 12
place reload = 13
place hard_reload = 14
place zoom_in = 15
place zoom_out = 16
place zoom_reset = 17
place fullscreen = 18
place mute = 19
place reopen_closed = 20
place print = 21
place hint_follow = 22
place hint_new_window = 23
place hint_yank = 24
place fill_password = 25
place dark_mode = 26
place open_mpv = 27
place edit_in_editor = 28
place reader = 29
place share = 30
place command_palette = 31

unfoldable pub action_eq : Action → Action → Bool
action_eq a b = place a == place b

abbrev pub name : Action → Text
name close = codes "close"
name new_window = codes "new_window"
name url_open = codes "url_open"
name url_edit = codes "url_edit"
name yank_url = codes "yank_url"
name find = codes "find"
name find_back = codes "find_back"
name find_next = codes "find_next"
name find_prev = codes "find_prev"
name scroll_down = codes "scroll_down"
name scroll_up = codes "scroll_up"
name back = codes "back"
name forward = codes "forward"
name reload = codes "reload"
name hard_reload = codes "hard_reload"
name zoom_in = codes "zoom_in"
name zoom_out = codes "zoom_out"
name zoom_reset = codes "zoom_reset"
name fullscreen = codes "fullscreen"
name mute = codes "mute"
name reopen_closed = codes "reopen_closed"
name print = codes "print"
name hint_follow = codes "hint_follow"
name hint_new_window = codes "hint_new_window"
name hint_yank = codes "hint_yank"
name fill_password = codes "fill_password"
name dark_mode = codes "dark_mode"
name open_mpv = codes "open_mpv"
name edit_in_editor = codes "edit_in_editor"
name reader = codes "reader"
name share = codes "share"
name command_palette = codes "command_palette"

-- The description of an action for the launcher page.
abbrev pub describe : Action → Text
describe close = codes "close window"
describe new_window = codes "new tab"
describe url_open = codes "open URL / search"
describe url_edit = codes "edit current URL"
describe yank_url = codes "copy current URL"
describe find = codes "find in page"
describe find_back = codes "find backwards"
describe find_next = codes "next match"
describe find_prev = codes "previous match"
describe scroll_down = codes "scroll down"
describe scroll_up = codes "scroll up"
describe back = codes "history back"
describe forward = codes "history forward"
describe reload = codes "reload page"
describe hard_reload = codes "reload (bypass cache)"
describe zoom_in = codes "zoom in"
describe zoom_out = codes "zoom out"
describe zoom_reset = codes "reset zoom"
describe fullscreen = codes "toggle fullscreen"
describe mute = codes "toggle video mute"
describe reopen_closed = codes "reopen last closed tab"
describe print = codes "print page"
describe hint_follow = codes "link hints: follow"
describe hint_new_window = codes "link hints: open in new window"
describe hint_yank = codes "link hints: copy link URL"
describe fill_password = codes "fill login from password manager"
describe dark_mode = codes "toggle forced dark mode (per site)"
describe open_mpv = codes "open current page in mpv"
describe edit_in_editor = codes "edit focused text field in $EDITOR"
describe reader = codes "reader mode (article view)"
describe share = codes "share page URL (share.conf)"
describe command_palette = codes "command palette"

unfoldable pub from_name : Text → Option Action
from_name n = find_first (λ a. text_eq (name a) n) all_actions

-- Default chords, in the syntax of the configuration.
abbrev pub default_chords : Action → Text
default_chords close = codes "ctrl+w, ctrl+q"
default_chords new_window = codes "ctrl+t, ctrl+n"
default_chords url_open = codes ""
default_chords url_edit = codes "ctrl+l, ctrl+shift+l"
default_chords yank_url = codes "ctrl+y"
default_chords find = codes "ctrl+f"
default_chords find_back = codes "ctrl+shift+f"
default_chords find_next = codes "ctrl+g"
default_chords find_prev = codes "ctrl+shift+g"
default_chords scroll_down = codes ""
default_chords scroll_up = codes ""
default_chords back = codes "alt+Left"
default_chords forward = codes "alt+Right"
default_chords reload = codes "ctrl+r, F5"
default_chords hard_reload = codes "ctrl+shift+r, ctrl+F5"
default_chords zoom_in = codes "ctrl+plus, ctrl+equal"
default_chords zoom_out = codes "ctrl+minus"
default_chords zoom_reset = codes "ctrl+0"
default_chords fullscreen = codes "F11"
default_chords mute = codes "m"
default_chords reopen_closed = codes "ctrl+shift+t"
default_chords print = codes "ctrl+p"
default_chords hint_follow = codes "f"
default_chords hint_new_window = codes "F"
default_chords hint_yank = codes "ctrl+shift+y"
default_chords fill_password = codes "alt+p"
default_chords dark_mode = codes "ctrl+shift+d"
default_chords open_mpv = codes "ctrl+shift+m"
default_chords edit_in_editor = codes "ctrl+e"
default_chords reader = codes "alt+r"
default_chords share = codes ""
default_chords command_palette = codes "ctrl+k, ctrl+shift+p"
