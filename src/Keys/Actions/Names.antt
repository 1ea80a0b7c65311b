-- ===== src/Keys/Actions/Names.antt =====
-- The configuration's names of actions are distinct, and each action has one.
use hwatu.Common.{◌≡◌, refl, true, some, ==_iff, get_elem?, ==_refl}
use hwatu.Keys.Actions.{
  Action, all_actions, place, action_eq, name, from_name, close, new_window, url_open, url_edit,
  yank_url, find, find_back, find_next, find_prev, scroll_down, scroll_up, back, forward, reload,
  hard_reload, zoom_in, zoom_out, zoom_reset, fullscreen, mute, reopen_closed, print, hint_follow,
  hint_new_window, hint_yank, fill_password, dark_mode, open_mpv, edit_in_editor, reader, share,
  command_palette,
}

at_place : (a : Action) → get_elem? all_actions (place a) ≡ some a
at_place close = refl
at_place new_window = refl
at_place url_open = refl
at_place url_edit = refl
at_place yank_url = refl
at_place find = refl
at_place find_back = refl
at_place find_next = refl
at_place find_prev = refl
at_place scroll_down = refl
at_place scroll_up = refl
at_place back = refl
at_place forward = refl
at_place reload = refl
at_place hard_reload = refl
at_place zoom_in = refl
at_place zoom_out = refl
at_place zoom_reset = refl
at_place fullscreen = refl
at_place mute = refl
at_place reopen_closed = refl
at_place print = refl
at_place hint_follow = refl
at_place hint_new_window = refl
at_place hint_yank = refl
at_place fill_password = refl
at_place dark_mode = refl
at_place open_mpv = refl
at_place edit_in_editor = refl
at_place reader = refl
at_place share = refl
at_place command_palette = refl

pub action_eq→eq : (a b : Action) → action_eq a b ≡ true → a ≡ b
unfolding action_eq
action_eq→eq a b h = cc (at_place a, at_place b, (==_iff (place a) (place b)).0 h)

pub action_eq_refl : (a : Action) → action_eq a a ≡ true
unfolding action_eq
action_eq_refl a = ==_refl (place a)

-- Every action is found again under its own name, so no two actions share a name.
pub from_name-name : (a : Action) → from_name (name a) ≡ some a
unfolding from_name
from_name-name close = refl
from_name-name new_window = refl
from_name-name url_open = refl
from_name-name url_edit = refl
from_name-name yank_url = refl
from_name-name find = refl
from_name-name find_back = refl
from_name-name find_next = refl
from_name-name find_prev = refl
from_name-name scroll_down = refl
from_name-name scroll_up = refl
from_name-name back = refl
from_name-name forward = refl
from_name-name reload = refl
from_name-name hard_reload = refl
from_name-name zoom_in = refl
from_name-name zoom_out = refl
from_name-name zoom_reset = refl
from_name-name fullscreen = refl
from_name-name mute = refl
from_name-name reopen_closed = refl
from_name-name print = refl
from_name-name hint_follow = refl
from_name-name hint_new_window = refl
from_name-name hint_yank = refl
from_name-name fill_password = refl
from_name-name dark_mode = refl
from_name-name open_mpv = refl
from_name-name edit_in_editor = refl
from_name-name reader = refl
from_name-name share = refl
from_name-name command_palette = refl
