-- ===== src/Search/Input.antt =====
-- crates/hwatud/src/ipc_server.rs, `normalize_url`: what the URL bar and the requests make of an
-- input. The file system and GLib are the parameters `canonicalize` and `filename_to_uri`; the
-- search reads its two files as `url_for` does.
use hwatu.Common.{
  ℕ, ◌≡◌, List, [], ◌∷◌, ◌++◌, Bool, true, false, not, ◌&&◌, ◌||◌, Option, none, some, ◌==◌,
  if◌then◌else◌, is_empty,
}
use hwatu.Common.Text.{
  Text, codes, trim, contains, contains_char, is_whitespace, starts_with, strip_suffix, split_by,
  split_at_char, ends_with_char, eq_ignore_ascii_case, lowercase, is_some,
}
use hwatu.Search.{url_for}
use hwatu.Search.Schemes.{HasSeparator}

-- The first piece of a split.
abbrev first_piece : Text → List Text → Text
first_piece input [] = input
first_piece input (piece ∷ pieces) = piece

abbrev pub is_delimiter : ℕ → Bool
is_delimiter c = (c == b'/') || (c == b'?') || (c == b'#')

abbrev pub address_host : Text → Text
address_host input = first_piece input (split_by is_delimiter input)

unfoldable pub looks_like_host : Text → Bool
looks_like_host input =
    if is_empty input || contains_char is_whitespace input
    then false
    else let host = address_host input in
      contains_char (λ c. c == b'.') host
      && not (starts_with (codes ".") host)
      && not (ends_with_char b'.' host)

unfoldable pub is_loopback_host : Text → Bool
is_loopback_host input =
    let rest = address_host input in
    if starts_with (codes "[::1]") rest
    then true
    else let host = first_piece rest (split_at_char b':' rest) in
      eq_ignore_ascii_case host (codes "localhost")
      || is_some (strip_suffix (codes ".localhost") (lowercase host))
      || starts_with (codes "127.") host

module _ (canonicalize filename_to_uri : Text → Option Text) (conf marks : Option Text) where
  -- The URI of a path that exists.
  abbrev pub path_url : Text → Text → Text
  path_url input path = elim (filename_to_uri path) [
    | some uri ↦ uri
    | none ↦ url_for conf marks input
  ]

  -- An input that is no path.
  unfoldable pub host_url : Text → Text
  unfolding is_loopback_host looks_like_host
  host_url input =
      if is_loopback_host input
      then codes "http://" ++ input
      else if looks_like_host input
      then codes "https://" ++ input
      else url_for conf marks input

  unfoldable pub normalize_url : Text → Text
  normalize_url raw =
      let input = trim raw in
      if contains (codes "://") input || starts_with (codes "about:") input
      then input
      else elim (canonicalize input) [ some path ↦ path_url input path | none ↦ host_url input ]

  -- What an input may become: itself, if it has `://` in it anywhere or begins with `about:`, a file's
  -- URI, itself behind `http://` or `https://`, or what is searched for, which has `://` in it.
  pub data IsResolved (input : Text) : Text → Type 0 where
    explicit : HasSeparator input → IsResolved input input
    about_page : (page : Text) → input ≡ codes "about:" ++ page → IsResolved input input
    file : (path : Text) → IsResolved input (codes "file://" ++ path)
    loopback : is_loopback_host input ≡ true → IsResolved input (codes "http://" ++ input)
    host :
        is_loopback_host input ≡ false
        → looks_like_host input ≡ true
        → IsResolved input (codes "https://" ++ input)
    searched : HasSeparator (url_for conf marks input) → IsResolved input (url_for conf marks input)
