-- ===== src/Abp/Options.antt =====
-- `split_options`, `parse_options` and `resolve_types` of crates/hwatud/src/abp.rs.
use hwatu.Common.{
  ℕ, List, [], ◌∷◌, ◌++◌, map, Bool, true, false, not, ◌&&◌, ◌||◌, Option, none, some, ◌==◌,
  if◌then◌else◌, all, is_empty, keep,
}
use hwatu.Common.Text.{
  Text, codes, text_eq, strip_prefix, split_at_char, split_once, rsplit_once, trim, trim_start_by,
  lowercase, is_ascii_lowercase, is_ascii_digit,
}
use hwatu.Abp.{is_among, sort, dedup, stripped_or}

pub record NetOpts : Type 0 where
  pub types : List Text
  pub neg_types : List Text
  pub load_type : Option Text
  pub if_domain : List Text
  pub unless_domain : List Text
  pub case_sensitive : Bool
  pub document : Bool
  pub broadened : Bool

-- `NetOpts::default`.
abbrev pub default_opts : NetOpts
default_opts = record {
  types = [];
  neg_types = [];
  load_type = none;
  if_domain = [];
  unless_domain = [];
  case_sensitive = false;
  document = false;
  broadened = false;
}

-- `ALL_TYPES`.
abbrev pub all_types : List Text
all_types =
    codes "document"
    ∷ codes "image"
    ∷ codes "style-sheet"
    ∷ codes "script"
    ∷ codes "font"
    ∷ codes "raw"
    ∷ codes "svg-document"
    ∷ codes "media"
    ∷ codes "popup"
    ∷ []

abbrev pub exact_raw_names : List Text
exact_raw_names = codes "xmlhttprequest" ∷ codes "xhr" ∷ []

abbrev pub wider_raw_names : List Text
wider_raw_names =
    codes "websocket"
    ∷ codes "ping"
    ∷ codes "beacon"
    ∷ codes "other"
    ∷ codes "object"
    ∷ codes "object-subrequest"
    ∷ []

-- The resource type that an option names.
unfoldable pub mapped_type : Text → Option Text
mapped_type name =
    if text_eq name (codes "script")
    then some (codes "script")
    else if is_among (codes "image" ∷ codes "background" ∷ []) name
    then some (codes "image")
    else if is_among (codes "stylesheet" ∷ codes "css" ∷ []) name
    then some (codes "style-sheet")
    else if is_among (codes "subdocument" ∷ codes "frame" ∷ []) name
    then some (codes "document")
    else if text_eq name (codes "font")
    then some (codes "font")
    else if text_eq name (codes "media")
    then some (codes "media")
    else if text_eq name (codes "popup")
    then some (codes "popup")
    else if is_among exact_raw_names name || is_among wider_raw_names name
    then some (codes "raw")
    else none

abbrev pub push_type : Bool → Text → NetOpts → NetOpts
push_type neg t out =
    if neg
    then record out { neg_types = out.neg_types ++ t ∷ [] }
    else record out { types = out.types ++ t ∷ [] }

-- One domain of a `domain=` option: with `~` it is excluded.
abbrev pub push_domain : NetOpts → Text → NetOpts
push_domain out d = elim (strip_prefix (b'~' ∷ []) d) [
  | some nd ↦ record out { unless_domain = out.unless_domain ++ (b'*' ∷ lowercase nd) ∷ [] }
  | none ↦ record out { if_domain = out.if_domain ++ (b'*' ∷ lowercase d) ∷ [] }
]

abbrev pub push_domains : NetOpts → List Text → NetOpts
push_domains out [] = out
push_domains out (d ∷ ds) = push_domains (push_domain out d) ds

-- `split(sep).map(trim).filter(|d| !d.is_empty())`.
abbrev pub items : ℕ → Text → List Text
items sep s = keep (λ d. not (is_empty d)) (map trim (split_at_char sep s))

abbrev pub domains_of : NetOpts → Option Text → Option NetOpts
domains_of out none = none
domains_of out (some value) = some (push_domains out (items b'|' value))

abbrev pub party : Bool → Text
party true = codes "first-party"
party false = codes "third-party"

-- The second `match` on the name of an option.
unfoldable pub other_option : NetOpts → Bool → Text → Option Text → Option NetOpts
other_option out neg name value =
    if is_among (codes "document" ∷ codes "doc" ∷ []) name
    then some (
        if neg
        then push_type true (codes "document") out
        else record (push_type false (codes "document") out) { document = true })
    else if is_among (codes "third-party" ∷ codes "3p" ∷ []) name
    then some (record out { load_type = some (party neg) })
    else if is_among (codes "first-party" ∷ codes "1p" ∷ []) name
    then some (record out { load_type = some (party (not neg)) })
    else if text_eq name (codes "match-case")
    then some (record out { case_sensitive = true })
    else if is_among (codes "domain" ∷ codes "from" ∷ []) name
    then domains_of out value
    else if is_among (codes "important" ∷ codes "all" ∷ []) name
    then some out
    else none

-- The name and the value of an option.
abbrev pub name_value : Text → Text × Option Text
name_value tok = elim (split_once (b'=' ∷ []) tok) [
  | some nv ↦ (nv.0, some nv.1)
  | none ↦ (tok, none)
]

abbrev pub widen : Text → NetOpts → NetOpts
widen name out = if is_among wider_raw_names name then record out { broadened = true } else out

-- One round of the loop of `parse_options`.
unfoldable pub parse_option : NetOpts → Text → Option NetOpts
unfolding mapped_type other_option
parse_option out token =
    let (neg, tok) = stripped_or (strip_prefix (b'~' ∷ []) token) token in
    let (name, value) = name_value tok in
    elim (mapped_type name) [
      | some t ↦ some (push_type neg t (widen name out))
      | none ↦ other_option out neg name value
    ]

unfoldable pub parse_each : NetOpts → List Text → Option NetOpts
unfolding parse_option
parse_each out [] = some out
parse_each out (token ∷ tokens) = elim (parse_option out token) [
  | none ↦ none
  | some out' ↦ parse_each out' tokens
]

abbrev pub unless_if_empty : List Text → List Text → List Text
unless_if_empty [] excluded = excluded
unless_if_empty (d ∷ ds) excluded = []

-- What `parse_options` does after its loop.
abbrev pub settled_opts : NetOpts → NetOpts
settled_opts out = record out {
  if_domain = dedup (sort out.if_domain);
  unless_domain = dedup (sort (unless_if_empty out.if_domain out.unless_domain));
}

abbrev pub settle : Option NetOpts → Option NetOpts
settle none = none
settle (some out) = some (settled_opts out)

unfoldable pub parse_options : Text → Option NetOpts
unfolding parse_each
parse_options opts = settle (parse_each default_opts (map trim (split_at_char b',' opts)))

-- `None` leaves the key out.
unfoldable pub resolve_types : NetOpts → Option (List Text)
resolve_types opts =
    if is_empty opts.types && is_empty opts.neg_types
    then none
    else let base = if is_empty opts.types then all_types else opts.types in
      some (dedup (sort (keep (λ t. not (is_among opts.neg_types t)) base)))

abbrev pub is_option_char : ℕ → Bool
is_option_char c = is_ascii_lowercase c || is_ascii_digit c || (c == b'-')

abbrev pub option_name : Text → Text
option_name token = (name_value (trim_start_by (λ c. c == b'~') (trim token))).0

abbrev pub looks_like_option : Text → Bool
looks_like_option token =
    let name = option_name token in not (is_empty name) && all is_option_char name

abbrev pub looks_like_opts : Text → Bool
looks_like_opts opts = not (is_empty opts) && all looks_like_option (split_at_char b',' opts)

-- `pattern$options`, split at the last `$`.
unfoldable pub split_options : Text → Text × Option Text
split_options line = elim (rsplit_once b'$' line) [
  | none ↦ (line, none)
  | some po ↦ if looks_like_opts po.1 then (po.0, some po.1) else (line, none)
]
