-- ===== src/Abp/Convert.antt =====
-- `convert` and `parse_cosmetic` of crates/hwatud/src/abp.rs. The map from scopes to selectors is the
-- list of its entries in the order of their keys; the set of excepted selectors is a list.
pub mod Selectors
pub mod Orders
use hwatu.Common.{
  ℕ, zero, suc, ◌+◌, List, [], ◌∷◌, ◌++◌, map, Bool, true, false, not, ◌&&◌, ◌||◌, Option, none,
  some, ltb, ◌==◌, if◌then◌else◌, any, keep, length, take, drop, is_empty,
}
use hwatu.Common.Text.{
  text_le, Text, codes, text_eq, strip_prefix, starts_with, split_once, contains, contains_char,
  trim, join, lowercase, byte_len,
}
use hwatu.Abp.{Trigger, RuleAction, css_display_none, Rule, sort, dedup, is_among}
use hwatu.Abp.Patterns.{backslash}
use hwatu.Abp.Options.{items, unless_if_empty}
use hwatu.Abp.Network.{NetRule, blocks, excepts, skip, match_all, parse_network}

abbrev pub selector_chunk : ℕ
selector_chunk = 250

-- `Scope`: the domains that a cosmetic rule is for, and those it is not for.
abbrev pub Scope : Type 0
Scope = List Text × List Text

abbrev pub list_le : List Text → List Text → Bool
list_le [] ys = true
list_le (x ∷ xs) [] = false
list_le (x ∷ xs) (y ∷ ys) = if text_eq x y then list_le xs ys else text_le x y

abbrev pub list_eq : List Text → List Text → Bool
list_eq [] [] = true
list_eq [] (y ∷ ys) = false
list_eq (x ∷ xs) [] = false
list_eq (x ∷ xs) (y ∷ ys) = text_eq x y && list_eq xs ys

abbrev pub scope_eq : Scope → Scope → Bool
scope_eq a b = list_eq a.0 b.0 && list_eq a.1 b.1

abbrev pub scope_le : Scope → Scope → Bool
scope_le a b = if list_eq a.0 b.0 then list_le a.1 b.1 else list_le a.0 b.0

-- The substrings of selectors that cannot be expressed.
abbrev pub procedural_marks : List Text
procedural_marks =
    codes ":-abp-"
    ∷ codes "[-ext-"
    ∷ codes ":has-text("
    ∷ codes ":matches-css"
    ∷ codes ":xpath("
    ∷ codes ":style("
    ∷ codes ":remove("
    ∷ (backslash ∷ [])
    ∷ []

unfoldable pub is_procedural : Text → Bool
is_procedural selector =
    is_empty selector
    || starts_with (codes "+js(") selector
    || any (λ mark. contains mark selector) procedural_marks

-- One domain before `##`: with `~` it is excluded.
abbrev pub add_domain : Scope → Text → Scope
add_domain s d = elim (strip_prefix (b'~' ∷ []) d) [
  | some neg ↦ (s.0, s.1 ++ (b'*' ∷ lowercase neg) ∷ [])
  | none ↦ (s.0 ++ (b'*' ∷ lowercase d) ∷ [], s.1)
]

abbrev pub add_domains : Scope → List Text → Scope
add_domains s [] = s
add_domains s (d ∷ ds) = add_domains (add_domain s d) ds

unfoldable pub parse_cosmetic : Text → Text → Option (Scope × Text)
unfolding is_procedural
parse_cosmetic domains selector =
    let s = add_domains ([], []) (items b',' domains) in
    if is_procedural selector
    then none
    else some ((sort s.0, sort (unless_if_empty s.0 s.1)), selector)

-- The state of the loop over the lines.
pub record Lists : Type 0 where
  pub skipped : ℕ
  pub cosmetic : List (Scope × List Text)
  pub cosmetic_exceptions : List Text
  pub block_rules : List Rule
  pub exception_rules : List Rule

-- `entry(scope).or_default().push(sel)` on the map.
abbrev pub push_selector : Scope → Text → List (Scope × List Text) → List (Scope × List Text)
push_selector s sel [] = (s, sel ∷ []) ∷ []
push_selector s sel (e ∷ es) =
    let rest = push_selector s sel es in
    if scope_eq s e.0
    then (e.0, e.1 ++ sel ∷ []) ∷ es
    else if scope_le s e.0
    then (s, sel ∷ []) ∷ e ∷ es
    else e ∷ rest

abbrev pub skip_line : Lists → Lists
skip_line l = record l { skipped = l.skipped + 1 }

-- The ways of a line through the loop, in the order of the tests.
pub data LineKind : Type 0 where
  blank too_long procedural : LineKind
  unhide : Text → LineKind
  hide : Text → Text → LineKind
  network : Text → LineKind

abbrev pub is_comment : Text → Bool
is_comment line = is_empty line || starts_with (b'!' ∷ []) line || starts_with (b'[' ∷ []) line

abbrev pub is_scriptlet : Text → Bool
is_scriptlet line =
    contains (codes "#?#") line || contains (codes "#$#") line || contains (codes "##^") line

abbrev pub hide_or_network : Text → LineKind
hide_or_network line = elim (split_once (codes "##") line) [
  | some ds ↦ hide ds.0 (trim ds.1)
  | none ↦ network line
]

unfoldable pub classify_line : Text → LineKind
classify_line raw =
    let line = trim raw in
    if is_comment line
    then blank
    else if ltb 4096 (byte_len line)
    then too_long
    else elim (split_once (codes "#@#") line) [
      | some ds ↦ unhide (trim ds.1)
      | none ↦ if is_scriptlet line then procedural else hide_or_network line
    ]

abbrev pub add_network : NetRule → Lists → Lists
add_network (blocks r) l = record l { block_rules = l.block_rules ++ r ∷ [] }
add_network (excepts r) l = record l { exception_rules = l.exception_rules ++ r ∷ [] }
add_network skip l = skip_line l

abbrev pub add_hidden : Option (Scope × Text) → Lists → Lists
add_hidden none l = skip_line l
add_hidden (some ss) l = record l { cosmetic = push_selector ss.0 ss.1 l.cosmetic }

unfoldable pub add_line : LineKind → Lists → Lists
unfolding parse_cosmetic
add_line blank l = l
add_line too_long l = skip_line l
add_line procedural l = skip_line l
add_line (unhide selector) l = record l { cosmetic_exceptions = selector ∷ l.cosmetic_exceptions }
add_line (hide domains selector) l = add_hidden (parse_cosmetic domains selector) l
add_line (network line) l = add_network (parse_network line) l

unfoldable pub read_lines : Lists → List Text → Lists
unfolding classify_line add_line
read_lines l [] = l
read_lines l (raw ∷ raws) = read_lines (add_line (classify_line raw) l) raws

abbrev pub no_lists : Lists
no_lists = record {
  skipped = 0;
  cosmetic = [];
  cosmetic_exceptions = [];
  block_rules = [];
  exception_rules = [];
}

-- `chunks(n)`; the fuel is the length of the list, since each chunk takes one element at least.
unfoldable pub chunks : ℕ → ℕ → List Text → List (List Text)
chunks zero n xs = []
chunks (suc fuel) n [] = []
chunks (suc fuel) n (x ∷ xs) = take n (x ∷ xs) ∷ chunks fuel n (drop n (x ∷ xs))

abbrev pub hiding_rule : Scope → List Text → Rule
hiding_rule s chunk = record {
  trigger = record {
    url_filter = match_all;
    case_sensitive = false;
    resource_type = none;
    load_type = none;
    if_domain = s.0;
    unless_domain = unless_if_empty s.0 s.1;
  };
  action = css_display_none (join (b',' ∷ b' ' ∷ []) chunk);
}

-- The selectors of a scope that are hidden.
abbrev pub hidden_selectors : List Text → List Text → List Text
hidden_selectors exceptions selectors =
    dedup (sort (keep (λ s. not (is_among exceptions s)) selectors))

unfoldable pub scope_rules : List Text → Scope × List Text → List Rule
unfolding chunks
scope_rules exceptions e =
    let selectors = hidden_selectors exceptions e.1 in
    map (hiding_rule e.0) (chunks (length selectors) selector_chunk selectors)

unfoldable pub hiding_rules : List Text → List (Scope × List Text) → List Rule
unfolding scope_rules
hiding_rules exceptions [] = []
hiding_rules exceptions (e ∷ es) = scope_rules exceptions e ++ hiding_rules exceptions es

-- `Converted`, with the rules of which `json` is the serialization.
pub record Converted : Type 0 where
  pub rules : List Rule
  pub skipped : ℕ

unfoldable pub convert : List Text → Converted
unfolding read_lines hiding_rules
convert lines =
    let l = read_lines no_lists lines in
    record {
      rules = hiding_rules l.cosmetic_exceptions l.cosmetic ++ (l.block_rules ++ l.exception_rules);
      skipped = l.skipped;
    }
