-- ===== src/Abp/Network.antt =====
-- `parse_network` of crates/hwatud/src/abp.rs: the rule of one line that is not cosmetic.
pub mod Sound
use hwatu.Common.{
  ℕ, List, [], ◌∷◌, Bool, true, false, not, ◌&&◌, ◌||◌, Option, none, some, ltb, if◌then◌else◌,
  is_empty,
}
use hwatu.Common.Text.{Text, codes, is_some, strip_prefix, starts_with, ends_with_char, byte_len}
use hwatu.Abp.{Trigger, RuleAction, block, ignore_previous_rules, Rule, trim_matches, stripped_or}
use hwatu.Abp.Patterns.{pattern_to_regex, plain_domain}
use hwatu.Abp.Options.{
  NetOpts, default_opts, parse_options, resolve_types, split_options, unless_if_empty,
}

-- `NetRule`.
pub data NetRule : Type 0 where
  blocks excepts : Rule → NetRule
  skip : NetRule

abbrev pub is_raw_regex : Text → Bool
is_raw_regex line =
    ltb 1 (byte_len line) && starts_with (b'/' ∷ []) line && ends_with_char b'/' line

abbrev pub match_all : Text
match_all = b'.' ∷ b'*' ∷ []

-- The exception for a whole site.
abbrev pub site_exception : Text → Rule
site_exception domain = record {
  trigger = record {
    url_filter = match_all;
    case_sensitive = false;
    resource_type = none;
    load_type = none;
    if_domain = (b'*' ∷ domain) ∷ [];
    unless_domain = [];
  };
  action = ignore_previous_rules;
}

abbrev pub site_of : Bool → NetOpts → Text → Option Text
site_of exception opts pattern = if exception && opts.document then plain_domain pattern else none

abbrev pub has_scope : NetOpts → Bool
has_scope opts =
    not (is_empty opts.if_domain)
    || not (is_empty opts.unless_domain)
    || not (is_empty opts.types)
    || not (is_empty opts.neg_types)
    || is_some opts.load_type

abbrev pub bare_pattern : Text → Text
bare_pattern = trim_matches b'*'

-- A rule that would match everything, or whose type alone was widened.
abbrev pub is_too_wide : NetOpts → Text → Bool
is_too_wide opts pattern =
    is_empty (bare_pattern pattern) && (not (has_scope opts) || opts.broadened)

abbrev pub trigger_of : NetOpts → Text → Option (List Text) → Trigger
trigger_of opts regex types = record {
  url_filter = regex;
  case_sensitive = opts.case_sensitive;
  resource_type = types;
  load_type = opts.load_type;
  if_domain = opts.if_domain;
  unless_domain = unless_if_empty opts.if_domain opts.unless_domain;
}

abbrev pub ruled : Bool → Trigger → NetRule
ruled true trigger = excepts (record { trigger = trigger; action = ignore_previous_rules })
ruled false trigger = blocks (record { trigger = trigger; action = block })

-- No types are left where the negations cancelled everything.
abbrev pub with_types : Bool → NetOpts → Text → Option (List Text) → NetRule
with_types exception opts regex none = ruled exception (trigger_of opts regex none)
with_types exception opts regex (some []) = skip
with_types exception opts regex (some (t ∷ ts)) =
    ruled exception (trigger_of opts regex (some (t ∷ ts)))

-- The rest of `parse_network`, with the options read.
unfoldable pub rule_of : Bool → Text → NetOpts → NetRule
rule_of exception pattern opts = elim (site_of exception opts pattern) [
  | some domain ↦ excepts (site_exception domain)
  | none ↦ if is_too_wide opts pattern then skip else elim (pattern_to_regex pattern) [
    | none ↦ skip
    | some regex ↦ with_types exception opts regex (resolve_types opts)
  ]
]

abbrev pub options_of : Option Text → Option NetOpts
options_of none = some default_opts
options_of (some opts) = parse_options opts

unfoldable pub parse_filter : Bool → Text → NetRule
unfolding rule_of
parse_filter exception line =
    if is_raw_regex line
    then skip
    else let (pattern, opts) = split_options line in
      elim (options_of opts) [ none ↦ skip | some o ↦ rule_of exception pattern o ]

unfoldable pub parse_network : Text → NetRule
unfolding parse_filter
parse_network line =
    let (exception, rest) = stripped_or (strip_prefix (b'@' ∷ b'@' ∷ []) line) line in
    parse_filter exception rest
