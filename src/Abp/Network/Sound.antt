-- ===== src/Abp/Network/Sound.antt =====
-- What every rule of `parse_network` keeps of the contract of content blockers.
use hwatu.Common.{
  ◌≡◌, refl, List, [], ◌∷◌, Bool, true, false, Option, none, some, ◌⊎◌, inl, inr, ◌≢◌, Bool-cases,
  Option-cases, arith,
}
use hwatu.Common.Text.{Text, strip_prefix}
use hwatu.Abp.{block, ignore_previous_rules, Rule, stripped_or}
use hwatu.Abp.Patterns.{pattern_to_regex}
use hwatu.Abp.Patterns.Ascii.{IsFilter, pattern_to_regex-IsFilter}
use hwatu.Abp.Options.{NetOpts, resolve_types, split_options, unless_if_empty}
use hwatu.Abp.Network.{
  NetRule, blocks, excepts, skip, is_raw_regex, match_all, site_of, is_too_wide, trigger_of, ruled,
  with_types, rule_of, options_of, parse_filter, parse_network,
}

-- The filter is ASCII and not empty, a list of types is not empty, and the rule does not carry both
-- keys for domains.
pub record IsCompilable (r : Rule) : Type 0 where
  pub filter : IsFilter r.trigger.url_filter
  pub typed : r.trigger.resource_type ≢ some []
  pub one_scope : (r.trigger.if_domain ≡ []) ⊎ (r.trigger.unless_domain ≡ [])

-- A rule does what its kind says.
abbrev pub IsOfKind : NetRule → Type 0
IsOfKind (blocks r) = (r.action ≡ block) × IsCompilable r
IsOfKind (excepts r) = (r.action ≡ ignore_previous_rules) × IsCompilable r
IsOfKind skip = Unit

pub unless_if_empty_one : (i u : List Text) → (i ≡ []) ⊎ (unless_if_empty i u ≡ [])
unless_if_empty_one [] u = inl refl
unless_if_empty_one (d ∷ ds) u = inr refl

pub match_all-IsFilter : IsFilter match_all
match_all-IsFilter = record { filled = omega arith; ascii = refl }

ruled-IsOfKind :
    (exception : Bool) (opts : NetOpts) (regex : Text) (types : Option (List Text))
    → IsFilter regex
    → types ≢ some []
    → IsOfKind (ruled exception (trigger_of opts regex types))
ruled-IsOfKind true opts regex types f t = (
  refl,
  record {
    filter = f;
    typed = t;
    one_scope = unless_if_empty_one opts.if_domain opts.unless_domain;
  },
)
ruled-IsOfKind false opts regex types f t = (
  refl,
  record {
    filter = f;
    typed = t;
    one_scope = unless_if_empty_one opts.if_domain opts.unless_domain;
  },
)

with_types-IsOfKind :
    (exception : Bool) (opts : NetOpts) (regex : Text) (types : Option (List Text))
    → IsFilter regex
    → IsOfKind (with_types exception opts regex types)
with_types-IsOfKind exception opts regex none f =
    ruled-IsOfKind exception opts regex none f (λ h. cc)
with_types-IsOfKind exception opts regex (some []) f = tt
with_types-IsOfKind exception opts regex (some (t ∷ ts)) f =
    ruled-IsOfKind exception opts regex (some (t ∷ ts)) f (λ h. cc)

rule_of-IsOfKind :
    (exception : Bool) (pattern : Text) (opts : NetOpts) → IsOfKind (rule_of exception pattern opts)
unfolding rule_of
rule_of-IsOfKind exception pattern opts = elim (Option-cases (site_of exception opts pattern)) [
  | inr (domain, e) ↦
      rw (e, rule_of)
        (refl, record { filter = match_all-IsFilter; typed = λ h. cc; one_scope = inr refl })
  | inl e ↦ elim (Bool-cases (is_too_wide opts pattern)) [
    | inl wide ↦ rw (e, rule_of) (rw wide tt)
    | inr narrow ↦ elim (Option-cases (pattern_to_regex pattern)) [
      | inl n ↦ rw (e, rule_of) (rw (narrow, n) tt)
      | inr (regex, y) ↦
          rw (e, rule_of)
            (rw (narrow, y)
              (with_types-IsOfKind exception opts regex (resolve_types opts)
                (pattern_to_regex-IsFilter pattern regex y)))
    ]
  ]
]

parse_filter-IsOfKind : (exception : Bool) (line : Text) → IsOfKind (parse_filter exception line)
unfolding parse_filter
parse_filter-IsOfKind exception line = elim (Bool-cases (is_raw_regex line)) [
  | inl raw ↦ rw (raw, parse_filter) tt
  | inr text ↦ elim (Option-cases (options_of (split_options line).1)) [
    | inl e ↦ rw (text, parse_filter) (rw e tt)
    | inr (o, e) ↦
        rw (text, parse_filter) (rw e (rule_of-IsOfKind exception (split_options line).0 o))
  ]
]

pub parse_network-IsOfKind : (line : Text) → IsOfKind (parse_network line)
unfolding parse_network
parse_network-IsOfKind line =
    let s = stripped_or (strip_prefix (b'@' ∷ b'@' ∷ []) line) line in parse_filter-IsOfKind s.0 s.1
