-- ===== src/Abp/Tests.antt =====
-- Concrete filters.
use hwatu.Common.{◌≡◌, refl, List, [], ◌∷◌, none, some, map}
use hwatu.Common.Text.{Text, codes}
use hwatu.Abp.{Rule, block, ignore_previous_rules, css_display_none}
use hwatu.Abp.Patterns.{pattern_to_regex, translate}
use hwatu.Abp.Patterns.Meaning.{
  anything, char, read_regex, said_behind, said_from_start, said, meaning, pattern_to_regex-meaning,
}
use hwatu.Abp.Options.{
  parse_options, parse_each, parse_option, mapped_type, other_option, resolve_types, split_options,
}
use hwatu.Abp.Network.{blocks, skip, parse_network, parse_filter, rule_of}
use hwatu.Abp.Convert.{
  convert, read_lines, classify_line, add_line, parse_cosmetic, is_procedural, hiding_rules,
  scope_rules, chunks,
}

-- `||ad.io^`.
translates_anchor :
    pattern_to_regex (codes "||ad.io^")
    ≡ some (codes "^[htpsw]+:\\/\\/([a-z0-9_-]+\\.)*ad\\.io[/:&?]?")
unfolding pattern_to_regex translate
translates_anchor = refl

refuses_interior_pipe : pattern_to_regex (codes "a|b") ≡ none
unfolding pattern_to_regex translate
refuses_interior_pipe = refl

translated : pattern_to_regex (codes "/ad/*") ≡ some (codes "\\/ad\\/.*")
unfolding pattern_to_regex translate
translated = refl

pattern_to_regex-meaning_example :
    read_regex 0 (codes "\\/ad\\/.*")
    ≡ some (char b'/' ∷ char b'a' ∷ char b'd' ∷ char b'/' ∷ anything ∷ [])
unfolding meaning said said_from_start said_behind
pattern_to_regex-meaning_example =
    pattern_to_regex-meaning (codes "/ad/*") (codes "\\/ad\\/.*") translated

-- An option-only rule that was widened is skipped.
skips_widened : parse_network (codes "*$ping,third-party") ≡ skip
unfolding parse_network parse_filter rule_of split_options parse_options parse_each parse_option
    mapped_type other_option
skips_widened = refl

-- A lone anchor is no star, and blocks every address.
blocks_everything :
    (r : Rule) × (parse_network (codes "|") ≡ blocks r)
    × (r.trigger.url_filter ≡ codes "^")
    × (r.trigger.resource_type ≡ none)
unfolding parse_network parse_filter rule_of split_options resolve_types pattern_to_regex translate
blocks_everything = (_, refl, refl, refl)

abbrev small_list : List Text
small_list =
    codes "! comment"
    ∷ codes "@@||ok.io^$script"
    ∷ codes "||ad.io^"
    ∷ codes "##.banner"
    ∷ codes "##.promo"
    ∷ codes "ok.io#@#.promo"
    ∷ codes "##.x:has-text(y)"
    ∷ []

converts_small_list :
    map (λ (r : Rule). r.action) (convert small_list).rules
    ≡ css_display_none (codes ".banner") ∷ block ∷ ignore_previous_rules ∷ []
unfolding convert read_lines classify_line add_line parse_cosmetic is_procedural hiding_rules
    scope_rules chunks parse_network parse_filter rule_of split_options parse_options parse_each
    parse_option mapped_type other_option resolve_types pattern_to_regex translate
converts_small_list = refl
