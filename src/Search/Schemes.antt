-- ===== src/Search/Schemes.antt =====
-- What the checks for `://` are worth for the URLs that `url_for` makes. As in the source, nothing is
-- asked of what stands before it.
use hwatu.Common.{
  ℕ, ◌-◌, ◌≡◌, refl, sym, ap, ◌∙◌, List, [], ◌∷◌, ◌++◌, true, false, ◌&&◌, ◌||◌, Option, none, some,
  ◌==◌, if◌then◌else◌, is_empty, Bool-cases, Option-cases, inl, inr, ==_iff, subst, length, All,
  drop, &&-right,
}
use hwatu.Common.Text.{
  Text, codes, strip_prefix, split_once, split_once_by, contains, replace_from, is_whitespace,
  contains_char, lines, trim, eq_ignore_ascii_case,
}
use hwatu.Search.{
  engines, engine_named, resolve_engine, first_meaningful, parse_template, keyword_in, quickmark_in,
  fill_in, template_for, quickmark, keyword_template, by_keyword, url_for, is_blank, encode,
}

-- A text with `://` somewhere in it.
abbrev pub HasSeparator : Text → Type 0
HasSeparator t = (a : Text) × (b : Text) × (t ≡ a ++ (codes "://" ++ b))

pub strip_prefix_lem : (p s after : Text) → strip_prefix p s ≡ some after → s ≡ p ++ after
strip_prefix_lem [] s after h = cc
strip_prefix_lem (p ∷ ps) [] after h = cc
strip_prefix_lem (p ∷ ps) (c ∷ s) after h = elim (Bool-cases (p == c)) [
  | inl e ↦
      let same : p ≡ c = (==_iff p c).0 e in
      let branch : strip_prefix (p ∷ ps) (c ∷ s) ≡ strip_prefix ps s = rw e refl in
      let ih : s ≡ ps ++ after = strip_prefix_lem ps s after (sym branch ∙ h) in cc
  | inr e ↦ let branch : strip_prefix (p ∷ ps) (c ∷ s) ≡ none = rw e refl in cc
]

HasSeparator-cons : (c : ℕ) (t : Text) → HasSeparator t → HasSeparator (c ∷ t)
HasSeparator-cons c t (a, b, e) = (c ∷ a, b, ap (λ x. c ∷ x) e)

HasSeparator-append : (r t : Text) → HasSeparator t → HasSeparator (r ++ t)
HasSeparator-append [] t h = h
HasSeparator-append (c ∷ r) t h = HasSeparator-cons c (r ++ t) (HasSeparator-append r t h)

contains-later :
    (p s : Text) (c : ℕ) → strip_prefix p (c ∷ s) ≡ none → contains p (c ∷ s) ≡ contains p s
contains-later p s c h = elim (Option-cases (split_once p s)) [
  | inl e ↦ rw (split_once, h, e) refl
  | inr (ba, e) ↦ rw (split_once, h, e) refl
]

pub contains-HasSeparator : (t : Text) → contains (codes "://") t ≡ true → HasSeparator t
contains-HasSeparator [] h = cc
contains-HasSeparator (c ∷ s) h = elim (Option-cases (strip_prefix (codes "://") (c ∷ s))) [
  | inl e ↦
      HasSeparator-cons c s (contains-HasSeparator s (sym (contains-later (codes "://") s c e) ∙ h))
  | inr (after, e) ↦ ([], after, strip_prefix_lem (codes "://") (c ∷ s) after e)
]

replace_from-kept :
    (p r s : Text) (c : ℕ)
    → strip_prefix p (c ∷ s) ≡ none
    → replace_from 0 p r (c ∷ s) ≡ c ∷ replace_from 0 p r s
replace_from-kept p r s c h = rw (replace_from, h) refl

replace_from-matched :
    (p r s after : Text) (c : ℕ)
    → strip_prefix p (c ∷ s) ≡ some after
    → replace_from 0 p r (c ∷ s) ≡ r ++ replace_from (length p - 1) p r s
replace_from-matched p r s after c h = rw (replace_from, h) refl

strip_prefix-other :
    (p c : ℕ) (ps s : Text) → (p == c) ≡ false → strip_prefix (p ∷ ps) (c ∷ s) ≡ none
strip_prefix-other p c ps s h = rw h refl

strip_prefix-same :
    (p c : ℕ) (ps s : Text) → (p == c) ≡ true → strip_prefix (p ∷ ps) (c ∷ s) ≡ strip_prefix ps s
strip_prefix-same p c ps s h = rw h refl

-- A replaced `%s` leaves `://` where it is.
replace_from-HasSeparator :
    (r a b : Text) → HasSeparator (replace_from 0 (codes "%s") r (a ++ (codes "://" ++ b)))
replace_from-HasSeparator r [] b = ([], replace_from 0 (codes "%s") r b, refl)
replace_from-HasSeparator r (c ∷ []) b =
    let none_here : strip_prefix (codes "%s") (c ∷ codes "://" ++ b) ≡ none =
      elim (Bool-cases (b'%' == c)) [
        | inl e ↦ strip_prefix-same b'%' c (codes "s") (codes "://" ++ b) e
        | inr e ↦ strip_prefix-other b'%' c (codes "s") (codes "://" ++ b) e
      ] in
    subst HasSeparator (sym (replace_from-kept (codes "%s") r (codes "://" ++ b) c none_here))
      (c ∷ [], replace_from 0 (codes "%s") r b, refl)
replace_from-HasSeparator r (c ∷ d ∷ a) b =
    let url = a ++ (codes "://" ++ b) in
    let kept : strip_prefix (codes "%s") (c ∷ d ∷ url) ≡ none
        → HasSeparator (replace_from 0 (codes "%s") r (c ∷ d ∷ url)) =
      λ e. subst HasSeparator (sym (replace_from-kept (codes "%s") r (d ∷ url) c e)) (
        HasSeparator-cons c (replace_from 0 (codes "%s") r (d ∷ url))
          (replace_from-HasSeparator r (d ∷ a) b)) in
    elim (Bool-cases (b'%' == c)) [
      | inr e ↦ kept (strip_prefix-other b'%' c (codes "s") (d ∷ url) e)
      | inl e ↦
          let first = strip_prefix-same b'%' c (codes "s") (d ∷ url) e in
          elim (Bool-cases (b's' == d)) [
            | inr f ↦ kept (first ∙ strip_prefix-other b's' d [] url f)
            | inl f ↦
                let found = first ∙ strip_prefix-same b's' d [] url f in
                subst HasSeparator (sym (replace_from-matched (codes "%s") r (d ∷ url) url c found))
                  (HasSeparator-append r (replace_from 0 (codes "%s") r url)
                    (replace_from-HasSeparator r a b))
          ]
    ]

fill_in-HasSeparator : (t q : Text) → HasSeparator t → HasSeparator (fill_in t q)
fill_in-HasSeparator t q (a, b, e) =
    subst (λ x. HasSeparator (fill_in x q)) (sym e) (replace_from-HasSeparator (encode q) a b)

engine_named-HasSeparator :
    (spec : Text) (es : List (Text × Text)) (t : Text)
    → All (λ e. HasSeparator e.1) es
    → engine_named spec es ≡ some t
    → HasSeparator t
engine_named-HasSeparator spec [] t hs h = cc
engine_named-HasSeparator spec ((n, u) ∷ es) t (first, hs) h =
    elim (Bool-cases (eq_ignore_ascii_case n spec)) [
      | inl e ↦
          let found : some u ≡ some t = rw e at h in
          let same : u ≡ t = cc in subst HasSeparator same first
      | inr e ↦ engine_named-HasSeparator spec es t hs (rw e at h)
    ]

https : (b : Text) → HasSeparator (codes "https://" ++ b)
https b = (codes "https", b, refl)

engines-HaveSeparator : All (λ e. HasSeparator e.1) engines
engines-HaveSeparator =
    let brave_on : All (λ e. HasSeparator e.1) (drop 3 engines) = (
      https (codes "search.brave.com/search?q=%s"),
      (
        https (codes "www.startpage.com/sp/search?query=%s"),
        (https (codes "kagi.com/search?q=%s"), (https (codes "www.ecosia.org/search?q=%s"), tt)),
      ),
    ) in
    (
      https (codes "duckduckgo.com/?q=%s"),
      (
        https (codes "www.google.com/search?q=%s"),
        (https (codes "www.bing.com/search?q=%s"), brave_on),
      ),
    )

-- A specification that is not an engine's name.
custom-HasSeparator :
    (spec t : Text)
    → (if contains (codes "%s") spec && contains (codes "://") spec then some spec else none)
      ≡ some t
    → HasSeparator t
custom-HasSeparator spec t h =
    elim (Bool-cases (contains (codes "%s") spec && contains (codes "://") spec)) [
      | inr e ↦ let nothing : none ≡ some t = rw e at h in cc
      | inl e ↦
          let found : some spec ≡ some t = rw e at h in
          let same : spec ≡ t = cc in
          subst HasSeparator same (
            contains-HasSeparator spec
              (&&-right (contains (codes "%s") spec) (contains (codes "://") spec) e))
    ]

resolved-HasSeparator :
    (spec t : Text) (named : Option Text)
    → engine_named spec engines ≡ named
    → (elim named [
      | some u ↦ some u
      | none ↦ if contains (codes "%s") spec && contains (codes "://") spec then some spec else none
    ])
      ≡ some t
    → HasSeparator t
resolved-HasSeparator spec t none e h = custom-HasSeparator spec t h
resolved-HasSeparator spec t (some u) e h =
    engine_named-HasSeparator spec engines t engines-HaveSeparator (e ∙ h)

resolve_engine-HasSeparator : (spec t : Text) → resolve_engine spec ≡ some t → HasSeparator t
unfolding resolve_engine
resolve_engine-HasSeparator spec t h =
    resolved-HasSeparator spec t (engine_named spec engines) refl h

parse_template-HasSeparator : (conf t : Text) → parse_template conf ≡ some t → HasSeparator t
unfolding parse_template
parse_template-HasSeparator conf t h = elim (Option-cases (first_meaningful (lines conf))) [
  | inl e ↦ let nothing : none ≡ some t = rw (e, parse_template) at h in cc
  | inr (line, e) ↦ elim (Bool-cases (contains_char is_whitespace line)) [
    | inl w ↦ let nothing : none ≡ some t = rw (e, w, parse_template) at h in cc
    | inr w ↦ resolve_engine-HasSeparator line t (rw (e, w, parse_template) at h)
  ]
]

keyword_in-HasSeparator :
    (keyword t : Text) (ls : List Text) → keyword_in keyword ls ≡ some t → HasSeparator t
unfolding keyword_in
keyword_in-HasSeparator keyword t [] h = cc
keyword_in-HasSeparator keyword t (l ∷ ls) h =
    let rest = keyword_in-HasSeparator keyword t ls in
    elim (Bool-cases (is_blank (trim l))) [
      | inl b ↦ rest (rw b at h)
      | inr b ↦ elim (Option-cases (split_once_by is_whitespace (trim l))) [
        | inl e ↦ rest (rw (b, e) at h)
        | inr ((n, spec), e) ↦ elim (Bool-cases (eq_ignore_ascii_case n keyword)) [
          | inl s ↦ resolve_engine-HasSeparator (trim spec) t (rw (b, e, s) at h)
          | inr s ↦ rest (rw (b, e, s) at h)
        ]
      ]
    ]

quickmark_in-HasSeparator :
    (n t : Text) (ls : List Text) → quickmark_in n ls ≡ some t → HasSeparator t
unfolding quickmark_in
quickmark_in-HasSeparator n t [] h = cc
quickmark_in-HasSeparator n t (l ∷ ls) h =
    let rest = quickmark_in-HasSeparator n t ls in
    elim (Bool-cases (is_blank (trim l))) [
      | inl b ↦ rest (rw b at h)
      | inr b ↦ elim (Option-cases (split_once_by is_whitespace (trim l))) [
        | inl e ↦ rest (rw (b, e) at h)
        | inr ((mark, url), e) ↦ elim (Bool-cases (eq_ignore_ascii_case mark n)) [
          | inr s ↦ rest (rw (b, e, s) at h)
          | inl s ↦ elim (Bool-cases (contains (codes "://") (trim url))) [
            | inr u ↦ rest (rw (b, e, s, u) at h)
            | inl u ↦
                let found : some (trim url) ≡ some t = rw (b, e, s, u) at h in
                let same : trim url ≡ t = cc in
                subst HasSeparator same (contains-HasSeparator (trim url) u)
          ]
        ]
      ]
    ]

template_for-HasSeparator : (conf : Option Text) → HasSeparator (template_for conf)
template_for-HasSeparator none = https (codes "duckduckgo.com/?q=%s")
template_for-HasSeparator (some conf) = elim (Option-cases (parse_template conf)) [
  | inl e ↦ rw (e, template_for) (https (codes "duckduckgo.com/?q=%s"))
  | inr (t, e) ↦ rw (e, template_for) (parse_template-HasSeparator conf t e)
]

keyword_template-HasSeparator :
    (conf : Option Text) (keyword t : Text)
    → keyword_template conf keyword ≡ some t
    → HasSeparator t
keyword_template-HasSeparator none keyword t h = cc
keyword_template-HasSeparator (some conf) keyword t h =
    keyword_in-HasSeparator keyword t (lines conf) h

quickmark-HasSeparator :
    (marks : Option Text) (n t : Text) → quickmark marks n ≡ some t → HasSeparator t
quickmark-HasSeparator none n t h = cc
quickmark-HasSeparator (some marks) n t h =
    elim (Bool-cases (is_empty n || contains_char is_whitespace n)) [
      | inl e ↦ let nothing : none ≡ some t = rw e at h in cc
      | inr e ↦ quickmark_in-HasSeparator n t (lines marks) (rw e at h)
    ]

by_keyword-HasSeparator :
    (conf : Option Text) (query t : Text) → by_keyword conf query ≡ some t → HasSeparator t
by_keyword-HasSeparator conf query t h = elim (Option-cases (split_once_by is_whitespace query)) [
  | inl e ↦ let nothing : none ≡ some t = rw (e, by_keyword) at h in cc
  | inr ((keyword, rest), e) ↦ elim (Option-cases (keyword_template conf keyword)) [
    | inl f ↦ let nothing : none ≡ some t = rw (e, f, by_keyword) at h in cc
    | inr (u, f) ↦
        let found : some (fill_in u (trim rest)) ≡ some t = rw (e, f, by_keyword) at h in
        let same : fill_in u (trim rest) ≡ t = cc in
        subst HasSeparator same
          (fill_in-HasSeparator u (trim rest) (keyword_template-HasSeparator conf keyword u f))
  ]
]

-- Whatever the two files say and whatever is searched for, the URL has `://` in it.
pub url_for-HasSeparator :
    (conf marks : Option Text) (input : Text) → HasSeparator (url_for conf marks input)
unfolding url_for
url_for-HasSeparator conf marks input =
    let query = trim input in
    elim (Option-cases (quickmark marks query)) [
      | inr (url, e) ↦ rw (url_for, e) (quickmark-HasSeparator marks query url e)
      | inl e ↦ elim (Option-cases (by_keyword conf query)) [
        | inr (url, f) ↦ rw (url_for, e, f) (by_keyword-HasSeparator conf query url f)
        | inl f ↦
            rw (url_for, e, f)
              (fill_in-HasSeparator (template_for conf) query (template_for-HasSeparator conf))
      ]
    ]
