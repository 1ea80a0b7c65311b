-- ===== src/Abp/Convert/Selectors.antt =====
-- The selectors that the loop over the lines gathers, and those that it excepts.
use hwatu.Common.{
  true, ◌&&◌, sym, subst, ◌≡◌, refl, ap, List, [], ◌∷◌, Bool, false, not, ◌||◌, Option, none, some,
  arith, Bool-cases, inl, inr, All, All-append, any,
}
use hwatu.Common.Text.{Text, text_eq, text_eq_refl}
use hwatu.Abp.{is_among}
use hwatu.Abp.Network.{NetRule, blocks, excepts, skip, parse_network}
use hwatu.Abp.Convert.{
  Scope, Lists, LineKind, blank, too_long, procedural, unhide, hide, network, is_procedural,
  push_selector, scope_eq, scope_le, classify_line, parse_cosmetic, add_network, add_hidden,
  add_line, read_lines,
}

-- Whether a line takes the hiding of a selector back.
abbrev pub unhides : LineKind → Text → Bool
unhides (unhide selector) s = text_eq selector s
unhides _ s = false

abbrev pub is_unhidden : List Text → Text → Bool
is_unhidden lines s = any (λ raw. unhides (classify_line raw) s) lines

-- Whether a line hides a selector that can be expressed.
abbrev pub hides : LineKind → Text → Bool
hides (hide domains selector) s = text_eq selector s && not (is_procedural selector)
hides _ s = false

abbrev pub is_hidden : List Text → Text → Bool
is_hidden lines s = any (λ raw. hides (classify_line raw) s) lines

-- A selector that some line of the list hides and none unhides.
abbrev pub IsHidden : List Text → Text → Type 0
IsHidden lines s = (is_hidden lines s ≡ true) × (is_unhidden lines s ≡ false)

-- All selectors that were gathered pass a test.
abbrev pub AllSelectors : (Text → Type 0) → List (Scope × List Text) → Type 0
AllSelectors Q es = All (λ (e : Scope × List Text). All Q e.1) es

or_later : (p q : Bool) → q ≡ true → (p || q) ≡ true
or_later true q h = refl
or_later false q h = h

abbrev or_selector : Text → Option (Scope × Text) → Text
or_selector s none = s
or_selector s (some found) = found.1

module _ (Q : Text → Type 0) where
  push_selector-AllSelectors :
      (scope : Scope) (sel : Text) (es : List (Scope × List Text))
      → Q sel
      → AllSelectors Q es
      → AllSelectors Q (push_selector scope sel es)
  push_selector-AllSelectors scope sel [] q h = ((q, tt), tt)
  push_selector-AllSelectors scope sel (e ∷ es) q h = elim (Bool-cases (scope_eq scope e.0)) [
    | inl same ↦ rw same (All-append Q e.1 (sel ∷ []) h.0 (q, tt), h.1)
    | inr other ↦ elim (Bool-cases (scope_le scope e.0)) [
      | inl before ↦ rw (other, before) ((q, tt), h)
      | inr behind ↦ rw (other, behind) (h.0, push_selector-AllSelectors scope sel es q h.1)
    ]
  ]

  parse_cosmetic-some :
      (domains selector : Text) (found : Scope × Text)
      → parse_cosmetic domains selector ≡ some found
      → (is_procedural selector ≡ false) × (selector ≡ found.1)
  unfolding parse_cosmetic
  parse_cosmetic-some domains selector found h = elim (Bool-cases (is_procedural selector)) [
    | inl e ↦ cc (rw (e, parse_cosmetic) at h)
    | inr e ↦ (e, ap (or_selector selector) (rw (e, parse_cosmetic) at h))
  ]

  add_hidden-AllSelectors :
      (o : Option (Scope × Text)) (l : Lists)
      → ((found : Scope × Text) → o ≡ some found → Q found.1)
      → AllSelectors Q l.cosmetic
      → AllSelectors Q (add_hidden o l).cosmetic
  add_hidden-AllSelectors none l q h = h
  add_hidden-AllSelectors (some found) l q h =
      push_selector-AllSelectors found.0 found.1 l.cosmetic (q found refl) h

  add_network_cosmetic : (r : NetRule) (l : Lists) → (add_network r l).cosmetic ≡ l.cosmetic
  add_network_cosmetic (blocks r) l = refl
  add_network_cosmetic (excepts r) l = refl
  add_network_cosmetic skip l = refl

  add_line-AllSelectors :
      (k : LineKind) (l : Lists)
      → ((s : Text) → hides k s ≡ true → Q s)
      → AllSelectors Q l.cosmetic
      → AllSelectors Q (add_line k l).cosmetic
  unfolding add_line
  add_line-AllSelectors blank l q h = h
  add_line-AllSelectors too_long l q h = h
  add_line-AllSelectors procedural l q h = h
  add_line-AllSelectors (unhide s) l q h = h
  add_line-AllSelectors (network line) l q h =
      subst (AllSelectors Q) (sym (add_network_cosmetic (parse_network line) l)) h
  add_line-AllSelectors (hide d sel) l q h =
      add_hidden-AllSelectors (parse_cosmetic d sel) l
        (λ found e.
          let (expressible, same) = parse_cosmetic-some d sel found e in
          subst Q same (q sel (rw (text_eq_refl sel, expressible) refl)))
        h

  pub read_lines-AllSelectors :
      (raws : List Text) (l : Lists)
      → ((s : Text) → is_hidden raws s ≡ true → Q s)
      → AllSelectors Q l.cosmetic
      → AllSelectors Q (read_lines l raws).cosmetic
  unfolding read_lines
  read_lines-AllSelectors [] l q h = h
  read_lines-AllSelectors (raw ∷ raws) l q h =
      read_lines-AllSelectors raws (add_line (classify_line raw) l)
        (λ s e. q s (or_later (hides (classify_line raw) s) (is_hidden raws s) e))
        (add_line-AllSelectors (classify_line raw) l (λ s e. q s (rw e refl)) h)

-- The excepted selectors are those that some line unhides.
add_network_exceptions :
    (r : NetRule) (l : Lists) → (add_network r l).cosmetic_exceptions ≡ l.cosmetic_exceptions
add_network_exceptions (blocks r) l = refl
add_network_exceptions (excepts r) l = refl
add_network_exceptions skip l = refl

add_hidden_exceptions :
    (o : Option (Scope × Text)) (l : Lists)
    → (add_hidden o l).cosmetic_exceptions ≡ l.cosmetic_exceptions
add_hidden_exceptions none l = refl
add_hidden_exceptions (some ss) l = refl

add_line_exceptions :
    (k : LineKind) (l : Lists) (s : Text)
    → is_among (add_line k l).cosmetic_exceptions s
      ≡ (unhides k s || is_among l.cosmetic_exceptions s)
unfolding add_line
add_line_exceptions blank l s = refl
add_line_exceptions too_long l s = refl
add_line_exceptions procedural l s = refl
add_line_exceptions (unhide t) l s = refl
add_line_exceptions (hide d t) l s =
    ap (λ e. is_among e s) (add_hidden_exceptions (parse_cosmetic d t) l)
add_line_exceptions (network line) l s =
    ap (λ e. is_among e s) (add_network_exceptions (parse_network line) l)

pub read_lines_exceptions :
    (raws : List Text) (l : Lists) (s : Text)
    → is_among (read_lines l raws).cosmetic_exceptions s
      ≡ (is_unhidden raws s || is_among l.cosmetic_exceptions s)
unfolding read_lines
read_lines_exceptions [] l s = refl
read_lines_exceptions (raw ∷ raws) l s =
    let l' = add_line (classify_line raw) l in
    ground (arith, read_lines_exceptions raws l' s, add_line_exceptions (classify_line raw) l s)
