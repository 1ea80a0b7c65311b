-- ===== src/Abp/Patterns/Meaning.antt =====
-- What a `url-filter` says, read as a regular expression, against what the pattern says.
use hwatu.Common.{
  ℕ, zero, suc, ◌≡◌, refl, sym, ap, ◌&&◌, ◌∙◌, List, [], ◌∷◌, ◌++◌, map, Bool, true, false, ◌||◌,
  Option, none, some, ◌==◌, if◌then◌else◌, drop, arith, Bool-cases, Option-cases, inl, inr,
  append_assoc,
}
use hwatu.Common.Text.{Text, strip_suffix, starts_with, contains_char}
use hwatu.Abp.{stripped_or}
use hwatu.Abp.Patterns.{
  separator_class, domain_anchor, backslash, is_special, translate_char, joined, translate,
  start_of, end_of, or_anything, anchors, assembled, pattern_to_regex,
}

-- The parts of the regular expressions that filters are made of. `sub_domain` is the scheme of an
-- address and any chain of subdomains.
pub data Piece : Type 0 where
  anything separator sub_domain the_start the_end : Piece
  char : ℕ → Piece

abbrev pub escaped : Text → Option (Piece × ℕ)
escaped [] = none
escaped (d ∷ s) = some (char d, 1)

-- A domain anchor behind its `^`.
abbrev pub scheme_and_domains : Text
scheme_and_domains = drop 1 domain_anchor

-- The piece that starts with a character, and how many of the following characters belong to it. A
-- character with a meaning of its own in regular expressions is no piece unless it is escaped.
abbrev pub piece_at : ℕ → Text → Option (Piece × ℕ)
piece_at c s =
    if c == backslash
    then escaped s
    else if starts_with (b'.' ∷ b'*' ∷ []) (c ∷ s)
    then some (anything, 1)
    else if starts_with separator_class (c ∷ s)
    then some (separator, 6)
    else if starts_with scheme_and_domains (c ∷ s)
    then some (sub_domain, 28)
    else if c == b'^'
    then some (the_start, 0)
    else if c == b'$'
    then some (the_end, 0)
    else if is_special c || (c == b'*') || (c == b'|')
    then none
    else some (char c, 0)

abbrev pub after_piece : Piece → Option (List Piece) → Option (List Piece)
after_piece p none = none
after_piece p (some ps) = some (p ∷ ps)

-- The pieces of a regular expression; the number is what is left of the last piece.
unfoldable pub read_regex : ℕ → Text → Option (List Piece)
read_regex k [] = some []
read_regex (suc k) (c ∷ s) = read_regex k s
read_regex zero (c ∷ s) = elim (piece_at c s) [
  | none ↦ none
  | some pn ↦ after_piece pn.0 (read_regex pn.1 s)
]

-- What a pattern says: `*` is anything, `^` a separator, any other character itself.
abbrev pub piece_of : ℕ → Piece
piece_of c = if c == b'*' then anything else if c == b'^' then separator else char c

abbrev pub start_pieces : Bool → Bool → List Piece
start_pieces true start_anchored = the_start ∷ sub_domain ∷ []
start_pieces false true = the_start ∷ []
start_pieces false false = []

abbrev pub end_pieces : Bool → List Piece
end_pieces true = the_end ∷ []
end_pieces false = []

abbrev pub or_any_piece : List Piece → List Piece
or_any_piece [] = anything ∷ []
or_any_piece (p ∷ ps) = p ∷ ps

-- What a pattern says, read from left to right. Behind the start: a final `|` is the end of the
-- address.
unfoldable pub said_behind : Text → List Piece
said_behind [] = []
said_behind (c ∷ []) = if c == b'|' then the_end ∷ [] else piece_of c ∷ []
said_behind (c ∷ d ∷ s) = piece_of c ∷ said_behind (d ∷ s)

-- A first `|` is the start of the address.
unfoldable pub said_from_start : Text → List Piece
unfolding said_behind
said_from_start [] = []
said_from_start (c ∷ s) = if b'|' == c then the_start ∷ said_behind s else said_behind (c ∷ s)

-- A first `||` is the start of a domain; what says nothing is anything.
unfoldable pub said : Text → List Piece
unfolding said_from_start
said [] = []
said (c ∷ []) = said_from_start (c ∷ [])
said (c ∷ d ∷ s) =
    if b'|' == c && b'|' == d
    then the_start ∷ sub_domain ∷ said_behind s
    else said_from_start (c ∷ d ∷ s)

unfoldable pub meaning : Text → List Piece
unfolding said
meaning pattern = or_any_piece (said pattern)

abbrev ended : Text → Bool × Text
ended s = stripped_or (strip_suffix (b'|' ∷ []) s) s

-- The pieces of a text whose end may be marked.
abbrev pieces_behind : Bool × Text → List Piece
pieces_behind (e, rest) = map piece_of rest ++ end_pieces e

strip_suffix-cons :
    (c d : ℕ) (s : Text)
    → strip_suffix (b'|' ∷ []) (c ∷ d ∷ s)
      ≡ elim (strip_suffix (b'|' ∷ []) (d ∷ s)) [ none ↦ none | some b ↦ some (c ∷ b) ]
strip_suffix-cons c d s = elim (Bool-cases (c == b'|')) [ inl e ↦ rw e refl | inr e ↦ rw e refl ]

pieces_behind_one :
    (c : ℕ) (o : Option Text) (t : Text)
    → pieces_behind (stripped_or (elim o [ none ↦ none | some b ↦ some (c ∷ b) ]) (c ∷ t))
      ≡ piece_of c ∷ pieces_behind (stripped_or o t)
pieces_behind_one c none t = refl
pieces_behind_one c (some b) t = refl

said_behind-pieces : (s : Text) → said_behind s ≡ pieces_behind (ended s)
unfolding said_behind
said_behind-pieces [] = refl
said_behind-pieces (c ∷ []) = elim (Bool-cases (c == b'|')) [
  | inl e ↦ rw e refl
  | inr e ↦ rw e refl
]
said_behind-pieces (c ∷ d ∷ s) =
    ap (λ ps. piece_of c ∷ ps) (said_behind-pieces (d ∷ s))
    ∙ sym (
        ap (λ o. pieces_behind (stripped_or o (c ∷ d ∷ s))) (strip_suffix-cons c d s)
        ∙ pieces_behind_one c (strip_suffix (b'|' ∷ []) (d ∷ s)) (d ∷ s))

abbrev anchored_pieces : (Bool × Bool × Bool) × Text → List Piece
anchored_pieces ((d, s, e), rest) = start_pieces d s ++ (map piece_of rest ++ end_pieces e)

said-anchors : (pattern : Text) → said pattern ≡ anchored_pieces (anchors pattern)
unfolding said_from_start said
said-anchors [] = refl
said-anchors (c ∷ []) = elim (Bool-cases (b'|' == c)) [
  | inl e ↦ rw (e, e) refl
  | inr e ↦ rw (e, e) (said_behind-pieces (c ∷ []))
]
said-anchors (c ∷ d ∷ s) = elim (Bool-cases (b'|' == c)) [
  | inr e ↦ rw (e, e) (said_behind-pieces (c ∷ d ∷ s))
  | inl e ↦ elim (Bool-cases (b'|' == d)) [
    | inl f ↦ rw (e, f) (ap (λ ps. the_start ∷ sub_domain ∷ ps) (said_behind-pieces s))
    | inr f ↦ rw (e, f, e) (ap (λ ps. the_start ∷ ps) (said_behind-pieces (d ∷ s)))
  ]
]

plain_piece :
    (c : ℕ) (u : Text)
    → is_special c ≡ false
    → (c == b'*') ≡ false
    → (c == b'^') ≡ false
    → (c == b'|') ≡ false
    → piece_at c u ≡ some (char c, 0)
plain_piece c u special star hat pipe = ground arith

read_plain :
    (c : ℕ) (u : Text)
    → piece_at c u ≡ some (char c, 0)
    → read_regex 0 (c ∷ u) ≡ after_piece (char c) (read_regex 0 u)
unfolding read_regex
read_plain c u h = rw (h, read_regex) refl

read_escaped :
    (c : ℕ) (u : Text) → read_regex 0 (backslash ∷ c ∷ u) ≡ after_piece (char c) (read_regex 0 u)
unfolding read_regex
read_escaped c u = refl

read_star : (u : Text) → read_regex 0 (b'.' ∷ b'*' ∷ u) ≡ after_piece anything (read_regex 0 u)
unfolding read_regex
read_star u = refl

read_separator :
    (u : Text) → read_regex 0 (separator_class ++ u) ≡ after_piece separator (read_regex 0 u)
unfolding read_regex
read_separator u = refl

read_char :
    (c : ℕ) (t u : Text)
    → translate_char c ≡ some t
    → (c == b'|') ≡ false
    → read_regex 0 (t ++ u) ≡ after_piece (piece_of c) (read_regex 0 u)
unfolding read_regex
read_char c t u h pipe = elim (Bool-cases (c == b'*')) [
  | inl star ↦ let e : t ≡ b'.' ∷ b'*' ∷ [] = ground arith in rw e (rw star (read_star u))
  | inr star ↦ elim (Bool-cases (c == b'^')) [
    | inl hat ↦
        let e : t ≡ separator_class = ground arith in rw e (rw (star, hat) (read_separator u))
    | inr hat ↦ elim (Bool-cases (is_special c)) [
      | inl special ↦
          let e : t ≡ backslash ∷ c ∷ [] = ground arith in rw e (rw (star, hat) (read_escaped c u))
      | inr plain ↦
          let e : t ≡ c ∷ [] = ground arith in
          rw e (rw (star, hat) (read_plain c u (plain_piece c u plain star hat pipe)))
    ]
  ]
]

abbrev prepend : List Piece → Option (List Piece) → Option (List Piece)
prepend [] r = r
prepend (p ∷ ps) r = after_piece p (prepend ps r)

prepend-some : (ps qs : List Piece) → prepend ps (some qs) ≡ some (ps ++ qs)
prepend-some [] qs = refl
prepend-some (p ∷ ps) qs = rw (prepend-some ps qs) refl

pub joined-some :
    (x y : Option Text) (t : Text)
    → joined x y ≡ some t
    → (a : Text) × (b : Text) × (x ≡ some a) × (y ≡ some b) × (t ≡ a ++ b)
joined-some none y t h = cc
joined-some (some a) none t h = cc
joined-some (some a) (some b) t h = (a, b, refl, refl, cc)

read_body :
    (s t u : Text)
    → translate s ≡ some t
    → contains_char (λ c. c == b'|') s ≡ false
    → read_regex 0 (t ++ u) ≡ prepend (map piece_of s) (read_regex 0 u)
unfolding translate
read_body [] t u h pipe = let e : t ≡ [] = cc in rw e refl
read_body (c ∷ s) t u h pipe =
    let (a, b, first, rest, e) = joined-some (translate_char c) (translate s) t h in
    rw e (
      rw (append_assoc a b u) (
        read_char c a (b ++ u) first (ground arith)
        ∙ ap (after_piece (piece_of c)) (read_body s b u rest (ground arith))))

read_start :
    (d s : Bool) (u : Text)
    → read_regex 0 (start_of d s ++ u) ≡ prepend (start_pieces d s) (read_regex 0 u)
unfolding read_regex
read_start true s u = refl
read_start false true u = refl
read_start false false u = refl

read_end : (e : Bool) → read_regex 0 (end_of e) ≡ some (end_pieces e)
unfolding read_regex
read_end true = refl
read_end false = refl

pub assembled-some :
    (d s e : Bool) (x : Option Text) (r : Text)
    → assembled (d, s, e) x ≡ some r
    → (body : Text) × (x ≡ some body) × (r ≡ or_anything (start_of d s ++ (body ++ end_of e)))
assembled-some d s e none r h = cc
assembled-some d s e (some body) r h = (body, refl, cc)

after_piece-some : (p : Piece) (x : Option (List Piece)) → after_piece p x ≡ some [] → ⊥
after_piece-some p none h = cc
after_piece-some p (some ps) h = cc

read_some : (c : ℕ) (r : Text) → read_regex 0 (c ∷ r) ≡ some [] → ⊥
unfolding read_regex
read_some c r h = elim (Option-cases (piece_at c r)) [
  | inl e ↦ cc (rw (e, read_regex) at h)
  | inr (pn, e) ↦ after_piece-some pn.0 (read_regex pn.1 r) (rw (e, read_regex) at h)
]

read_or_anything :
    (r : Text) (ps : List Piece)
    → read_regex 0 r ≡ some ps
    → read_regex 0 (or_anything r) ≡ some (or_any_piece ps)
unfolding read_regex
read_or_anything [] ps h = let e : ps ≡ [] = cc in rw e refl
read_or_anything (c ∷ r) [] h = absurd (read_some c r h)
read_or_anything (c ∷ r) (p ∷ ps) h = h

read_assembled :
    (d s e : Bool) (rest r : Text)
    → contains_char (λ c. c == b'|') rest ≡ false
    → assembled (d, s, e) (translate rest) ≡ some r
    → read_regex 0 r ≡ some (or_any_piece (start_pieces d s ++ (map piece_of rest ++ end_pieces e)))
read_assembled d s e rest r pipe h =
    let (body, t, whole) = assembled-some d s e (translate rest) r h in
    rw whole (
      read_or_anything _ _ (
        read_start d s (body ++ end_of e)
        ∙ ap (prepend (start_pieces d s)) (
            read_body rest body (end_of e) t pipe
            ∙ ap (prepend (map piece_of rest)) (read_end e)
            ∙ prepend-some (map piece_of rest) (end_pieces e))
        ∙ prepend-some (start_pieces d s) (map piece_of rest ++ end_pieces e)))

-- Where a pattern is translated, the regular expression says what the pattern says: read with the
-- characters that mean something in a regular expression as what they mean there, a first `||` is the
-- scheme and any subdomains, a first `|` the start and a last `|` the end of the address, each `*` is
-- anything, each `^` the separator class, and each other character itself; a pattern that says
-- nothing is anything.
pub pattern_to_regex-meaning :
    (pattern regex : Text)
    → pattern_to_regex pattern ≡ some regex
    → read_regex 0 regex ≡ some (meaning pattern)
unfolding pattern_to_regex meaning
pattern_to_regex-meaning pattern regex h =
    let (a, rest) = anchors pattern in
    elim (Bool-cases (contains_char (λ c. c == b'|') rest)) [
      | inl pipe ↦ cc (rw (pipe, pattern_to_regex) at h)
      | inr pipe ↦
          read_assembled a.0 a.1 a.2 rest regex pipe (rw (pipe, pattern_to_regex) at h)
          ∙ ap (λ ps. some (or_any_piece ps)) (sym (said-anchors pattern))
    ]
