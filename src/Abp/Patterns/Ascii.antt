-- ===== src/Abp/Patterns/Ascii.antt =====
-- WebKit takes a `url-filter` that is ASCII and not empty.
use hwatu.Common.{
  ℕ, ◌<◌, ◌≡◌, refl, [], ◌∷◌, ◌++◌, Bool, true, false, some, ◌==◌, length, arith, Bool-cases, inl,
  inr, all, all-append,
}
use hwatu.Common.Text.{Text, contains_char, is_ascii}
use hwatu.Abp.Patterns.{
  translate_char, translate, start_of, end_of, or_anything, anchors, pattern_to_regex,
}
use hwatu.Abp.Patterns.Meaning.{joined-some, assembled-some}

-- A filter that WebKit can compile.
pub record IsFilter (r : Text) : Type 0 where
  pub filled : 0 < length r
  pub ascii : all is_ascii r ≡ true

translate_char-ascii : (c : ℕ) (t : Text) → translate_char c ≡ some t → all is_ascii t ≡ true
translate_char-ascii c t h = ground arith

ascii-append :
    (s t : Text) → all is_ascii s ≡ true → all is_ascii t ≡ true → all is_ascii (s ++ t) ≡ true
ascii-append s t hs ht = rw (all-append is_ascii s t) (rw (hs, ht) refl)

translate-ascii : (s t : Text) → translate s ≡ some t → all is_ascii t ≡ true
unfolding translate
translate-ascii [] t h = let e : t ≡ [] = cc in rw e refl
translate-ascii (c ∷ s) t h =
    let (a, b, first, rest, e) = joined-some (translate_char c) (translate s) t h in
    rw e (ascii-append a b (translate_char-ascii c a first) (translate-ascii s b rest))

start_of-ascii : (d s : Bool) → all is_ascii (start_of d s) ≡ true
start_of-ascii true s = refl
start_of-ascii false true = refl
start_of-ascii false false = refl

end_of-ascii : (e : Bool) → all is_ascii (end_of e) ≡ true
end_of-ascii true = refl
end_of-ascii false = refl

or_anything-IsFilter : (r : Text) → all is_ascii r ≡ true → IsFilter (or_anything r)
or_anything-IsFilter [] h = record { filled = omega arith; ascii = refl }
or_anything-IsFilter (c ∷ r) h = record { filled = omega arith; ascii = h }

pub pattern_to_regex-IsFilter :
    (pattern regex : Text) → pattern_to_regex pattern ≡ some regex → IsFilter regex
unfolding pattern_to_regex
pattern_to_regex-IsFilter pattern regex h =
    let (a, rest) = anchors pattern in
    elim (Bool-cases (contains_char (λ c. c == b'|') rest)) [
      | inl pipe ↦ cc (rw (pipe, pattern_to_regex) at h)
      | inr pipe ↦
          let (body, t, whole) =
            assembled-some a.0 a.1 a.2 (translate rest) regex (rw (pipe, pattern_to_regex) at h) in
          rw whole (
            or_anything-IsFilter _ (
              ascii-append (start_of a.0 a.1) (body ++ end_of a.2) (start_of-ascii a.0 a.1)
                (ascii-append body (end_of a.2) (translate-ascii rest body t) (end_of-ascii a.2))))
    ]
