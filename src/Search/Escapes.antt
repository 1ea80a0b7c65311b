-- ===== src/Search/Escapes.antt =====
-- Escaped queries, and a decoder of the form encoding to measure them by.
use hwatu.Common.{
  ℕ, ◌+◌, ◌-◌, ◌*◌, ◌/◌, ◌%◌, ◌<◌, ◌≡◌, refl, sym, ap, ◌∙◌, List, [], ◌∷◌, ◌++◌, true, false, ◌||◌,
  ltb, ◌==◌, if◌then◌else◌, All, arith, Bool-cases, inl, inr, ==_iff,
}
use hwatu.Common.Text.{Text}
use hwatu.Search.{is_unreserved, hex_digit, escape, encode_byte, encode_bytes}

abbrev hex_value : ℕ → ℕ
hex_value c = if ltb c 58 then c - b'0' else c - b'A' + 10

-- The decoder of `application/x-www-form-urlencoded`.
pub decode : Text → List ℕ
decode [] = []
decode (c ∷ []) = if c == b'+' then b' ' ∷ [] else c ∷ []
decode (c ∷ d ∷ []) = (if c == b'+' then b' ' else c) ∷ decode (d ∷ [])
decode (c ∷ d ∷ e ∷ s) =
    let escaped = decode s in
    let plain = decode (d ∷ e ∷ s) in
    if c == b'%'
    then (hex_value d * 16 + hex_value e) ∷ escaped
    else (if c == b'+' then b' ' else c) ∷ plain

hex_value-hex_digit : (d : ℕ) → d < 16 → hex_value (hex_digit d) ≡ d
hex_value-hex_digit d h = ground arith

decode_plain :
    (c : ℕ) (t : Text)
    → (c == b'%') ≡ false
    → decode (c ∷ t) ≡ (if c == b'+' then b' ' else c) ∷ decode t
unfolding decode
decode_plain c [] h = elim (Bool-cases (c == b'+')) [ inl e ↦ rw e refl | inr e ↦ rw e refl ]
decode_plain c (d ∷ []) h = refl
decode_plain c (d ∷ e ∷ s) h = rw h refl

decode-escape : (b : ℕ) (t : Text) → b < 256 → decode (escape b ++ t) ≡ b ∷ decode t
unfolding decode
decode-escape b t h =
    let high : hex_value (hex_digit (b / 16)) ≡ b / 16 =
      hex_value-hex_digit (b / 16) (grind arith) in
    let low : hex_value (hex_digit (b % 16)) ≡ b % 16 =
      hex_value-hex_digit (b % 16) (grind arith) in
    let whole : b / 16 * 16 + b % 16 ≡ b = grind arith in
    ap (λ n. n ∷ decode t)
      (ap (λ n. n * 16 + hex_value (hex_digit (b % 16))) high
        ∙ ap (λ n. b / 16 * 16 + n) low
        ∙ whole)

decode-encode_byte : (b : ℕ) (t : Text) → b < 256 → decode (encode_byte b ++ t) ≡ b ∷ decode t
unfolding encode_byte
decode-encode_byte b t h = elim (Bool-cases (is_unreserved b)) [
  | inl u ↦
      let no_percent : (b == b'%') ≡ false = ground arith in
      let no_plus : (b == b'+') ≡ false = ground arith in
      rw (u, encode_byte) (decode_plain b t no_percent ∙ rw no_plus refl)
  | inr u ↦ elim (Bool-cases (b == b' ')) [
    | inl s ↦
        let space : b ≡ b' ' = (==_iff b b' ').0 s in
        rw (u, s, encode_byte) (decode_plain b'+' t refl ∙ ap (λ n. n ∷ decode t) (sym space))
    | inr s ↦ rw (u, s, encode_byte) (decode-escape b t h)
  ]
]

-- An encoded query is decoded to the same bytes: spaces as `+`, unreserved characters as themselves,
-- everything else as percent escapes lose nothing.
pub decode-encode_bytes :
    (bs : List ℕ) → All (λ (b : ℕ). b < 256) bs → decode (encode_bytes bs) ≡ bs
unfolding encode_bytes decode
decode-encode_bytes [] h = refl
decode-encode_bytes (b ∷ bs) (h, hs) =
    decode-encode_byte b (encode_bytes bs) h ∙ ap (λ t. b ∷ t) (decode-encode_bytes bs hs)

-- A character that is safe in the query of a URL.
abbrev pub IsSafe : ℕ → Type 0
IsSafe c = (is_unreserved c || (c == b'+') || (c == b'%')) ≡ true
