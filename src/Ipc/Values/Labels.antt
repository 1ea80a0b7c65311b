-- ===== src/Ipc/Values/Labels.antt =====
-- The label of a viewport is read back as that viewport.
use hwatu.Common.{
  ℕ, zero, suc, ◌+◌, ◌-◌, ◌*◌, ◌/◌, ◌%◌, ◌^◌, ◌≤◌, ◌<◌, ◌≡◌, refl, ap, ◌∙◌, [], ◌∷◌, ◌++◌, Bool,
  true, false, ◌||◌, some, ltb, ◌==◌, is_empty, All, All-append, arith, Bool-cases, inl, inr, nat,
  parse_i32, ltb→lt, lt→ltb, small_nat,
}
use hwatu.Common.Text.{
  Text, decimal, decimal_of, decimal_from, is_ascii_digit, is_whitespace, trim, trim_start_by,
  trim_end_by, split_once_by,
}
use hwatu.Ipc.Values.{Viewport, is_side, make_viewport, parse_viewport, label}

abbrev IsDigit : ℕ → Type 0
IsDigit c = is_ascii_digit c ≡ true

IsDigit-shown : (n : ℕ) → n < 10 → IsDigit (b'0' + n)
IsDigit-shown n h = ground arith

decimal_of-IsDigit :
    (fuel n : ℕ) (acc : Text) → All IsDigit acc → All IsDigit (decimal_of fuel n acc)
unfolding decimal_of
decimal_of-IsDigit zero n acc h = (IsDigit-shown (n % 10) (grind arith), h)
decimal_of-IsDigit (suc fuel) n acc h = elim (Bool-cases (ltb n 10)) [
  | inl e ↦ rw e (IsDigit-shown n (ltb→lt n 10 e), h)
  | inr e ↦ rw e (
      decimal_of-IsDigit fuel (n / 10) ((b'0' + n % 10) ∷ acc)
        (IsDigit-shown (n % 10) (grind arith), h))
]

read_digit :
    (k n : ℕ) (acc : Text)
    → n < 10
    → decimal_from k ((b'0' + n) ∷ acc) ≡ decimal_from (k * 10 + n) acc
read_digit k n acc h =
    let value : b'0' + n - b'0' ≡ n = omega arith in rw (IsDigit-shown n h, value) refl

decimal_from-decimal_of :
    (fuel n : ℕ) (acc : Text)
    → n ≤ fuel
    → decimal_from 0 (decimal_of fuel n acc) ≡ decimal_from n acc
unfolding decimal_of
decimal_from-decimal_of zero n acc h =
    let z : n ≡ 0 = omega arith in rw z (read_digit 0 0 acc (omega arith))
decimal_from-decimal_of (suc fuel) n acc h = elim (Bool-cases (ltb n 10)) [
  | inl e ↦
      let z : 0 * 10 + n ≡ n = omega arith in
      rw e (read_digit 0 n acc (ltb→lt n 10 e) ∙ ap (λ k. decimal_from k acc) z)
  | inr e ↦
      let small : n / 10 ≤ fuel = grind arith in
      let split : n / 10 * 10 + n % 10 ≡ n = grind arith in
      let last : n % 10 < 10 = grind arith in
      rw e (
        decimal_from-decimal_of fuel (n / 10) ((b'0' + n % 10) ∷ acc) small
        ∙ read_digit (n / 10) (n % 10) acc last
        ∙ ap (λ k. decimal_from k acc) split)
]

abbrev IsInk : ℕ → Type 0
IsInk c = is_whitespace c ≡ false

trim_start-ink : (s : Text) → All IsInk s → trim_start_by is_whitespace s ≡ s
trim_start-ink [] h = refl
trim_start-ink (c ∷ s) (h, hs) = rw h refl

trim_end-ink : (s : Text) → All IsInk s → trim_end_by is_whitespace s ≡ s
trim_end-ink [] h = refl
trim_end-ink (c ∷ s) (h, hs) = rw (trim_end-ink s hs, h) refl

trim_ink : (s : Text) → All IsInk s → trim s ≡ s
trim_ink s h = ap (trim_end_by is_whitespace) (trim_start-ink s h) ∙ trim_end-ink s h

split_once_by-append :
    (p : ℕ → Bool) (s : Text) (c : ℕ) (t : Text)
    → All (λ d. p d ≡ false) s
    → p c ≡ true
    → split_once_by p (s ++ c ∷ t) ≡ some (s, t)
split_once_by-append p [] c t h e = rw e refl
split_once_by-append p (d ∷ s) c t (h, hs) e = rw (h, split_once_by-append p s c t hs e) refl

digit-IsInk : (c : ℕ) → IsDigit c → IsInk c
digit-IsInk c h = grind arith

digit_is_not_x : (c : ℕ) → IsDigit c → ((c == b'x') || (c == b'X')) ≡ false
digit_is_not_x c h = ground arith

All-imp : (P Q : ℕ → Type 0) → ((c : ℕ) → P c → Q c) → (s : Text) → All P s → All Q s
All-imp P Q f [] h = tt
All-imp P Q f (c ∷ s) (h, hs) = (f c h, All-imp P Q f s hs)

decimal_of_some : (fuel n : ℕ) (acc : Text) → is_empty (decimal_of fuel n acc) ≡ false
unfolding decimal_of
decimal_of_some zero n acc = refl
decimal_of_some (suc fuel) n acc = elim (Bool-cases (ltb n 10)) [
  | inl e ↦ rw e refl
  | inr e ↦ rw e (decimal_of_some fuel (n / 10) ((b'0' + n % 10) ∷ acc))
]

parse_i32-digits :
    (s : Text) (n : ℕ)
    → is_empty s ≡ false
    → All IsDigit s
    → decimal_from 0 s ≡ some n
    → n < 2 ^ 31
    → parse_i32 s ≡ some (nat n)
parse_i32-digits [] n e h d l = cc
parse_i32-digits (c ∷ s) n e (h, hs) d l =
    let plus : (c == b'+') ≡ false = ground arith in
    let dash : (c == b'-') ≡ false = ground arith in
    let fits : ltb n (2 ^ 31) ≡ true = lt→ltb n (2 ^ 31) l in
    rw (plus, dash) (ap small_nat d ∙ rw fits refl)

digits-IsDigit : (n : ℕ) → All IsDigit (decimal n)
unfolding decimal
digits-IsDigit n = decimal_of-IsDigit n n [] tt

parse_i32-decimal : (n : ℕ) → n < 2 ^ 31 → parse_i32 (decimal n) ≡ some (nat n)
unfolding decimal
parse_i32-decimal n l =
    parse_i32-digits (decimal n) n (decimal_of_some n n []) (digits-IsDigit n)
      (decimal_from-decimal_of n n [] (omega arith)) l

viewport_of :
    (s a b : Text) (w h : ℕ)
    → trim s ≡ s
    → split_once_by (λ c. (c == b'x') || (c == b'X')) s ≡ some (a, b)
    → parse_i32 (trim a) ≡ some (nat w)
    → parse_i32 (trim b) ≡ some (nat h)
    → is_side (nat w) ≡ true
    → is_side (nat h) ≡ true
    → parse_viewport s ≡ some (record { w = nat w; h = nat h })
unfolding parse_viewport
viewport_of s a b w h t halves pw ph sw sh =
    let start : parse_viewport s ≡ make_viewport (parse_i32 (trim a)) (parse_i32 (trim b)) =
      rw (t, halves, parse_viewport) refl in
    let sides : make_viewport (some (nat w)) (some (nat h))
        ≡ some (record { w = nat w; h = nat h }) =
      rw (sw, sh, make_viewport) refl in
    start ∙ rw (pw, ph) sides

-- The label of a viewport with sides from 1 to 16384 is read back as that viewport.
pub parse_viewport-label :
    (w h : ℕ)
    → 1 ≤ w
    → w ≤ 16384
    → 1 ≤ h
    → h ≤ 16384
    → let v : Viewport = record { w = nat w; h = nat h } in parse_viewport (label v) ≡ some v
unfolding parse_viewport label
parse_viewport-label w h w1 w2 h1 h2 =
    let dw = digits-IsDigit w in
    let dh = digits-IsDigit h in
    let iw = All-imp IsDigit IsInk digit-IsInk (decimal w) dw in
    let ih = All-imp IsDigit IsInk digit-IsInk (decimal h) dh in
    let ink : All IsInk (decimal w ++ b'x' ∷ decimal h) =
      All-append IsInk (decimal w) (b'x' ∷ decimal h) iw (refl, ih) in
    let trimmed = trim_ink (decimal w ++ b'x' ∷ decimal h) ink in
    let no_x =
      All-imp IsDigit (λ c. ((c == b'x') || (c == b'X')) ≡ false) digit_is_not_x (decimal w) dw in
    let halves =
      split_once_by-append (λ c. (c == b'x') || (c == b'X')) (decimal w) b'x' (decimal h) no_x
        refl in
    let pw = ap parse_i32 (trim_ink (decimal w) iw) ∙ parse_i32-decimal w (omega arith) in
    let ph = ap parse_i32 (trim_ink (decimal h) ih) ∙ parse_i32-decimal h (omega arith) in
    let sw : is_side (nat w) ≡ true = ground arith in
    let sh : is_side (nat h) ≡ true = ground arith in
    viewport_of (decimal w ++ b'x' ∷ decimal h) (decimal w) (decimal h) w h trimmed halves pw ph sw
      sh
