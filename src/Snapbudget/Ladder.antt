-- ===== src/Snapbudget/Ladder.antt =====
-- The reply that a budget gives.
use hwatu.Common.{
  ℕ, zero, suc, ◌+◌, ◌-◌, ◌/◌, ◌≤◌, ◌<◌, ◌≡◌, refl, ◌∙◌, List, [], ◌∷◌, ◌++◌, true, none, some,
  leb→le, leb→gt, leb, arith, Bool-cases, Option-cases, ◌⊎◌, inl, inr,
}
use hwatu.Common.Text.{Text, codes, byte_len, utf8_len}
use hwatu.Json.{JsonApi}
use hwatu.Snapbudget.{
  JsonEdit, byte_prefix, clip, text_key, items_key, str_at, array_at, quarantined, quarantine,
  suspect_lines, fits, text_bytes, halve_text, shrink_text, with_items, shorten_items, cap_items,
  cap_list, counts_value, landmarks, degrade, apply,
}

byte_prefix-le : (n : ℕ) (s : Text) → byte_len (byte_prefix n s) ≤ n
byte_prefix-le n [] = omega arith
byte_prefix-le n (c ∷ s) = elim (Bool-cases (leb (utf8_len c) n)) [
  | inl fit ↦
      let room : utf8_len c ≤ n = leb→le (utf8_len c) n fit in
      rw fit (omega (arith, byte_prefix-le (n - utf8_len c) s, room))
  | inr big ↦ rw big (omega arith)
]

byte_len-append : (s t : Text) → byte_len (s ++ t) ≡ byte_len s + byte_len t
byte_len-append [] t = omega arith
byte_len-append (c ∷ s) t = omega (arith, byte_len-append s t)

-- The ellipsis takes three bytes where one was left for it.
clip-le : (s : Text) (n : ℕ) → 0 < n → byte_len (clip s n) ≤ n + 2
unfolding clip
clip-le s n pos = elim (Bool-cases (leb (byte_len s) n)) [
  | inl fit ↦
      let room : byte_len s ≤ n = leb→le (byte_len s) n fit in rw (fit, clip) (omega (arith, room))
  | inr long ↦
      rw (long, clip)
        (omega
          (arith, byte_prefix-le (n - 1) s, byte_len-append (byte_prefix (n - 1) s) (0x2026 ∷ [])))
]

module _ (J : JsonApi) (E : JsonEdit J) where
  str_at-some : (v : J.Value) (k : Text) (s : Text) → str_at J E v k ≡ some s → E.is_object v ≡ true
  str_at-some v k s h = elim (Option-cases (J.get v k)) [
    | inl e ↦ cc (rw (e, str_at) at h)
    | inr (t, e) ↦ E.get-object v k t e
  ]

  text_bytes-some :
      (v : J.Value) (s : Text)
      → str_at J E v (text_key J E) ≡ some s
      → text_bytes J E v ≡ byte_len s
  text_bytes-some v s h = rw (h, text_bytes) refl

  -- A round of the first rung makes a long text shorter.
  halve_text-lt :
      (v : J.Value) → 200 < text_bytes J E v → text_bytes J E (halve_text J E v) < text_bytes J E v
  unfolding halve_text
  halve_text-lt v long = elim (Option-cases (str_at J E v (text_key J E))) [
    | inl e ↦
        let none_left : text_bytes J E v ≡ 0 = rw (e, text_bytes) refl in
        absurd (omega (arith, none_left))
    | inr (s, e) ↦
        let bytes = text_bytes-some v s e in
        let half = byte_len s / 2 in
        let cut = J.string (clip s half) in
        let there : J.get (E.insert v (text_key J E) cut) (text_key J E) ≡ some cut =
          E.get-insert v (text_key J E) cut (str_at-some v (text_key J E) s e) in
        let after : text_bytes J E (E.insert v (text_key J E) cut) ≡ byte_len (clip s half) =
          text_bytes-some (E.insert v (text_key J E) cut) (clip s half)
            (rw (there, str_at) (E.as_str-string (clip s half))) in
        rw (e, halve_text) (rw after (omega (arith, clip-le s half (omega (arith, bytes)), bytes)))
  ]

  shrink_text_enough :
      (m n : ℕ) (v : J.Value) (budget : ℕ)
      → text_bytes J E v < m
      → text_bytes J E v < n
      → shrink_text J E m v budget ≡ shrink_text J E n v budget
  unfolding shrink_text
  shrink_text_enough zero n v budget hm hn = absurd (omega arith)
  shrink_text_enough (suc m) zero v budget hm hn = absurd (omega arith)
  shrink_text_enough (suc m) (suc n) v budget hm hn =
      elim (Bool-cases (leb (text_bytes J E v) 200)) [
        | inl small ↦ rw (small, shrink_text) refl
        | inr long ↦
            let less = halve_text-lt v (leb→gt (text_bytes J E v) 200 long) in
            rw (long, shrink_text)
              (rw
                (shrink_text_enough m n (halve_text J E v) budget (omega (arith, less))
                  (omega (arith, less)))
                refl)
      ]

  -- What is left of a snapshot at the last rung: neither text nor interactables.
  pub record IsLandmarks (v : J.Value) : Type 0 where
    pub degraded : J.get v (codes "degraded") ≡ some (J.string (codes "landmarks"))
    pub no_text : J.get v (text_key J E) ≡ none
    pub no_items : J.get v (items_key J E) ≡ none

  landmarks-IsLandmarks : (v : J.Value) → E.is_object v ≡ true → IsLandmarks (landmarks J E v)
  unfolding landmarks
  landmarks-IsLandmarks v obj =
      let no_text = J.without v (text_key J E) in
      let rest = J.without no_text (items_key J E) in
      let counted = E.insert rest (codes "interactable_counts") (counts_value J E v) in
      let rest_obj : E.is_object counted ≡ true =
        E.is_object-insert rest (codes "interactable_counts") (counts_value J E v)
        ∙ E.is_object-without no_text (items_key J E)
        ∙ E.is_object-without v (text_key J E)
        ∙ obj in
      let mark = J.string (codes "landmarks") in
      record {
        degraded = E.get-insert counted (codes "degraded") mark rest_obj;
        no_text =
            E.get-insert_other counted (text_key J E) (codes "degraded") mark refl
            ∙ E.get-insert_other rest (text_key J E) (codes "interactable_counts")
                (counts_value J E v) refl
            ∙ J.get-without no_text (text_key J E) (items_key J E) refl
            ∙ E.get-without_same v (text_key J E);
        no_items =
            E.get-insert_other counted (items_key J E) (codes "degraded") mark refl
            ∙ E.get-insert_other rest (items_key J E) (codes "interactable_counts")
                (counts_value J E v) refl
            ∙ E.get-without_same no_text (items_key J E);
      }

  with_items-is_object :
      (v : J.Value) (f : List J.Value → List J.Value)
      → E.is_object (with_items J E v f) ≡ E.is_object v
  with_items-is_object v f = elim (Option-cases (array_at J E v (items_key J E))) [
    | inl e ↦ rw (e, with_items) refl
    | inr (items, e) ↦ rw (e, with_items) (E.is_object-insert v (items_key J E) (J.array (f items)))
  ]

  halve_text-is_object : (v : J.Value) → E.is_object (halve_text J E v) ≡ E.is_object v
  unfolding halve_text
  halve_text-is_object v = elim (Option-cases (str_at J E v (text_key J E))) [
    | inl e ↦ rw (e, halve_text) refl
    | inr (s, e) ↦
        rw (e, halve_text)
          (E.is_object-insert v (text_key J E) (J.string (clip s (byte_len s / 2))))
  ]

  -- The first rung keeps an object one, and says that the value fits only where it does.
  shrink_text-fits :
      (fuel : ℕ) (v : J.Value) (budget : ℕ)
      → let out = shrink_text J E fuel v budget in
        (E.is_object out.0 ≡ E.is_object v) × (out.1 ≡ true → fits J E out.0 budget ≡ true)
  unfolding shrink_text
  shrink_text-fits zero v budget = (refl, λ h. cc)
  shrink_text-fits (suc fuel) v budget =
      let v' = halve_text J E v in
      let rest = shrink_text-fits fuel v' budget in
      elim (Bool-cases (leb (text_bytes J E v) 200)) [
        | inl small ↦ rw (small, shrink_text) (refl, λ h. cc)
        | inr long ↦ elim (Bool-cases (fits J E v' budget)) [
          | inl fit ↦ rw (long, shrink_text) (rw fit (halve_text-is_object v, λ h. fit))
          | inr over ↦ rw (long, shrink_text) (rw over (rest.0 ∙ halve_text-is_object v, rest.1))
        ]
      ]

  quarantine-is_object : (v : J.Value) → E.is_object (quarantine J E v) ≡ E.is_object v
  unfolding quarantine
  quarantine-is_object v = elim (Option-cases (str_at J E v (text_key J E))) [
    | inl e ↦ rw (e, quarantine) refl
    | inr (s, e) ↦ rw (e, quarantine) (moved v s (suspect_lines J E s))
  ]
    where
      moved :
          (v : J.Value) (s : Text) (ls : List Text)
          → E.is_object (quarantined J E v s ls) ≡ E.is_object v
      moved v s [] = refl
      moved v s (l ∷ ls) =
          E.is_object-insert _ _ _ ∙ E.is_object-insert _ _ _ ∙ E.is_object-insert _ _ _

  degrade-fits :
      (v : J.Value) (budget : ℕ)
      → E.is_object v ≡ true
      → (fits J E (degrade J E v budget) budget ≡ true) ⊎ IsLandmarks (degrade J E v budget)
  unfolding degrade shorten_items cap_items
  degrade-fits v budget obj =
      let short = shorten_items J E v in
      let capped = cap_items J E short in
      let capped_obj : E.is_object capped ≡ true =
        with_items-is_object short (cap_list J E) ∙ with_items-is_object v _ ∙ obj in
      elim (Bool-cases (fits J E short budget)) [
        | inl fit ↦ rw (fit, degrade) (inl fit)
        | inr over ↦ elim (Bool-cases (fits J E capped budget)) [
          | inl fit ↦ rw (over, degrade) (rw fit (inl fit))
          | inr none_fits ↦
              rw (over, degrade) (rw none_fits (inr (landmarks-IsLandmarks capped capped_obj)))
        ]
      ]

  -- A snapshot that is an object is cut to a value that fits the budget or to its landmarks, which have
  -- neither text nor interactables; the loop that halves the text ends, however many rounds it may take.
  pub apply-fits :
      (value : J.Value) (budget n : ℕ)
      → E.is_object value ≡ true
      → text_bytes J E (quarantine J E value) < n
      → let v = quarantine J E value in
        let out = apply J E value budget in
        ((fits J E out budget ≡ true) ⊎ IsLandmarks out)
        × (shrink_text J E n v budget ≡ shrink_text J E (suc (text_bytes J E v)) v budget)
  unfolding apply
  apply-fits value budget n obj more =
      let v = quarantine J E value in
      let fuel = suc (text_bytes J E v) in
      let shrunk = shrink_text J E fuel v budget in
      let rung = shrink_text-fits fuel v budget in
      let small : E.is_object shrunk.0 ≡ true = rung.0 ∙ quarantine-is_object value ∙ obj in
      (
        elim (Bool-cases (fits J E v budget)) [
          | inl fit ↦ rw (fit, apply) (inl fit)
          | inr over ↦ elim (Bool-cases shrunk.1) [
            | inl done ↦ rw (over, apply) (rw done (inl (rung.1 done)))
            | inr unfit ↦ rw (over, apply) (rw unfit (degrade-fits shrunk.0 budget small))
          ]
        ],
        shrink_text_enough n fuel v budget more (omega arith),
      )
