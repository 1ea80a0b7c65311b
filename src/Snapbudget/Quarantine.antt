-- ===== src/Snapbudget/Quarantine.antt =====
-- What the quarantine takes out of the text, and what it leaves.
use hwatu.Common.{
  ℕ, ◌≡◌, refl, sym, ap, ◌∙◌, List, [], ◌∷◌, ◌++◌, map, Bool, true, false, not, some, ◌==◌, ==_refl,
  keep, All, All-keep, Bool-cases, inl, inr, ◌⊎◌, arith,
}
use hwatu.Common.Text.{Text, codes, split_at_char, split_by, push_head, join, contains_char}
use hwatu.Json.{JsonApi}
use hwatu.Snapbudget.{
  JsonEdit, text_key, str_at, is_suspect, lines_of, clean_lines, suspect_lines, quarantined,
  quarantine, suspect_note,
}

-- No separator stands in a part of a split.
abbrev pub HasNone : (ℕ → Bool) → Text → Type 0
HasNone p s = contains_char p s ≡ false

push_head-All :
    (p : ℕ → Bool) (c : ℕ) (ws : List Text)
    → p c ≡ false
    → All (HasNone p) ws
    → All (HasNone p) (push_head c ws)
push_head-All p c [] e h = (ground (arith, e), tt)
push_head-All p c (w ∷ ws) e h = (ground (arith, e, h.0), h.1)

split_by-All : (p : ℕ → Bool) (s : Text) → All (HasNone p) (split_by p s)
split_by-All p [] = (refl, tt)
split_by-All p (c ∷ s) = elim (Bool-cases (p c)) [
  | inl e ↦ rw e (refl, split_by-All p s)
  | inr e ↦ rw e (push_head-All p c (split_by p s) e (split_by-All p s))
]

-- A text with no separator in front of one is the first part of the split.
split_by-line :
    (sep : ℕ) (w s : Text)
    → contains_char (λ c. c == sep) w ≡ false
    → split_by (λ c. c == sep) (w ++ sep ∷ s) ≡ w ∷ split_by (λ c. c == sep) s
split_by-line sep [] s h = rw (==_refl sep) refl
split_by-line sep (c ∷ w) s h =
    let e : (c == sep) ≡ false = ground arith in
    rw e (rw (split_by-line sep w s (ground arith)) refl)

split_by-last :
    (sep : ℕ) (w : Text)
    → contains_char (λ c. c == sep) w ≡ false
    → split_by (λ c. c == sep) w ≡ w ∷ []
split_by-last sep [] h = refl
split_by-last sep (c ∷ w) h =
    let e : (c == sep) ≡ false = ground arith in rw e (rw (split_by-last sep w (ground arith)) refl)

-- Joined lines are split into the same lines.
split-join :
    (w : Text) (ws : List Text)
    → All (HasNone (λ c. c == 10)) (w ∷ ws)
    → split_at_char 10 (join (10 ∷ []) (w ∷ ws)) ≡ w ∷ ws
split-join w [] h = split_by-last 10 w h.0
split-join w (v ∷ ws) h =
    split_by-line 10 w (join (10 ∷ []) (v ∷ ws)) h.0 ∙ ap (λ x. w ∷ x) (split-join v ws h.1)

keep-false : (p : Text → Bool) (xs : List Text) → All (λ x. p x ≡ false) xs → keep p xs ≡ []
keep-false p [] h = refl
keep-false p (x ∷ xs) h = rw (h.0) (keep-false p xs h.1)

keep-not : (p : Text → Bool) (xs : List Text) → All (λ s. p s ≡ false) (keep (λ s. not (p s)) xs)
keep-not p [] = tt
keep-not p (x ∷ xs) = elim (Bool-cases (p x)) [
  | inl e ↦ rw e (keep-not p xs)
  | inr e ↦ rw e (e, keep-not p xs)
]

module _ (J : JsonApi) (E : JsonEdit J) where
  -- The text that is left, as lines.
  pub record IsRest (text rest : Text) : Type 0 where
    pub clean : All (λ line. is_suspect J E line ≡ false) (lines_of J E rest)
    pub lines :
        (lines_of J E rest ≡ clean_lines J E text) ⊎ ((clean_lines J E text ≡ []) × (rest ≡ []))

  empty-is_suspect : is_suspect J E [] ≡ false
  unfolding is_suspect
  empty-is_suspect = rw (E.to_lowercase-nil) refl

  join-IsRest :
      (text : Text) (ls : List Text)
      → clean_lines J E text ≡ ls
      → All (λ line. is_suspect J E line ≡ false) ls
      → All (HasNone (λ c. c == 10)) ls
      → IsRest text (join (10 ∷ []) ls)
  join-IsRest text [] e c n = record { clean = (empty-is_suspect, tt); lines = inr (e, refl) }
  join-IsRest text (w ∷ ws) e c n =
      let back = split-join w ws n in record { clean = rw back c; lines = inl (back ∙ sym e) }

  -- Where no line is suspect, all are clean.
  none_suspect :
      (xs : List Text)
      → keep (is_suspect J E) xs ≡ []
      → All (λ line. is_suspect J E line ≡ false) xs
        × (keep (λ line. not (is_suspect J E line)) xs ≡ xs)
  none_suspect [] h = (tt, refl)
  none_suspect (x ∷ xs) h = elim (Bool-cases (is_suspect J E x)) [
    | inl e ↦ absurd (cc (rw e at h))
    | inr e ↦
        let rest = none_suspect xs (rw e at h) in ((e, rest.0), rw e (ap (λ ys. x ∷ ys) rest.1))
  ]

  -- What becomes of the text of a snapshot.
  pub record IsQuarantined (text : Text) (out : J.Value) : Type 0 where
    pub rest : Text
    pub text_left : str_at J E out (text_key J E) ≡ some rest
    pub is_rest : IsRest text rest
    pub kept :
        (suspect_lines J E text ≡ [])
        ⊎ (J.get out (codes "suspect") ≡ some (J.array (map J.string (suspect_lines J E text))))

  quarantined-IsQuarantined :
      (v : J.Value) (text : Text) (ls : List Text)
      → E.is_object v ≡ true
      → str_at J E v (text_key J E) ≡ some text
      → suspect_lines J E text ≡ ls
      → IsQuarantined text (quarantined J E v text ls)
  quarantined-IsQuarantined v text [] obj h e =
      let clean = none_suspect (lines_of J E text) e in
      record {
        rest = text;
        text_left = h;
        is_rest = record { clean = clean.0; lines = inl (sym clean.1) };
        kept = inl e;
      }
  quarantined-IsQuarantined v text (l ∷ ls) obj h e =
      let left = J.string (join (10 ∷ []) (clean_lines J E text)) in
      let moved = J.array (map J.string (l ∷ ls)) in
      let one = E.insert v (text_key J E) left in
      let two = E.insert one (codes "suspect") moved in
      let note = J.string (suspect_note J E) in
      let obj_one : E.is_object one ≡ true = E.is_object-insert v (text_key J E) left ∙ obj in
      let there : J.get (E.insert two (codes "suspect_note") note) (text_key J E) ≡ some left =
        E.get-insert_other two (text_key J E) (codes "suspect_note") note refl
        ∙ E.get-insert_other one (text_key J E) (codes "suspect") moved refl
        ∙ E.get-insert v (text_key J E) left obj in
      let lines = lines_of J E text in
      record {
        rest = join (10 ∷ []) (clean_lines J E text);
        text_left = rw (there, str_at) (E.as_str-string (join (10 ∷ []) (clean_lines J E text)));
        is_rest = join-IsRest text (clean_lines J E text) refl (keep-not (is_suspect J E) lines) (
            All-keep (HasNone (λ c. c == 10)) (λ line. not (is_suspect J E line)) lines
              (split_by-All (λ c. c == 10) text));
        kept = inr (
            E.get-insert_other two (codes "suspect") (codes "suspect_note") note refl
            ∙ E.get-insert one (codes "suspect") moved obj_one
            ∙ ap (λ x. some (J.array (map J.string x))) (sym e));
      }

  quarantine_again :
      (v : J.Value) (rest : Text)
      → str_at J E v (text_key J E) ≡ some rest
      → All (λ line. is_suspect J E line ≡ false) (lines_of J E rest)
      → quarantine J E v ≡ v
  unfolding quarantine
  quarantine_again v rest h clean =
      rw (h, quarantine)
        (ap (quarantined J E v rest) (keep-false (is_suspect J E) (lines_of J E rest) clean))

  -- Of a snapshot that is an object with a text, the quarantine leaves the lines that are not suspect,
  -- in order, so that no line of the text is suspect any more, and keeps the suspect ones, in order, as
  -- the array `suspect`, if there are any; a second quarantine changes nothing.
  pub quarantine-IsQuarantined :
      (v : J.Value) (text : Text)
      → E.is_object v ≡ true
      → str_at J E v (text_key J E) ≡ some text
      → IsQuarantined text (quarantine J E v)
        × (quarantine J E (quarantine J E v) ≡ quarantine J E v)
  unfolding quarantine
  quarantine-IsQuarantined v text obj h =
      let e : quarantine J E v ≡ quarantined J E v text (suspect_lines J E text) =
        rw (h, quarantine) refl in
      let q = quarantined-IsQuarantined v text (suspect_lines J E text) obj h refl in
      rw e (q, quarantine_again _ q.rest q.text_left q.is_rest.clean)
