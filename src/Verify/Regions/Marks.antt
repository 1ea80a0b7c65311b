-- ===== src/Verify/Regions/Marks.antt =====
-- Marks on cells: what setting one does to their number, to the pixels under them, and to the others.
use hwatu.Common.{
  ℕ, zero, suc, ◌+◌, ◌≤◌, ◌<◌, ◌≡◌, refl, ap, List, [], ◌∷◌, Bool, true, false, ◌⊎◌, inl, inr,
  if◌then◌else◌, get_or, length, arith,
}
use hwatu.Verify.Regions.{set_true}

-- The pixels in the marked cells.
unfoldable pub weight : List Bool → List ℕ → ℕ
weight [] cs = 0
weight (b ∷ bs) [] = 0
weight (b ∷ bs) (c ∷ cs) = (if b then c else 0) + weight bs cs

-- The number of cells with no mark.
pub unseen : List Bool → ℕ
unseen [] = 0
unseen (b ∷ bs) = (if b then 0 else 1) + unseen bs

pub length-set_true : (bs : List Bool) (j : ℕ) → length (set_true bs j) ≡ length bs
unfolding set_true
length-set_true [] j = refl
length-set_true (b ∷ bs) zero = refl
length-set_true (b ∷ bs) (suc j) = ap suc (length-set_true bs j)

pub weight-set_true :
    (bs : List Bool) (cs : List ℕ) (j : ℕ)
    → length bs ≡ length cs
    → j < length bs
    → get_or bs j false ≡ false
    → weight (set_true bs j) cs ≡ weight bs cs + get_or cs j 0
unfolding set_true weight
weight-set_true [] cs j e h g = ground arith
weight-set_true (b ∷ bs) [] j e h g = ground arith
weight-set_true (b ∷ bs) (c ∷ cs) zero e h g = ground arith
weight-set_true (b ∷ bs) (c ∷ cs) (suc j) e h g =
    omega (arith, weight-set_true bs cs j (omega arith) (omega arith) g)

pub unseen-set_true :
    (bs : List Bool) (j : ℕ)
    → j < length bs
    → get_or bs j false ≡ false
    → unseen (set_true bs j) + 1 ≡ unseen bs
unfolding set_true unseen
unseen-set_true [] j h g = ground arith
unseen-set_true (b ∷ bs) zero h g = ground arith
unseen-set_true (b ∷ bs) (suc j) h g = omega (arith, unseen-set_true bs j (omega arith) g)

pub get-set_true_old :
    (bs : List Bool) (j k : ℕ) → get_or bs k false ≡ true → get_or (set_true bs j) k false ≡ true
unfolding set_true
get-set_true_old [] j k h = h
get-set_true_old (b ∷ bs) zero zero h = refl
get-set_true_old (b ∷ bs) zero (suc k) h = h
get-set_true_old (b ∷ bs) (suc j) zero h = h
get-set_true_old (b ∷ bs) (suc j) (suc k) h = get-set_true_old bs j k h

pub get-set_true_new :
    (bs : List Bool) (j k : ℕ)
    → get_or (set_true bs j) k false ≡ true
    → (k ≡ j) ⊎ (get_or bs k false ≡ true)
unfolding set_true
get-set_true_new [] j k h = inr h
get-set_true_new (b ∷ bs) zero zero h = inl refl
get-set_true_new (b ∷ bs) zero (suc k) h = inr h
get-set_true_new (b ∷ bs) (suc j) zero h = inr h
get-set_true_new (b ∷ bs) (suc j) (suc k) h = elim (get-set_true_new bs j k h) [
  | inl e ↦ inl (ap suc e)
  | inr e ↦ inr e
]

pub get-set_true : (bs : List Bool) (j : ℕ) → j < length bs → get_or (set_true bs j) j false ≡ true
unfolding set_true
get-set_true [] j h = ground arith
get-set_true (b ∷ bs) zero h = refl
get-set_true (b ∷ bs) (suc j) h = get-set_true bs j (omega arith)

pub lt-length_of_get : (bs : List Bool) (j : ℕ) → get_or bs j false ≡ true → j < length bs
lt-length_of_get [] j h = ground arith
lt-length_of_get (b ∷ bs) zero h = omega arith
lt-length_of_get (b ∷ bs) (suc j) h = omega (arith, lt-length_of_get bs j h)

-- Marks that agree on every cell cover the same pixels.
pub weight-ext :
    (xs bs : List Bool) (cs : List ℕ)
    → length xs ≡ length bs
    → ((k : ℕ) → get_or xs k false ≡ get_or bs k false)
    → weight xs cs ≡ weight bs cs
unfolding weight
weight-ext [] [] cs e h = refl
weight-ext [] (b ∷ bs) cs e h = ground arith
weight-ext (a ∷ xs) [] cs e h = ground arith
weight-ext (a ∷ xs) (b ∷ bs) [] e h = refl
weight-ext (a ∷ xs) (b ∷ bs) (c ∷ cs) e h =
    cc (h 0, weight-ext xs bs cs (omega arith) (λ k. h (suc k)))

pub unseen_le_length : (bs : List Bool) → unseen bs ≤ length bs
unfolding unseen
unseen_le_length [] = omega arith
unseen_le_length (true ∷ bs) = omega (arith, unseen_le_length bs)
unseen_le_length (false ∷ bs) = omega (arith, unseen_le_length bs)
