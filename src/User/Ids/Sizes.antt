-- ===== src/User/Ids/Sizes.antt =====
-- Sets of ids, as lists without repeated ones, compared by their number of elements.
use m_ui.Base.{
  ℕ, suc, ◌≤◌, ◌<◌, Bool, true, false, List, [], ◌∷◌, ◌≡◌, ◌∙◌, refl, inl, inr, if◌then◌else◌, ◌==◌,
  nat_eq, nat_beq_iff, contains, length, filter, arith, Bool-cases, ◌&&◌,
}
use m_ui.User.Ids.{Distinct}

-- Every key of the first set is in the second.
abbrev pub Subset : List ℕ → List ℕ → Type 0
Subset a b = (x : ℕ) → contains a x ≡ true → contains b x ≡ true

remove : ℕ → List ℕ → List ℕ
remove k [] = []
remove k (x ∷ xs) = if k == x then xs else x ∷ remove k xs

length-remove : (k : ℕ) (b : List ℕ) → contains b k ≡ true → length b ≡ suc (length (remove k b))
unfolding remove
length-remove k [] h = cc
length-remove k (x ∷ xs) h = ground (arith, length-remove k xs)

contains-remove :
    (k x : ℕ) (b : List ℕ) → (x == k) ≡ false → contains b x ≡ true → contains (remove k b) x ≡ true
unfolding remove
contains-remove k x [] ne h = h
contains-remove k x (y ∷ ys) ne h =
    ground (arith, contains-remove k x ys, nat_beq_iff k y, nat_beq_iff x y, nat_beq_iff x k)

absent_ne :
    (k x : ℕ) (ks : List ℕ) → contains ks k ≡ false → contains ks x ≡ true → (x == k) ≡ false
absent_ne k x [] h p = cc
absent_ne k x (y ∷ ys) h p =
    ground (arith, absent_ne k x ys, nat_beq_iff k y, nat_beq_iff x y, nat_beq_iff x k)

Subset-remove :
    (k : ℕ) (ks b : List ℕ) → contains ks k ≡ false → Subset (k ∷ ks) b → Subset ks (remove k b)
Subset-remove k ks b fresh sub x h =
    contains-remove k x b (absent_ne k x ks fresh h) (sub x (ground arith))

pub head_in : (k : ℕ) (ks b : List ℕ) → Subset (k ∷ ks) b → contains b k ≡ true
head_in k ks b sub = sub k (ground (arith, nat_beq_iff k k))

-- A set is not larger than one that holds it, and it is smaller if a key is missing.
pub length-le-Subset : (a b : List ℕ) → Distinct a → Subset a b → length a ≤ length b
length-le-Subset [] b d sub = omega arith
length-le-Subset (k ∷ ks) b d sub = omega (
  arith,
  length-remove k b (head_in k ks b sub),
  length-le-Subset ks (remove k b) d.1 (Subset-remove k ks b d.0 sub),
)

pub length-lt-Subset :
    (a b : List ℕ) (x : ℕ)
    → Distinct a
    → Subset a b
    → contains a x ≡ false
    → contains b x ≡ true
    → length a < length b
length-lt-Subset a b x d sub out h =
    length-le-Subset (x ∷ a) b (out, d)
      (λ y p. elim (Bool-cases (y == x)) [
        | inl e ↦ rw ((nat_beq_iff y x).0 e) h
        | inr e ↦ sub y (ground arith)
      ])

contains-filter :
    (p : ℕ → Bool) (xs : List ℕ) (x : ℕ) → contains (filter p xs) x ≡ (p x && contains xs x)
contains-filter p [] x = ground arith
contains-filter p (y ∷ xs) x = elim (Bool-cases (x == y)) [
  | inl same ↦
      rw ((nat_beq_iff x y).0 same) (ground (arith, contains-filter p xs y, nat_beq_iff y y))
  | inr other ↦ ground (arith, contains-filter p xs x, other)
]

Distinct-filter : (p : ℕ → Bool) (xs : List ℕ) → Distinct xs → Distinct (filter p xs)
Distinct-filter p [] d = tt
Distinct-filter p (x ∷ xs) d = ground (arith, contains-filter p xs x, d.0, Distinct-filter p xs d.1)

-- Of a set, as many elements are among `ids` as there are ids, if it has all of them.
pub length-filter-contains :
    (ids all : List ℕ)
    → Distinct ids
    → Distinct all
    → Subset ids all
    → length (filter (contains ids) all) ≡ length ids
length-filter-contains ids all di da sub = omega (
  arith,
  length-le-Subset ids (filter (contains ids) all) di
      (λ x h. contains-filter (contains ids) all x ∙ rw (h, sub x h) refl),
  length-le-Subset (filter (contains ids) all) ids (Distinct-filter (contains ids) all da)
      (λ x h. ground (arith, contains-filter (contains ids) all x, h)),
)
