-- ===== src/Base/TrimLaws.antt =====
-- Trimming twice is trimming once.
use Prim.Native.Nat.{◌≤◌}
use mathlib.Core.Path.{◌≡◌, refl, sym, ap, subst, ◌∙◌}
use mathlib.Core.Logic.{inl, inr}
use mathlib.Core.List.{[], ◌∷◌, ◌++◌, reverse, reverse-append, reverse-reverse}
use native.Mathlib.Omega.{arith}
use m_ui.Base.Tests.{Bool-cases}
use m_ui.Base.Lists.{length}
use m_ui.Base.Equality.{Text}
use m_ui.Base.Trim.{is_space, trim_left, trim_space}

length-trim_left-le : (s : Text) → length (trim_left s) ≤ length s
unfolding trim_left
length-trim_left-le [] = omega arith
length-trim_left-le (c ∷ s) = ground (arith, length-trim_left-le s)

trim_left-trim_left : (s : Text) → trim_left (trim_left s) ≡ trim_left s
unfolding trim_left
trim_left-trim_left [] = refl
trim_left-trim_left (c ∷ s) = elim (Bool-cases (is_space c)) [
  | inl space ↦ rw space (trim_left-trim_left s)
  | inr other ↦ rw (other, other)
]

-- What is trimmed is a front part.
trim_left-rest : (s : Text) → (p : Text) × (s ≡ p ++ trim_left s)
unfolding trim_left
trim_left-rest [] = ([], refl)
trim_left-rest (c ∷ s) = elim (Bool-cases (is_space c)) [
  | inl space ↦ (c ∷ (trim_left-rest s).0, rw space (ap (λ t. c ∷ t) (trim_left-rest s).1))
  | inr other ↦ ([], rw other)
]

-- A front part of a trimmed text is trimmed.
trim_left-front : (xs ys : Text) → trim_left (xs ++ ys) ≡ xs ++ ys → trim_left xs ≡ xs
unfolding trim_left
trim_left-front [] ys h = refl
trim_left-front (c ∷ xs) ys h = elim (Bool-cases (is_space c)) [
  | inl space ↦ absurd (shorter (ap length (sym (rw space at h))))
  | inr other ↦ rw other
]
  where
    shorter : length (c ∷ (xs ++ ys)) ≡ length (trim_left (xs ++ ys)) → ⊥
    shorter e = omega (arith, length-trim_left-le (xs ++ ys))

trimmed_front : (s : Text) → trim_left (trim_space s) ≡ trim_space s
unfolding trim_space
trimmed_front s =
    trim_left-front (reverse (trim_left (reverse (trim_left s)))) (reverse p)
      (subst (λ t. trim_left t ≡ t) whole (trim_left-trim_left s))
  where
    p : Text
    p = (trim_left-rest (reverse (trim_left s))).0

    whole : trim_left s ≡ reverse (trim_left (reverse (trim_left s))) ++ reverse p
    whole =
        sym (reverse-reverse (trim_left s))
        ∙ ap reverse (trim_left-rest (reverse (trim_left s))).1
        ∙ reverse-append p (trim_left (reverse (trim_left s)))

pub trim_space-trim_space : (s : Text) → trim_space (trim_space s) ≡ trim_space s
trim_space-trim_space s =
    twice (trim_space s) (trimmed_front s)
    ∙ ap (λ t. reverse (trim_left t)) (ends s)
    ∙ ap reverse (trim_left-trim_left (reverse (trim_left s)))
    ∙ once s
  where
    twice : (t : Text) → trim_left t ≡ t → trim_space t ≡ reverse (trim_left (reverse t))
    twice t h = unfold trim_space in ap (λ u. reverse (trim_left (reverse u))) h

    ends : (t : Text) → reverse (trim_space t) ≡ trim_left (reverse (trim_left t))
    ends t = unfold trim_space in reverse-reverse (trim_left (reverse (trim_left t)))

    once : (t : Text) → reverse (trim_left (reverse (trim_left t))) ≡ trim_space t
    once t = unfold trim_space in refl
