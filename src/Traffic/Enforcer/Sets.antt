-- ===== src/Traffic/Enforcer/Sets.antt =====
-- `equalBlockedSets` decides the equality of sets.
use m_ui.Base.{
  ℕ, ◌≤◌, Bool, true, false, List, [], ◌∷◌, ◌≡◌, ◌↔◌, refl, sym, ◌∙◌, inl, inr, ◌==◌, nat_eq,
  nat_beq_iff, contains, length, arith, Bool-cases,
}
use m_ui.User.Ids.{Distinct}
use m_ui.User.Ids.Sizes.{Subset, head_in, length-le-Subset, length-lt-Subset}
use m_ui.Traffic.Enforcer.{all_in, equal_blocked_sets}

-- The two sets hold the same keys.
abbrev pub SameSet : List ℕ → List ℕ → Type 0
SameSet a b = (x : ℕ) → contains a x ≡ contains b x

all_in-Subset : (a b : List ℕ) → all_in a b ≡ true → Subset a b
unfolding all_in
all_in-Subset [] b h x p = cc
all_in-Subset (k ∷ ks) b h x p = elim (Bool-cases (x == k)) [
  | inl e ↦ rw ((nat_beq_iff x k).0 e) (ground arith)
  | inr e ↦ all_in-Subset ks b (ground arith) x (ground arith)
]

Subset-all_in : (a b : List ℕ) → Subset a b → all_in a b ≡ true
unfolding all_in
Subset-all_in [] b sub = refl
Subset-all_in (k ∷ ks) b sub =
    rw (head_in k ks b sub) (Subset-all_in ks b (λ x p. sub x (ground arith)))

same_of_subset : (a b : List ℕ) → Distinct a → Subset a b → length a ≡ length b → SameSet a b
same_of_subset a b d sub len x = elim (Bool-cases (contains a x)) [
  | inl e ↦ e ∙ sym (sub x e)
  | inr e ↦ e ∙ sym (outside (contains b x) refl e)
]
  where
    outside : (v : Bool) → contains b x ≡ v → contains a x ≡ false → contains b x ≡ false
    outside true h e = absurd (omega (arith, length-lt-Subset a b x d sub e h))
    outside false h e = h

-- On sets without repeated keys, the test passes exactly when the two hold the same keys.
pub equal_blocked_sets_iff :
    (a b : List ℕ) → Distinct a → Distinct b → (equal_blocked_sets a b ≡ true) ↔ SameSet a b
unfolding equal_blocked_sets
equal_blocked_sets_iff a b da db = (
  λ h. same_of_subset a b da (all_in-Subset a b (ground arith)) (ground arith),
  λ same.
      let up : length a ≤ length b = length-le-Subset a b da (λ x h. sym (same x) ∙ h) in
      let down : length b ≤ length a = length-le-Subset b a db (λ x h. same x ∙ h) in
      let inside : all_in a b ≡ true = Subset-all_in a b (λ x h. sym (same x) ∙ h) in ground arith,
)
