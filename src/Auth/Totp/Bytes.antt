-- ===== src/Auth/Totp/Bytes.antt =====
-- The comparison of two texts that looks at every byte (backend/internal/totp/totp.go).
use m_ui.Base.{
  ℕ, zero, suc, ◌/◌, ◌^◌, ◌<◌, true, [], ◌∷◌, Text, ◌==◌, nat_eq, text_eq, length, All, arith, ◌≡◌,
  ◌↔◌, refl, ap, Bool-cases, inl, inr, nat_beq_iff,
}
use m_ui.Auth.Totp.{xor, or, differences, subtle_constant_time_equal}

xor_zero : (n a b : ℕ) → a < 2 ^ n → b < 2 ^ n → (xor n a b ≡ 0) ↔ (a ≡ b)
unfolding xor
xor_zero zero a b h g = (λ _. omega arith, λ _. refl)
xor_zero (suc n) a b h g =
    let k = xor_zero n (a / 2) (b / 2) (omega arith) (omega arith) in
    (
      λ e. let d = k.0 (omega arith) in omega arith,
      λ e. let d = k.1 (ap (λ x. x / 2) e) in omega (arith, e),
    )

or_zero : (n a b : ℕ) → a < 2 ^ n → b < 2 ^ n → (or n a b ≡ 0) ↔ ((a ≡ 0) × (b ≡ 0))
unfolding or
or_zero zero a b h g = (λ _. (omega arith, omega arith), λ _. refl)
or_zero (suc n) a b h g =
    let k = or_zero n (a / 2) (b / 2) (omega arith) (omega arith) in ground (arith, k)

xor_bound : (n a b : ℕ) → xor n a b < 2 ^ n
unfolding xor
xor_bound zero a b = omega arith
xor_bound (suc n) a b = let r = xor_bound n (a / 2) (b / 2) in omega arith

or_bound : (n a b : ℕ) → or n a b < 2 ^ n
unfolding or
or_bound zero a b = omega arith
or_bound (suc n) a b = let r = or_bound n (a / 2) (b / 2) in ground arith

differences_zero :
    (a b : Text) (v : ℕ)
    → All (λ x. x < 256) a
    → All (λ x. x < 256) b
    → v < 256
    → length a ≡ length b
    → (differences a b v ≡ 0) ↔ ((v ≡ 0) × (a ≡ b))
unfolding differences
differences_zero [] [] v p q h e = (λ d. (d, refl), λ d. d.0)
differences_zero [] (y ∷ b) v p q h e = cc e
differences_zero (x ∷ a) [] v p q h e = cc e
differences_zero (x ∷ a) (y ∷ b) v p q h e =
    let rest =
      differences_zero a b (or 8 v (xor 8 x y)) p.1 q.1 (or_bound 8 v (xor 8 x y)) (omega arith) in
    let o = or_zero 8 v (xor 8 x y) h (xor_bound 8 x y) in
    let k = xor_zero 8 x y p.0 q.0 in
    (
      λ d. ((o.0 (rest.0 d).0).0, cc (k.0 (o.0 (rest.0 d).0).1, (rest.0 d).1)),
      λ d. rest.1 (o.1 (d.0, k.1 (cc (d.1))), cc (d.1)),
    )

-- The comparison that looks at every byte is equality of texts.
pub subtle_constant_time_equal_iff :
    (a b : Text)
    → All (λ x. x < 256) a
    → All (λ x. x < 256) b
    → (subtle_constant_time_equal a b ≡ true) ↔ (a ≡ b)
unfolding subtle_constant_time_equal
subtle_constant_time_equal_iff a b p q = elim (Bool-cases (length a == length b)) [
  | inl same ↦ rw same (
      let d =
        differences_zero a b 0 p q (omega arith) ((nat_beq_iff (length a) (length b)).0 same) in
      (
        λ h. (d.0 ((nat_beq_iff (differences a b 0) 0).0 h)).1,
        λ h. (nat_beq_iff (differences a b 0) 0).1 (d.1 (refl, h)),
      ))
  | inr other ↦
      rw other (λ h. cc h, λ h. cc ((nat_beq_iff (length a) (length b)).1 (ap length h), other))
]
