-- ===== src/Auth/Totp/Steps.antt =====
-- The time steps whose code `Verify` accepts (backend/internal/totp/totp.go).
use m_ui.Base.{
  ℕ, zero, suc, ◌+◌, ◌*◌, ◌<◌, Bool, true, false, [], Option, none, some, Text, ◌==◌, nat_eq,
  text_eq, if◌then◌else◌, length, ltb, All, trim_space, arith, ◌≡◌, ◌≢◌, ◌↔◌, ◌⊎◌, ◌≤◌, ◌∙◌, sym,
  refl, ap, Bool-cases, inl, inr, text_beq_iff, subst,
}
use m_ui.Base.Int.{ℤ, pos, ◌+ℤ◌, ◌-ℤ◌, int_laws}
use m_ui.Auth.Totp.{
  Outside, div_30, step, hotp, try_steps, matches, decode_key, verify_with, verify,
}
use m_ui.Auth.Totp.Bytes.{subtle_constant_time_equal_iff}

some-inj : {a b : Text} → some b ≡ some a → a ≡ b
some-inj h = cc h

at_0 : (d : ℤ) → d +ℤ pos 0 ≡ d
at_0 d = grind int_laws

shift : (d : ℤ) (i : ℕ) → (d +ℤ pos 1) +ℤ pos i ≡ d +ℤ pos (suc i)
shift d i = grind int_laws

-- The loop finds a step exactly when some step in its range passes the test.
try_steps_iff :
    (test : ℤ → Bool) (n : ℕ) (d : ℤ)
    → (try_steps test n d ≡ true) ↔ ((i : ℕ) × (i < n) × (test (d +ℤ pos i) ≡ true))
unfolding try_steps
try_steps_iff test zero d = (λ h. cc h, λ h. ground (arith, h.1))
try_steps_iff test (suc n) d = (
  λ h. found (Bool-cases (test d)) h (try_steps_iff test n (d +ℤ pos 1)).0,
  λ h. back h.0 h.1 h.2 (try_steps_iff test n (d +ℤ pos 1)).1,
)
  where
    found :
        (test d ≡ true) ⊎ (test d ≡ false)
        → (if test d then true else try_steps test n (d +ℤ pos 1)) ≡ true
        → (try_steps test n (d +ℤ pos 1) ≡ true
            → (i : ℕ) × (i < n) × (test (d +ℤ pos 1 +ℤ pos i) ≡ true))
        → (i : ℕ) × (i < suc n) × (test (d +ℤ pos i) ≡ true)
    found (inl here) h f = (0, omega arith, ap test (at_0 d) ∙ here)
    found (inr other) h f =
        let r = f (rw other at h) in
        (suc r.0, omega (arith, r.1), ap test (sym (shift d r.0)) ∙ r.2)

    back :
        (i : ℕ)
        → i < suc n
        → test (d +ℤ pos i) ≡ true
        → ((i : ℕ) × (i < n) × (test (d +ℤ pos 1 +ℤ pos i) ≡ true)
            → try_steps test n (d +ℤ pos 1) ≡ true)
        → (if test d then true else try_steps test n (d +ℤ pos 1)) ≡ true
    back zero l h f = rw (ap test (sym (at_0 d)) ∙ h) refl
    back (suc i) l h f = elim (Bool-cases (test d)) [
      | inl here ↦ rw here refl
      | inr other ↦ rw other (f (i, omega (arith, l), ap test (shift d i) ∙ h))
    ]

abbrev pub Printed : Outside → Text → ℕ → Text → Type 0
Printed o code skew key =
    (i : ℕ) × (i < 1 + 2 * skew) × (o.print_6 (hotp o key (step o skew i)) ≡ code)

module _ (o : Outside) (code : Text) (skew : ℕ) (p : (n : ℕ) → All (λ x. x < 256) (o.print_6 n))
    (q : All (λ x. x < 256) code) where
  steps_iff :
      (key : Text)
      → (try_steps (λ d. matches o key code (div_30 o.now +ℤ d)) (1 + 2 * skew) (pos 0 -ℤ pos skew)
          ≡ true)
        ↔ Printed o code skew key
  unfolding matches
  steps_iff key =
      let t =
        try_steps_iff (λ d. matches o key code (div_30 o.now +ℤ d)) (1 + 2 * skew)
          (pos 0 -ℤ pos skew) in
      let eq = λ (c : ℤ). subtle_constant_time_equal_iff (o.print_6 (hotp o key c)) code (p _) q in
      (
        λ h. ((t.0 h).0, (t.0 h).1, (eq (step o skew (t.0 h).0)).0 (t.0 h).2),
        λ h. t.1 (h.0, h.1, (eq (step o skew h.0)).1 h.2),
      )

  verify_with_iff :
      (k : Option Text)
      → (verify_with o code skew k ≡ true)
        ↔ ((key : Text) × (k ≡ some key) × Printed o code skew key)
  verify_with_iff none = (λ h. cc h, λ h. cc h.1)
  verify_with_iff (some key) = (
    λ h. (key, refl, (steps_iff key).0 h),
    λ h. (steps_iff key).1 (subst (Printed o code skew) (some-inj h.1) h.2),
  )

-- A code is accepted exactly when the secret decodes and the code, without the spaces around it, has
-- at least six bytes and is the printed value of one of the time steps from `skew` before the
-- present one to `skew` after it.
pub verify_iff :
    (o : Outside) (secret code : Text) (skew : ℕ)
    → ((n : ℕ) → All (λ x. x < 256) (o.print_6 n))
    → All (λ x. x < 256) (trim_space code)
    → (verify o secret code skew ≡ true) ↔ (
        (trim_space secret ≢ [])
        × (6 ≤ length (trim_space code))
        × ((key : Text) × (decode_key o (trim_space secret) ≡ some key)
            × ((i : ℕ) × (i < 1 + 2 * skew)
                × (o.print_6 (hotp o key (step o skew i)) ≡ trim_space code))))
unfolding verify matches
verify_iff o secret code skew p q = elim (Bool-cases (trim_space secret == [])) [
  | inl blank ↦
      rw blank (λ h. cc h, λ h. elim (h.0 ((text_beq_iff (trim_space secret) []).0 blank)) [ ])
  | inr given ↦ elim (Bool-cases (ltb (length (trim_space code)) 6)) [
    | inl short ↦ rw (given, short) (λ h. cc h, λ h. ground (arith, short, h.1))
    | inr long ↦
        rw (given, long)
          (
            λ h. (
              λ e. cc ((text_beq_iff (trim_space secret) []).1 e, given),
              ground (arith, long),
              (verify_with_iff o (trim_space code) skew p q _).0 h,
            ),
            λ h. (verify_with_iff o (trim_space code) skew p q _).1 h.2,
          )
  ]
]
