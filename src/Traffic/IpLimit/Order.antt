-- ===== src/Traffic/IpLimit/Order.antt =====
-- Which addresses an account keeps.
use m_ui.Base.{
  ℕ, zero, suc, ◌-◌, ◌≤◌, true, false, List, [], ◌∷◌, ◌≡◌, refl, inl, inr, length, take, drop, All,
  All-mono, Text, arith, Bool-cases,
}
use m_ui.Base.Int.{pos, leb_ℤ}
use m_ui.Traffic.IpLimit.{Ips, comes_first, insert_ip, sort, excess}

-- No later address has more connections.
abbrev Before : Text × List Text → Text × List Text → Type 0
Before x y = length y.1 ≤ length x.1

abbrev Falling : Ips → Type 0
Falling [] = Unit {0}
Falling (x ∷ xs) = All (Before x) xs × Falling xs

comes_first-Before : (x y : Text × List Text) → comes_first x y ≡ true → Before x y
comes_first-Before (ip, ids) (jp, jds) h = ground arith

not_first-Before : (x y : Text × List Text) → comes_first x y ≡ false → Before y x
not_first-Before (ip, ids) (jp, jds) h = ground arith

insert_ip-All :
    (z x : Text × List Text) (ys : Ips)
    → Before z x
    → All (Before z) ys
    → All (Before z) (insert_ip x ys)
insert_ip-All z x [] h a = (h, tt)
insert_ip-All z x (y ∷ ys) h a = elim (Bool-cases (comes_first x y)) [
  | inl e ↦ rw e (h, a)
  | inr e ↦ rw e (a.0, insert_ip-All z x ys h a.1)
]

insert_ip-Falling : (x : Text × List Text) (ys : Ips) → Falling ys → Falling (insert_ip x ys)
insert_ip-Falling x [] f = (tt, tt)
insert_ip-Falling x (y ∷ ys) f = elim (Bool-cases (comes_first x y)) [
  | inl e ↦
      let first : Before x y = comes_first-Before x y e in
      rw e ((first, All-mono (Before y) (Before x) (λ z k. omega (arith, k, first)) ys f.0), f)
  | inr e ↦ rw e (insert_ip-All y x ys (not_first-Before x y e) f.0, insert_ip-Falling x ys f.1)
]

sort-Falling : (ips : Ips) → Falling (sort ips)
unfolding sort
sort-Falling [] = tt
sort-Falling (x ∷ xs) = insert_ip-Falling x (sort xs) (sort-Falling xs)

length-insert_ip : (x : Text × List Text) (ys : Ips) → length (insert_ip x ys) ≡ suc (length ys)
length-insert_ip x [] = refl
length-insert_ip x (y ∷ ys) = ground (arith, length-insert_ip x ys)

length-sort : (ips : Ips) → length (sort ips) ≡ length ips
unfolding sort
length-sort [] = refl
length-sort (x ∷ xs) = omega (arith, length-insert_ip x (sort xs), length-sort xs)

length-drop : (n : ℕ) (xs : Ips) → length (drop n xs) ≡ length xs - n
length-drop zero xs = omega arith
length-drop (suc n) [] = omega arith
length-drop (suc n) (x ∷ xs) = omega (arith, length-drop n xs)

All-drop : (P : Text × List Text → Type 0) (n : ℕ) (xs : Ips) → All P xs → All P (drop n xs)
All-drop P zero xs a = a
All-drop P (suc n) [] a = a
All-drop P (suc n) (x ∷ xs) a = All-drop P n xs a.1

take-drop : (n : ℕ) (xs : Ips) → Falling xs → All (λ k. All (Before k) (drop n xs)) (take n xs)
take-drop zero xs f = tt
take-drop (suc n) [] f = tt
take-drop (suc n) (x ∷ xs) f = (All-drop (Before x) n xs f.0, take-drop n xs f.1)

nothing : (ks : Ips) → All (λ k. All (Before k) []) ks
nothing [] = tt
nothing (k ∷ ks) = (tt, nothing ks)

-- With a limit of `n` addresses an account loses exactly the ones beyond `n`, and every address that
-- it keeps has at least as many connections as every address that it loses.
pub excess-sort :
    (n : ℕ) (ips : Ips)
    → (length (excess (pos n) ips) ≡ length ips - n)
      × All
          (λ kept. All (λ lost. length lost.1 ≤ length kept.1) (excess (pos n) ips))
          (take n (sort ips))
unfolding excess
excess-sort n ips = elim (Bool-cases (leb_ℤ (pos (length ips)) (pos n))) [
  | inl e ↦ rw e (ground arith, nothing (take n (sort ips)))
  | inr e ↦ rw e (
    omega (arith, length-drop n (sort ips), length-sort ips),
    take-drop n (sort ips) (sort-Falling ips),
  )
]
