-- ===== src/Auth/Limiter/Window.antt =====
-- How many attempts of one client the limiter allows within one window of time.
use m_ui.Base.{
  ℕ, suc, ◌+◌, ◌-◌, ◌≤◌, ◌<◌, Bool, true, false, ◌&&◌, List, [], ◌∷◌, Option, none, some, ◌≡◌, refl,
  ap, inl, inr, if◌then◌else◌, ◌==◌, text_eq, Text, beq-eq, beq_refl, All, arith, Bool-cases,
}
use m_ui.Base.Int.{pos, ◌≤ℤ◌, -ℤ_parts}
use m_ui.Base.Dict.{lookup, lookup-insert}
use m_ui.Clock.{Time, time_sub}
use m_ui.Auth.Limiter.{
  LoginAttempt, Attempts, Settings, or_no_attempt, is_stale, drop_stale, attempt, allow, store,
}

-- The attempts of `ip` that the limiter allows, when attempts of any clients come in this order.
unfoldable pub allowed_count : Settings → Text → List (Time × Text) → Attempts → ℕ
allowed_count c ip [] m = 0
allowed_count c ip ((now, j) ∷ es) m =
    let rest = allowed_count c ip es (allow c now j m).0 in
    if (allow c now j m).1 && j == ip then suc rest else rest

-- The client after its attempt: the entry it is given, or the one that was left alone.
abbrev entry_after : Option LoginAttempt → Option LoginAttempt → Option LoginAttempt
entry_after (some b) old = some b
entry_after none old = old

abbrev kept_entry : Settings → Time → Text → Attempts → Option LoginAttempt
unfolding drop_stale
kept_entry c now ip m = lookup ip (drop_stale c now m)

module _ (w n t : ℕ) (pos_t : 0 < t) where
  abbrev settings : Settings
  settings = record { window = pos w; max_attempt = n }

  abbrev In : Time → Type 0
  In x = pos t ≤ℤ x × x ≤ℤ pos (t + w)

  -- The client has an entry last touched in the window, with this count.
  abbrev Recent : ℕ → Option LoginAttempt → Type 0
  Recent k none = true ≡ false
  Recent k (some a) = In a.last × a.count ≡ k

  In-is_stale :
      (now : Time) (a : LoginAttempt) → In now → In a.last → is_stale settings now a ≡ false
  unfolding time_sub
  In-is_stale now a h k = ground (arith, -ℤ_parts now a.last)

  drop_stale-lookup :
      (now : Time) (ip : Text) (a : LoginAttempt) (m : Attempts)
      → is_stale settings now a ≡ false
      → lookup ip m ≡ some a
      → lookup ip (drop_stale settings now m) ≡ some a
  unfolding drop_stale
  drop_stale-lookup now ip a [] f h = h
  drop_stale-lookup now ip a ((j, b) ∷ m) f h = ground (arith, drop_stale-lookup now ip a m f)

  attempt-Recent :
      (now : Time) (k : ℕ) (a : LoginAttempt)
      → In now
      → In a.last
      → a.count ≡ k
      → Recent
          (if (attempt settings now a).1 then suc k else k)
          (entry_after (attempt settings now a).0 (some a))
  unfolding attempt
  attempt-Recent now k a h i e = ground (arith, In-is_stale now a h i)

  attempt_allowed :
      (now : Time) (k : ℕ) (a : LoginAttempt)
      → In now
      → In a.last
      → a.count ≡ k
      → (attempt settings now a).1 ≡ true
      → k < n
  unfolding attempt
  attempt_allowed now k a h i e = ground (arith, In-is_stale now a h i)

  -- Whatever the entry was: a new one is in the window, and its count covers this attempt.
  abbrev Covered : Bool → Option LoginAttempt → Type 0
  Covered allowed none = allowed ≡ false
  Covered allowed (some b) =
      In b.last × (if allowed then 1 else 0) ≤ b.count × (allowed ≡ true → b.count ≤ n)

  attempt-Covered :
      (now : Time) (a : LoginAttempt)
      → In now
      → Covered (attempt settings now a).1 (attempt settings now a).0
  unfolding attempt
  attempt-Covered now a h = ground arith

  lookup-allow_other :
      (now : Time) (j ip : Text) (a : LoginAttempt) (m : Attempts)
      → In now
      → In a.last
      → (j == ip) ≡ false
      → lookup ip m ≡ some a
      → lookup ip (allow settings now j m).0 ≡ some a
  unfolding allow
  lookup-allow_other now j ip a m h i ne e =
      other (attempt settings now (or_no_attempt (lookup j (drop_stale settings now m)))).0
        (drop_stale settings now m) (drop_stale-lookup now ip a m (In-is_stale now a h i) e)
    where
      other :
          (b : Option LoginAttempt) (l : Attempts)
          → lookup ip l ≡ some a
          → lookup ip (store j b l) ≡ some a
      other none l e = e
      other (some b) l e = rw (lookup-insert j ip b l, ne) e

  lookup-allow_same :
      (c : Settings) (now : Time) (ip : Text) (m : Attempts)
      → lookup ip (allow c now ip m).0
        ≡ entry_after
            (attempt c now (or_no_attempt (kept_entry c now ip m))).0
            (kept_entry c now ip m)
  unfolding allow drop_stale kept_entry
  lookup-allow_same c now ip m =
      same (attempt c now (or_no_attempt (kept_entry c now ip m))).0 (drop_stale c now m)
    where
      same :
          (b : Option LoginAttempt) (l : Attempts)
          → lookup ip (store ip b l) ≡ entry_after b (lookup ip l)
      same none l = refl
      same (some b) l = rw (lookup-insert ip ip b l, beq_refl ip) refl

  allow-Recent :
      (now : Time) (ip : Text) (k : ℕ) (m : Attempts)
      → In now
      → Recent k (lookup ip m)
      → Recent
          (if (allow settings now ip m).1 then suc k else k)
          (lookup ip (allow settings now ip m).0)
        × ((allow settings now ip m).1 ≡ true → k < n)
  unfolding allow kept_entry
  allow-Recent now ip k m h r = go (lookup ip m) refl r
    where
      go :
          (o : Option LoginAttempt)
          → lookup ip m ≡ o
          → Recent k o
          → Recent
              (if (allow settings now ip m).1 then suc k else k)
              (lookup ip (allow settings now ip m).0)
            × ((allow settings now ip m).1 ≡ true → k < n)
      go none e r = cc
      go (some a) e (i, q) =
          rw
            (
              lookup-allow_same settings now ip m,
              drop_stale-lookup now ip a m (In-is_stale now a h i) e,
            )
            (attempt-Recent now k a h i q, attempt_allowed now k a h i q)

  allow-Recent_other :
      (now : Time) (j ip : Text) (k : ℕ) (m : Attempts)
      → In now
      → (j == ip) ≡ false
      → Recent k (lookup ip m)
      → Recent k (lookup ip (allow settings now j m).0)
  allow-Recent_other now j ip k m h ne r = go (lookup ip m) refl r
    where
      go :
          (o : Option LoginAttempt)
          → lookup ip m ≡ o
          → Recent k o
          → Recent k (lookup ip (allow settings now j m).0)
      go none e r = cc
      go (some a) e (i, q) = rw (lookup-allow_other now j ip a m h i ne e) (i, q)

  skip : (b : Bool) {x y : ℕ} → x ≤ y → (if b && false then suc x else x) ≤ y
  skip b h = ground (arith, h)

  -- Once the client has an entry in the window, its count bounds what is left.
  allowed_count-Recent :
      (ip : Text) (k : ℕ) (es : List (Time × Text)) (m : Attempts)
      → All (λ e. In e.0) es
      → Recent k (lookup ip m)
      → allowed_count settings ip es m ≤ n - k
  unfolding allowed_count
  allowed_count-Recent ip k [] m hs r = omega arith
  allowed_count-Recent ip k ((now, j) ∷ es) m (h, hs) r = elim (Bool-cases (j == ip)) [
    | inl q ↦
        rw (beq-eq j ip q, beq_refl ip)
          (turn (allow settings now ip m).1 (allow-Recent now ip k m h r)
            (λ i. allowed_count-Recent ip i es (allow settings now ip m).0 hs))
    | inr q ↦ rw q (
        skip (allow settings now j m).1 (
          allowed_count-Recent ip k es (allow settings now j m).0 hs
            (allow-Recent_other now j ip k m h q r)))
  ]
    where
      turn :
          (b : Bool) {x : ℕ} {R : ℕ → Type 0}
          → R (if b then suc k else k) × (b ≡ true → k < n)
          → ((i : ℕ) → R i → x ≤ n - i)
          → (if b && true then suc x else x) ≤ n - k
      turn true (r, h) f = omega (arith, f (suc k) r, h refl)
      turn false (r, h) f = f k r

  -- An attempt that makes a new entry starts the count; one that is refused adds nothing.
  first_turn :
      (now : Time) (ip : Text) (es : List (Time × Text)) (m : Attempts)
      → In now
      → All (λ e. In e.0) es
      → allowed_count settings ip es (allow settings now ip m).0 ≤ n
      → (if (allow settings now ip m).1 && true
          then suc (allowed_count settings ip es (allow settings now ip m).0)
          else allowed_count settings ip es (allow settings now ip m).0)
        ≤ n
  unfolding allow kept_entry
  first_turn now ip es m h hs rest =
      go (attempt settings now (or_no_attempt (kept_entry settings now ip m))) refl
        (attempt-Covered now (or_no_attempt (kept_entry settings now ip m)) h)
    where
      settle :
          (b : Bool) {x : ℕ} → x ≤ n → (b ≡ true → x < n) → (if b && true then suc x else x) ≤ n
      settle true h k = k refl
      settle false h k = h

      recent :
          (a : LoginAttempt)
          → In a.last
          → attempt settings now (or_no_attempt (kept_entry settings now ip m)) ≡ (some a, true)
          → Recent a.count (lookup ip (allow settings now ip m).0)
      recent a i e = rw (lookup-allow_same settings now ip m, e) (i, refl)

      go :
          (r : Option LoginAttempt × Bool)
          → attempt settings now (or_no_attempt (kept_entry settings now ip m)) ≡ r
          → Covered r.1 r.0
          → (if (allow settings now ip m).1 && true
              then suc (allowed_count settings ip es (allow settings now ip m).0)
              else allowed_count settings ip es (allow settings now ip m).0)
            ≤ n
      go (none, b) e c = settle (allow settings now ip m).1 rest (λ p. cc (ap (λ r. r.1) e, c, p))
      go (some a, false) e c =
          settle (allow settings now ip m).1 rest (λ p. cc (ap (λ r. r.1) e, p))
      go (some a, true) e (i, l, u) = settle (allow settings now ip m).1 rest (λ p. omega (
        arith,
        allowed_count-Recent ip a.count es (allow settings now ip m).0 hs (recent a i e),
        u refl,
      ))

  -- No more than the set number of a client's attempts are allowed within one window of time, in
  -- any table of entries and whatever the order of the attempts and the other clients'
  -- attempts between them: the attempts lie in a window that starts after the zero time, and no
  -- limit is reset in it.
  pub allowed_count-bounded :
      (ip : Text) (es : List (Time × Text)) (m : Attempts)
      → All (λ e. In e.0) es
      → allowed_count settings ip es m ≤ n
  unfolding allowed_count
  allowed_count-bounded ip [] m hs = omega arith
  allowed_count-bounded ip ((now, j) ∷ es) m (h, hs) = elim (Bool-cases (j == ip)) [
    | inl q ↦
        rw (beq-eq j ip q, beq_refl ip)
          (first_turn now ip es m h hs (allowed_count-bounded ip es (allow settings now ip m).0 hs))
    | inr q ↦ rw q (
        skip (allow settings now j m).1 (allowed_count-bounded ip es (allow settings now j m).0 hs))
  ]
