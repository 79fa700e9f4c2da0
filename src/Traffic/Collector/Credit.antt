-- ===== src/Traffic/Collector/Credit.antt =====
-- The bytes of a cycle, counted without the code's arithmetic (backend/internal/traffic/collector.go).
use mathlib.Core.Path.{ap₂}
use m_ui.Base.{
  ℕ, ◌+◌, ◌-◌, ◌<◌, ◌^◌, List, [], ◌∷◌, ◌≡◌, ap, ◌∙◌, inl, inr, if◌then◌else◌, ltb, nat_eq, text_eq,
  Text, int64, int64_fits, arith, Bool-cases, All,
}
use m_ui.Base.Int.{ℤ, pos, ◌+ℤ◌, ◌-ℤ◌, pos_part, negsuc}
use m_ui.Base.Dict.{lookup}
use m_ui.Traffic.Collector.{
  Connection, ConnSample, Tables, or_zero, delta, add_delta, up_delta, down_delta, collect_loop,
  empty_cycle,
}
use m_ui.Traffic.Collector.Accounting.{
  credited, collect_loop-credited, is_user_of, delta_grown, add_pos,
}

abbrev pub sample : ℕ → ℕ → ConnSample
sample a b = record { upload = pos a; download = pos b }

-- A counter that the core reports is an `int64` that is not negative.
abbrev pub IsCounter : ℤ → Type 0
IsCounter z = (z ≡ pos (pos_part z)) × (pos_part z < 2 ^ 63)

abbrev pub IsSample : ConnSample → Type 0
IsSample s = IsCounter s.upload × IsCounter s.download

abbrev pub AreCounters : List (Text × ConnSample) → List Connection → Type 0
AreCounters prev cs =
    All (λ c. (IsCounter c.upload × IsCounter c.download) × IsSample (or_zero (lookup c.id prev)))
      cs

-- The bytes that a counter moved by since its last reading; a counter that fell began anew.
abbrev pub since : ℕ → ℕ → ℕ
since before now = if ltb now before then now else now - before

-- The bytes that the account's connections moved since the last cycle, in one direction.
abbrev pub moved :
    (Connection → ℤ)
    → (ConnSample → ℤ)
    → Tables
    → List (Text × ConnSample)
    → ℕ
    → List Connection
    → ℕ
moved counter of t prev id [] = 0
moved counter of t prev id (c ∷ cs) =
    let rest = moved counter of t prev id cs in
    if is_user_of t id c
    then since (pos_part (of (or_zero (lookup c.id prev)))) (pos_part (counter c)) + rest
    else rest

abbrev pub uploaded : Tables → List (Text × ConnSample) → ℕ → List Connection → ℕ
uploaded = moved (λ c. c.upload) (λ s. s.upload)

abbrev pub downloaded : Tables → List (Text × ConnSample) → ℕ → List Connection → ℕ
downloaded = moved (λ c. c.download) (λ s. s.download)

sub_fell : (x p : ℕ) → x < p → pos x -ℤ pos p ≡ negsuc (p - x - 1)
unfolding ◌-ℤ◌
sub_fell x p h = ground arith

delta_fell : (x p : ℕ) → x < p → p < 2 ^ 63 → delta (pos x) (pos p) ≡ pos x
unfolding delta
delta_fell x p h k =
    rw (sub_fell x p h, int64_fits (negsuc (p - x - 1)) (omega arith) (omega arith)) (ground arith)

delta_pos : (x p : ℕ) → x < 2 ^ 63 → p < 2 ^ 63 → delta (pos x) (pos p) ≡ pos (since p x)
delta_pos x p h k = elim (Bool-cases (ltb x p)) [
  | inl less ↦ rw less (delta_fell x p (ground (arith, less)) k)
  | inr more ↦ rw more (delta_grown x p (ground (arith, more)) h)
]

delta-since :
    (x p : ℤ) → IsCounter x → IsCounter p → delta x p ≡ pos (since (pos_part p) (pos_part x))
delta-since x p hx hp = ap₂ delta hx.0 hp.0 ∙ delta_pos (pos_part x) (pos_part p) hx.1 hp.1

add_fits : (a b : ℕ) → a + b < 2 ^ 63 → int64 (pos a +ℤ pos b) ≡ pos (a + b)
add_fits a b h = ap int64 (add_pos a b) ∙ int64_fits (pos (a + b)) (omega arith) (omega arith)

add_delta_pos :
    (a b x y : ℕ)
    → a + x < 2 ^ 63
    → b + y < 2 ^ 63
    → add_delta (sample a b) (pos x) (pos y) ≡ sample (a + x) (b + y)
add_delta_pos a b x y h k =
    ap₂ (λ u d. record { upload = u; download = d }) (add_fits a x h) (add_fits b y k)

credited-moved :
    (t : Tables) (prev : List (Text × ConnSample)) (id : ℕ) (cs : List Connection) (a b : ℕ)
    → AreCounters prev cs
    → a + uploaded t prev id cs < 2 ^ 63
    → b + downloaded t prev id cs < 2 ^ 63
    → credited t prev id cs (sample a b)
      ≡ sample (a + uploaded t prev id cs) (b + downloaded t prev id cs)
credited-moved t prev id [] a b n h k = ap₂ sample (omega arith) (omega arith)
credited-moved t prev id (c ∷ cs) a b n h k = elim (Bool-cases (is_user_of t id c)) [
  | inl its ↦
      rw its (its_case (λ x y. credited-moved t prev id cs x y n.1) (rw its at h) (rw its at k))
  | inr other ↦ rw other (credited-moved t prev id cs a b n.1 (rw other at h) (rw other at k))
]
  where
    up : ℕ
    up = since (pos_part (or_zero (lookup c.id prev)).upload) (pos_part c.upload)

    down : ℕ
    down = since (pos_part (or_zero (lookup c.id prev)).download) (pos_part c.download)

    step :
        a + up < 2 ^ 63
        → b + down < 2 ^ 63
        → add_delta (sample a b) (up_delta prev c) (down_delta prev c) ≡ sample (a + up) (b + down)
    step x y =
        ap₂ (add_delta (sample a b)) (delta-since c.upload _ n.0.0.0 n.0.1.0)
          (delta-since c.download _ n.0.0.1 n.0.1.1)
        ∙ add_delta_pos a b up down x y

    its_case :
        ((x y : ℕ)
          → x + uploaded t prev id cs < 2 ^ 63
          → y + downloaded t prev id cs < 2 ^ 63
          → credited t prev id cs (sample x y)
            ≡ sample (x + uploaded t prev id cs) (y + downloaded t prev id cs))
        → a + (up + uploaded t prev id cs) < 2 ^ 63
        → b + (down + downloaded t prev id cs) < 2 ^ 63
        → credited t prev id cs (add_delta (sample a b) (up_delta prev c) (down_delta prev c))
          ≡ sample (a + (up + uploaded t prev id cs)) (b + (down + downloaded t prev id cs))
    its_case ih x y =
        ap (credited t prev id cs) (step (omega (arith, x)) (omega (arith, y)))
        ∙ ih (a + up) (b + down) (omega (arith, x)) (omega (arith, y))
        ∙ ap₂ sample (omega arith) (omega arith)

-- A cycle credits each account with the bytes that the connections attributed to it moved since the
-- last cycle.
pub collect_loop-moved :
    (t : Tables) (prev : List (Text × ConnSample)) (cs : List Connection) (id : ℕ)
    → AreCounters prev cs
    → uploaded t prev id cs < 2 ^ 63
    → downloaded t prev id cs < 2 ^ 63
    → or_zero (lookup id (collect_loop t prev cs empty_cycle).user_deltas)
      ≡ sample (uploaded t prev id cs) (downloaded t prev id cs)
collect_loop-moved t prev cs id n h k =
    collect_loop-credited t prev cs id
    ∙ credited-moved t prev id cs 0 0 n (omega (arith, h)) (omega (arith, k))
    ∙ ap₂ sample (omega arith) (omega arith)
