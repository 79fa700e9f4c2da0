-- ===== src/Traffic/Rate.antt =====
-- `Service` (backend/internal/traffic/service.go): the snapshot of the totals and rates. The clock
-- and the floating-point division are arguments.
use m_ui.Base.{ℕ, Bool, true, false, not, ◌&&◌, ◌≡◌, refl, if◌then◌else◌, arith, int64}
use m_ui.Base.Int.{ℤ, pos, ◌-ℤ◌, ltb_ℤ, eqb_ℤ, ◌≤ℤ◌}
use m_ui.Clock.{Time, time_sub}

pub record Snapshot : Type 0 where
  pub upload_bytes : ℤ
  pub download_bytes : ℤ
  pub upload_rate : ℤ
  pub download_rate : ℤ
  pub connections : ℕ

pub record Service : Type 0 where
  pub last : Snapshot
  pub last_time : Time

abbrev clamp : ℤ → ℤ
clamp d = if ltb_ℤ d (pos 0) then pos 0 else d

-- `int64(float64(delta) / seconds)`, for the nanoseconds between two samples.
pub record Division : Type 0 where
  pub rate : ℤ → ℤ → ℤ
  pub rate_nonneg : (delta nanos : ℤ) → pos 0 ≤ℤ delta → pos 0 ≤ℤ nanos → pos 0 ≤ℤ rate delta nanos

abbrev empty_snapshot : Snapshot
empty_snapshot = record {
  upload_bytes = pos 0;
  download_bytes = pos 0;
  upload_rate = pos 0;
  download_rate = pos 0;
  connections = 0;
}

unfoldable pub new_service : Time → Service
new_service now = record { last = empty_snapshot; last_time = now }

abbrev is_first_call : Service → Bool
is_first_call s = eqb_ℤ s.last.upload_bytes (pos 0) && eqb_ℤ s.last.download_bytes (pos 0)

-- A rate is derived: time has passed since the last sample, which is not the first.
abbrev is_moving : Service → Time → Bool
is_moving s now = ltb_ℤ (pos 0) (time_sub now s.last_time) && not (is_first_call s)

module _ (d : Division) where
  open d use {rate, rate_nonneg}

  snapshot : Service → Time → ℤ → ℤ → ℕ → Snapshot
  snapshot s now up down connections =
      let nanos = time_sub now s.last_time in
      let moving = is_moving s now in
      record {
        upload_bytes = up;
        download_bytes = down;
        upload_rate =
            if moving then rate (clamp (int64 (up -ℤ s.last.upload_bytes))) nanos else pos 0;
        download_rate =
            if moving then rate (clamp (int64 (down -ℤ s.last.download_bytes))) nanos else pos 0;
        connections = connections;
      }

  unfoldable pub update : Service → Time → ℤ → ℤ → ℕ → Service
  unfolding snapshot
  update s now up down connections = record {
    last = snapshot s now up down connections;
    last_time = now;
  }

unfoldable pub apply_sample : Service → Time → ℤ → ℤ → ℕ → ℤ → ℤ → Service
apply_sample s now up down connections upload_rate download_rate = record {
  last = record {
    upload_bytes = up;
    download_bytes = down;
    upload_rate = upload_rate;
    download_rate = download_rate;
    connections = connections;
  };
  last_time = now;
}

clamp_nonneg : (z : ℤ) → pos 0 ≤ℤ clamp z
clamp_nonneg z = ground arith

rate_cases :
    (d : Division) (b : Bool) (z nanos : ℤ)
    → (b ≡ true → pos 0 ≤ℤ nanos)
    → pos 0 ≤ℤ (if b then d.rate (clamp z) nanos else pos 0)
rate_cases d true z nanos h = d.rate_nonneg (clamp z) nanos (clamp_nonneg z) (h refl)
rate_cases d false z nanos h = omega arith

moving_nonneg : (b : Bool) (z : ℤ) → (ltb_ℤ (pos 0) z && b) ≡ true → pos 0 ≤ℤ z
moving_nonneg b z h = ground arith

is_moving-first : (s : Service) (now : Time) → is_first_call s ≡ true → is_moving s now ≡ false
is_moving-first s now h = ground arith

-- Whatever the totals do, also where the core restarts and they fall, the rates that a poll derives
-- are never negative, and the totals are the poll's.
pub update_rates :
    (d : Division) (s : Service) (now : Time) (up down : ℤ) (connections : ℕ)
    → (pos 0 ≤ℤ (update d s now up down connections).last.upload_rate)
      × (pos 0 ≤ℤ (update d s now up down connections).last.download_rate)
      × ((update d s now up down connections).last.upload_bytes ≡ up)
      × ((update d s now up down connections).last.download_bytes ≡ down)
unfolding update
update_rates d s now up down connections =
    let nanos = time_sub now s.last_time in
    let ahead = moving_nonneg (not (is_first_call s)) nanos in
    (
      rate_cases d (is_moving s now) (int64 (up -ℤ s.last.upload_bytes)) nanos ahead,
      rate_cases d (is_moving s now) (int64 (down -ℤ s.last.download_bytes)) nanos ahead,
      refl,
      refl,
    )
