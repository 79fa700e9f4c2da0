-- ===== src/Clock.antt =====
-- Go's `time.Time` and `time.Duration`: nanoseconds since the zero time, and `int64` nanoseconds.
-- `Time.Add` is exact, as Go's is in this range; the product that makes a duration wraps.
use m_ui.Base.{ℕ, ◌*◌, ◌≤◌, ◌≡◌, Bool, if◌then◌else◌, arith, int64, int64_fits}
use m_ui.Base.Int.{ℤ, pos, ltb_ℤ, eqb_ℤ, negsuc, ◌*ℤ◌, ◌-ℤ◌}

abbrev pub Time : Type 0
Time = ℤ

abbrev pub zero_time : Time
zero_time = pos 0

abbrev pub is_zero : Time → Bool
is_zero t = eqb_ℤ t zero_time

-- `t.Before(u)`; `t.After(u)` is `is_before u t`.
abbrev pub is_before : Time → Time → Bool
is_before t u = ltb_ℤ t u

-- One day in nanoseconds.
abbrev pub day_nanos : ℕ
day_nanos = 86400000000000

-- `time.Duration(n) * 24 * time.Hour`.
unfoldable pub days : ℤ → ℤ
days n = int64 (int64 (n *ℤ pos 24) *ℤ pos 3600000000000)

-- Up to 106751 days, 292 years, the product does not wrap.
pub days_fits : (n : ℕ) → n ≤ 106751 → days (pos n) ≡ pos (n * day_nanos)
unfolding days ◌*ℤ◌
days_fits n h = ground (
  arith,
  int64_fits (pos (n * 24)) (omega arith) (omega arith),
  int64_fits (pos (n * 24 * 3600000000000)) (omega arith) (omega arith),
)

-- `t.Sub(u)`, which saturates at the bounds of `int64`.
unfoldable pub time_sub : Time → Time → ℤ
time_sub t u =
    let d = t -ℤ u in
    if ltb_ℤ (pos 9223372036854775807) d
    then pos 9223372036854775807
    else if ltb_ℤ d (negsuc 9223372036854775807)
    then negsuc 9223372036854775807
    else d
