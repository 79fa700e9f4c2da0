-- ===== src/Traffic/Cycles/Windows.antt =====
-- How often a cycle resets an account, and what a renewal gives.
use m_ui.Base.{ℕ, ◌*◌, ◌≤◌, ◌<◌, true, not, ◌||◌, none, some, ◌≡◌, refl, arith}
use m_ui.Base.Int.{pos, ◌+ℤ◌, ltb_ℤ, ◌≤ℤ◌, ◌<ℤ◌, +ℤ_parts}
use m_ui.Clock.{Time, is_before, days_fits, day_nanos}
use m_ui.Models.{ProxyUser}
use m_ui.Traffic.Cycles.{is_reset_due, is_cycle_new, is_renewal_due, cycle_updates}

-- Switching the cycle on never wipes the counters: the first tick only starts the window.
pub cycle_start :
    (now : Time) (u : ProxyUser)
    → ltb_ℤ (pos 0) u.traffic_reset_days ≡ true
    → u.last_traffic_cycle_reset ≡ none
    → ((cycle_updates now u u).traffic_used ≡ u.traffic_used)
      × ((cycle_updates now u u).upload_bytes ≡ u.upload_bytes)
      × ((cycle_updates now u u).download_bytes ≡ u.download_bytes)
      × ((cycle_updates now u u).last_traffic_cycle_reset ≡ some now)
unfolding cycle_updates
cycle_start now u on fresh = rw (on, fresh) (refl, refl, refl, refl)

-- After a tick that started or reset the window of `n` days, no later tick before its end resets the
-- counters again, and the tick at its end does.
pub cycle_window :
    (now later : Time) (n : ℕ) (u : ProxyUser)
    → u.traffic_reset_days ≡ pos n
    → 0 < n
    → n ≤ 106751
    → (is_cycle_new u || is_reset_due now u) ≡ true
    → is_reset_due later (cycle_updates now u u)
      ≡ not (is_before later (now +ℤ pos (n * day_nanos)))
unfolding cycle_updates
cycle_window now later n u days_n some_days few due =
    rw (due, days_n, days_fits n few) (ground arith)

-- A renewal of `n` days that is due puts the expiry `n` days ahead, so the account has not expired,
-- and the next renewal is due exactly after that; the clock is not before the zero time.
pub cycle_renewal :
    (now later : Time) (n : ℕ) (u : ProxyUser)
    → u.expire_renew_days ≡ pos n
    → 0 < n
    → n ≤ 106751
    → pos 0 ≤ℤ now
    → is_renewal_due now u ≡ true
    → ((cycle_updates now u u).expire_time ≡ now +ℤ pos (n * day_nanos))
      × (now <ℤ (cycle_updates now u u).expire_time)
      × (is_renewal_due later (cycle_updates now u u)
          ≡ is_before (now +ℤ pos (n * day_nanos)) later)
unfolding cycle_updates
cycle_renewal now later n u days_n some_days few since due =
    rw (due, days_n, days_fits n few)
      (
        refl,
        omega (arith, +ℤ_parts now (pos (n * day_nanos))),
        ground (arith, +ℤ_parts now (pos (n * day_nanos))),
      )
