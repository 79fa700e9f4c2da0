-- ===== src/Traffic/Cycles/Due.antt =====
-- What a tick of `MaybeApplyUserCycles` does to each account, said without the code's tests
-- (backend/internal/traffic/cycle_renew.go).
use m_ui.Base.{true, false, List, [], ◌∷◌, none, some, ◌≡◌, ◌≢◌, ◌⊎◌}
use m_ui.Base.Int.{pos, ◌+ℤ◌, ◌<ℤ◌, ◌≤ℤ◌}
use m_ui.Clock.{Time, zero_time, days}
use m_ui.Models.{ProxyUser}

-- The cycle is on, and its window began that many days ago or earlier.
abbrev pub IsResetDue : Time → ProxyUser → Type 0
IsResetDue now u =
    (pos 0 <ℤ u.traffic_reset_days)
    × ((t : Time) × (u.last_traffic_cycle_reset ≡ some t) × (t +ℤ days u.traffic_reset_days ≤ℤ now))

-- The cycle is on, and no window has begun.
abbrev pub IsCycleNew : ProxyUser → Type 0
IsCycleNew u = (pos 0 <ℤ u.traffic_reset_days) × (u.last_traffic_cycle_reset ≡ none)

-- The account renews itself, and its expiry is set and past.
abbrev pub IsRenewalDue : Time → ProxyUser → Type 0
IsRenewalDue now u =
    (pos 0 <ℤ u.expire_renew_days) × (u.expire_time ≢ zero_time) × (u.expire_time <ℤ now)

-- The account before and after a tick.
pub record Ticked (now : Time) (u v : ProxyUser) : Type 0 where
  pub counters :
      (IsResetDue now u
        × ((v.traffic_used ≡ pos 0) × (v.upload_bytes ≡ pos 0) × (v.download_bytes ≡ pos 0)))
      ⊎ ((¬ IsResetDue now u)
          × ((v.traffic_used ≡ u.traffic_used)
              × (v.upload_bytes ≡ u.upload_bytes)
              × (v.download_bytes ≡ u.download_bytes)))
  pub window :
      ((IsCycleNew u ⊎ IsResetDue now u) × (v.last_traffic_cycle_reset ≡ some now))
      ⊎ ((¬ IsCycleNew u)
          × (¬ IsResetDue now u)
          × (v.last_traffic_cycle_reset ≡ u.last_traffic_cycle_reset))
  pub expiry :
      (IsRenewalDue now u × (v.expire_time ≡ now +ℤ days u.expire_renew_days))
      ⊎ ((¬ IsRenewalDue now u) × (v.expire_time ≡ u.expire_time))
  pub others : v ≡ record u {
    traffic_used = v.traffic_used;
    upload_bytes = v.upload_bytes;
    download_bytes = v.download_bytes;
    last_traffic_cycle_reset = v.last_traffic_cycle_reset;
    expire_time = v.expire_time;
  }

-- Row by row: a deleted row stays, a live one is ticked.
abbrev pub TickedRows : Time → List ProxyUser → List ProxyUser → Type 0
TickedRows now [] [] = Unit {0}
TickedRows now (u ∷ us) (v ∷ vs) =
    (((u.deleted ≡ true) × (v ≡ u)) ⊎ ((u.deleted ≡ false) × Ticked now u v)) × TickedRows now us vs
TickedRows now _ _ = ⊥
