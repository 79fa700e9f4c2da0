-- ===== src/User/FirstUse/Begins.antt =====
-- What `TouchFirstUse` does to an account, said without the code's update
-- (backend/internal/user/service.go).
use mathlib.Core.Option
use m_ui.Base.{true, Option, none, some, ◌≡◌, nat_eq}
use m_ui.Base.Int.{pos, ◌+ℤ◌, ◌<ℤ◌}
use m_ui.Clock.{Time, days}
use m_ui.Models.{ProxyUser}

-- The expiry clock starts at the first use.
abbrev pub IsDeferred : ProxyUser → Type 0
IsDeferred u = (u.start_on_first_use ≡ true) × (pos 0 <ℤ u.expire_days_after_first)

-- The account before and after a touch.
pub data Begun (now : Time) (u : ProxyUser) : ProxyUser → Type 0 where
  again : (t : Time) → u.first_connected_at ≡ some t → Begun now u u
  clock_started :
      u.first_connected_at ≡ none
      → IsDeferred u
      → Begun now u (record u {
        first_connected_at = some now;
        expire_time = now +ℤ days u.expire_days_after_first;
      })
  only_stamped :
      u.first_connected_at ≡ none
      → ¬ IsDeferred u
      → Begun now u (record u { first_connected_at = some now })
