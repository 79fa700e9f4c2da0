-- ===== src/User/Active.antt =====
-- `IsCredentialActive` (backend/internal/user/service.go).
use m_ui.Base.{
  Bool, true, false, not, ◌&&◌, Option, none, some, ◌≡◌, ◌↔◌, ◌⊎◌, if◌then◌else◌, arith,
}
use m_ui.Base.Int.{pos, ltb_ℤ, leb_ℤ, ◌≤ℤ◌, ◌<ℤ◌}
use m_ui.Clock.{Time, zero_time, is_zero, is_before}
use m_ui.Models.{ProxyUser}

abbrev pub is_none {ℓ} : {A : Type ℓ} → Option A → Bool
is_none none = true
is_none (some a) = false

-- The expiry clock of the account has not started.
abbrev pub is_deferred : ProxyUser → Bool
is_deferred u = u.start_on_first_use && is_none u.first_connected_at

-- The `else if` of the expiry test, and the quota test.
abbrev pub has_expired : Time → ProxyUser → Bool
has_expired now u = not (is_zero u.expire_time) && not (is_before now u.expire_time)

abbrev pub is_over_quota : ProxyUser → Bool
is_over_quota u = ltb_ℤ (pos 0) u.traffic_limit && leb_ℤ u.traffic_limit u.traffic_used

unfoldable pub is_credential_active : Time → ProxyUser → Bool
is_credential_active now u =
    if not u.enabled
    then false
    else if not (is_deferred u) && has_expired now u
    then false
    else if is_over_quota u
    then false
    else true

-- What the panel promises of a usable account.
pub record IsActive (now : Time) (u : ProxyUser) : Type 0 where
  pub switched_on : u.enabled ≡ true
  pub not_expired :
      ((u.start_on_first_use ≡ true) × (u.first_connected_at ≡ none))
      ⊎ ((u.expire_time ≡ zero_time) ⊎ (now <ℤ u.expire_time))
  pub within_quota : (u.traffic_limit ≤ℤ pos 0) ⊎ (u.traffic_used <ℤ u.traffic_limit)

is_credential_active-IsActive :
    (now : Time) (u : ProxyUser) → is_credential_active now u ≡ true → IsActive now u
unfolding is_credential_active
is_credential_active-IsActive now u h = ground arith

IsActive-is_credential_active :
    (now : Time) (u : ProxyUser) → IsActive now u → is_credential_active now u ≡ true
unfolding is_credential_active
IsActive-is_credential_active now u h = ground arith

-- A credential counts as active exactly when the account is enabled, its expiry clock has not
-- started or its expiry is unset or lies in the future, and its quota is unset or not used up.
pub is_credential_active_iff :
    (now : Time) (u : ProxyUser) → (is_credential_active now u ≡ true) ↔ IsActive now u
is_credential_active_iff now u =
    (is_credential_active-IsActive now u, IsActive-is_credential_active now u)
