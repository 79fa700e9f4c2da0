-- ===== src/Auth/Limiter.antt =====
-- `allowLogin` and `allowPasswordChange`: one limiter with two settings. A client gets a number of
-- attempts; the next one blocks it for a window, and entries not touched for a window are dropped.
pub mod Window
use m_ui.Base.{
  ℕ, suc, ◌*◌, Bool, true, false, not, ◌&&◌, ◌||◌, List, [], ◌∷◌, Option, none, some, if◌then◌else◌,
  ◌==◌, text_eq, leb, Text,
}
use m_ui.Base.Int.{ℤ, pos, ◌+ℤ◌, ltb_ℤ}
use m_ui.Base.Dict.{lookup, insert, delete}
use m_ui.Clock.{Time, zero_time, is_zero, is_before, time_sub}

pub record LoginAttempt : Type 0 where
  pub count : ℕ
  pub blocked : Time
  pub last : Time

-- `loginLimiter.items`.
abbrev pub Attempts : Type 0
Attempts = List (Text × LoginAttempt)

pub record Settings : Type 0 where
  pub window : ℤ
  pub max_attempt : ℕ

-- Fifteen minutes in nanoseconds.
abbrev pub quarter_hour : ℕ
quarter_hour = 900000000000

abbrev pub login_settings : Settings
login_settings = record { window = pos quarter_hour; max_attempt = 8 }

abbrev password_change_settings : Settings
password_change_settings = record { window = pos quarter_hour; max_attempt = 3 }

abbrev no_attempt : LoginAttempt
no_attempt = record { count = 0; blocked = zero_time; last = zero_time }

abbrev pub or_no_attempt : Option LoginAttempt → LoginAttempt
or_no_attempt none = no_attempt
or_no_attempt (some a) = a

-- More than a window since the last attempt.
abbrev pub is_stale : Settings → Time → LoginAttempt → Bool
is_stale c now a = ltb_ℤ c.window (time_sub now a.last)

-- The loop that drops stale entries.
unfoldable pub drop_stale : Settings → Time → Attempts → Attempts
drop_stale c now [] = []
drop_stale c now ((k, a) ∷ m) =
    let rest = drop_stale c now m in if is_stale c now a then rest else (k, a) ∷ rest

abbrev restart : Settings → Time → LoginAttempt → LoginAttempt
restart c now a = record a {
  count = if is_zero a.last || is_stale c now a then 0 else a.count;
  last = now;
}

abbrev count_attempt : Settings → Time → LoginAttempt → LoginAttempt × Bool
count_attempt c now a =
    if leb c.max_attempt a.count
    then (record a { blocked = now +ℤ c.window }, false)
    else (record a { count = suc a.count }, true)

-- What the limiter does to the entry of the client; `none` where the entry is left alone.
unfoldable pub attempt : Settings → Time → LoginAttempt → Option LoginAttempt × Bool
attempt c now a =
    if not (is_zero a.blocked) && is_before now a.blocked
    then (none, false)
    else let (b, allowed) = count_attempt c now (restart c now a) in (some b, allowed)

abbrev pub store : Text → Option LoginAttempt → Attempts → Attempts
store ip none m = m
store ip (some a) m = insert ip a m

-- The whole call: the new table and whether the attempt is allowed.
unfoldable pub allow : Settings → Time → Text → Attempts → Attempts × Bool
allow c now ip m =
    let kept = drop_stale c now m in
    let (a, allowed) = attempt c now (or_no_attempt (lookup ip kept)) in (store ip a kept, allowed)

unfoldable pub allow_login : Time → Text → Attempts → Attempts × Bool
unfolding allow
allow_login = allow login_settings

unfoldable pub allow_password_change : Time → Text → Attempts → Attempts × Bool
unfolding allow
allow_password_change = allow password_change_settings

-- `resetLoginLimit` and `resetPasswordChangeLimit`.
unfoldable pub reset_limit : Text → Attempts → Attempts
reset_limit ip m = delete ip m
