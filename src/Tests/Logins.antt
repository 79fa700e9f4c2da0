-- ===== src/Tests/Logins.antt =====
-- The limiter of logins and the one-time passwords.
use m_ui.Base.{
  ◌≤◌, List, [], ◌∷◌, codes, arith, Text, ◌≡◌, ◌≢◌, ◌↔◌, refl, some, none, true, length, trim_space,
}
use m_ui.Base.Int.{pos}
use m_ui.Auth.Totp.{Outside, decode_key, verify}
use m_ui.Auth.Totp.Steps.{Printed, verify_iff}
use m_ui.Clock.{Time}
use m_ui.Auth.Limiter.{login_settings, quarter_hour}
use m_ui.Auth.Limiter.Window.{allowed_count, allowed_count-bounded}

abbrev events : List (Time × Text)
events = (pos 10, codes "a") ∷ (pos 20, codes "b") ∷ (pos 20, codes "a") ∷ []

allowed_count-bounded_example : allowed_count login_settings (codes "a") events [] ≤ 8
allowed_count-bounded_example =
    allowed_count-bounded quarter_hour 8 1 (omega arith) (codes "a") events [] (omega arith)

-- A core in which every code is the same.
abbrev one_time : Outside
one_time = record {
  decode = λ t. some t;
  decode_padded = λ t. none;
  to_upper = λ t. t;
  hmac_sha1 = λ k m. [];
  print_6 = λ n. codes "000000";
  now = pos 90;
}

verify_iff_example : (verify one_time (codes "KEY") (codes "000000 ") 1 ≡ true) ↔ (
    (trim_space (codes "KEY") ≢ [])
    × (6 ≤ length (trim_space (codes "000000 ")))
    × ((key : Text) × (decode_key one_time (trim_space (codes "KEY")) ≡ some key)
        × Printed one_time (trim_space (codes "000000 ")) 1 key))
unfolding trim_space
verify_iff_example =
    verify_iff one_time (codes "KEY") (codes "000000 ") 1 (λ n. omega arith) (omega arith)

verify_run : verify one_time (codes "KEY") (codes "000000 ") 1 ≡ true
unfolding verify trim_space
verify_run = refl
