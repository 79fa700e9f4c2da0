-- ===== src/Tests/Creds.antt =====
-- The credentials of listeners.
use m_ui.Base.{false, [], ◌∷◌, none, some, codes, text_eq, nat_eq, ◌≡◌, refl, All, trim_space}
use m_ui.Base.Int.{pos}
use m_ui.Credentials.{Outside}
use m_ui.Store.{Outcome, done, failed, select}
use m_ui.User.Active.{is_credential_active}
use m_ui.User.Creds.{Result, entry_of, credentials_by_listener, listener_entry}
use m_ui.User.Creds.Bound.{FromUser, credentials_by_listener-FromUser}
use m_ui.Tests.Data.{panel}

abbrev outside : Outside
outside = record {
  unmarshal = λ t. none;
  marshal = λ m. none;
  sprint = λ v. [];
  random_secret = λ l. none;
  random_uuid = λ l. none;
  decrypt = λ t. some (codes "secret");
}

abbrev value_of : Outcome Result → Result
value_of (done r v) = r
value_of (failed e v) = λ l. none

abbrev result : Result
unfolding credentials_by_listener
result = value_of (credentials_by_listener outside false (pos 5) panel)

-- The account that is bound to the listener is active.
has_one :
    entry_of (result 7)
    ≡ record { username = codes "alice"; password = codes "secret"; uuid = [] } ∷ []
unfolding credentials_by_listener is_credential_active select listener_entry trim_space
has_one = refl

credentials_by_listener-FromUser_example :
    All (FromUser outside (pos 5) panel.db 7) (entry_of (result 7))
unfolding credentials_by_listener is_credential_active select listener_entry
credentials_by_listener-FromUser_example =
    credentials_by_listener-FromUser outside false (pos 5) panel panel result 7 refl refl
