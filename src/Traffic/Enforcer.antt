-- ===== src/Traffic/Enforcer.antt =====
-- `Enforcer` (backend/internal/traffic/enforcement.go): regenerates the core's configuration when
-- the set of blocked accounts has changed. A set is the list of its keys. `RegenerateConfig` is an
-- argument: `none` where there is no node service, else whether it succeeds.
pub mod Sets
pub mod Changes
use m_ui.Base.{
  ℕ, suc, Bool, true, false, not, ◌&&◌, ◌||◌, List, [], ◌∷◌, ◌++◌, Option, none, some,
  if◌then◌else◌, ◌==◌, nat_eq, contains, length, filter,
}
use m_ui.Clock.{Time}
use m_ui.Models.{Db, ProxyUser}
use m_ui.Store.{World, Outcome, done, failed, M, select, Error, config_error}
use m_ui.Table.{users_where}
use m_ui.User.Active.{is_credential_active}

pub record Enforcer : Type 0 where
  pub last_blocked : List ℕ

-- `regenerated` says whether `RegenerateConfig` was called.
pub record Check : Type 0 where
  pub blocked_count : ℕ
  pub error : Option Error
  pub enforcer : Enforcer
  pub regenerated : Bool

abbrev pub add_key : ℕ → List ℕ → List ℕ
add_key id m = if contains m id then m else m ++ id ∷ []

unfoldable pub blocked_ids : Time → List ProxyUser → List ℕ → List ℕ
blocked_ids now [] m = m
blocked_ids now (u ∷ us) m =
    blocked_ids now us (if is_credential_active now u then m else add_key u.id m)

unfoldable pub all_in : List ℕ → List ℕ → Bool
all_in [] b = true
all_in (k ∷ ks) b = if not (contains b k) then false else all_in ks b

unfoldable pub equal_blocked_sets : List ℕ → List ℕ → Bool
equal_blocked_sets a b = if not (length a == length b) then false else all_in a b

-- The loop that deletes the keys which are not in `current`.
unfoldable pub prune : List ℕ → List ℕ → List ℕ
prune current last = filter (contains current) last

abbrev enforce_changed : Option Bool → List ℕ → Enforcer → Check
enforce_changed none current e = record {
  blocked_count = length current;
  error = none;
  enforcer = record { last_blocked = current };
  regenerated = false;
}
enforce_changed (some false) current e = record {
  blocked_count = length current;
  error = some config_error;
  enforcer = e;
  regenerated = true;
}
enforce_changed (some true) current e = record {
  blocked_count = length current;
  error = none;
  enforcer = record { last_blocked = prune current current };
  regenerated = true;
}

unfoldable pub enforce : Option Bool → List ℕ → Enforcer → Check
enforce regenerate current e =
    if not (equal_blocked_sets e.last_blocked current)
    then enforce_changed regenerate current e
    else record { blocked_count = length current; error = none; enforcer = e; regenerated = false }

abbrev checked : Time → Option Bool → Enforcer → Outcome (List ProxyUser) → Check × World
checked now regenerate e (failed x w) =
    (record { blocked_count = 0; error = some x; enforcer = e; regenerated = false }, w)
checked now regenerate e (done us w) = (enforce regenerate (blocked_ids now us []) e, w)

unfoldable pub check_and_enforce : Time → Option Bool → Enforcer → World → Check × World
check_and_enforce now regenerate e w = checked now regenerate e (select (users_where (λ _. true)) w)
