-- ===== src/Store.antt =====
-- Statements against the database, as the services issue them through gorm. A statement may fail:
-- `faults` says of each statement to come whether it does, and none fails once the list is used up.
-- A failed statement changes nothing, and a failed transaction puts the old tables back.
pub mod Laws
use m_ui.Base.{Bool, true, false, List, [], ◌∷◌, Option, none, some}
use m_ui.Models.{Db}

pub data Error : Type 0 where
  db_error : Error
  record_not_found : Error
  ids_required : Error
  unknown_action : Error
  days_not_positive : Error
  traffic_not_positive : Error
  unknown_listener : Error
  max_devices : Error
  telegram_id_required : Error
  config_error : Error
  fetch_error : Error
  random_error : Error
  no_token : Error
  username_required : Error
  username_exists : Error
  uuid_exists : Error
  encrypt_error : Error
  name_required : Error
  name_exists : Error
  endpoint_conflict : Error
  no_free_port : Error
  invalid_listener : Error
  no_ids : Error
  missing_listeners : Error

abbrev pub is_not_found : Error → Bool
is_not_found record_not_found = true
is_not_found _ = false

-- `reload_handler` says whether `SetCredentialsChangedHandler` was called, `reload_pending` is
-- the service's `credPending`, `apply_pending` the listener service's `applyPending`.
pub record World : Type 0 where
  pub db : Db
  pub faults : List Bool
  pub reload_handler : Bool
  pub reload_pending : Bool
  pub apply_pending : Bool

pub data Outcome {ℓ} (A : Type ℓ) : Type ℓ where
  done : A → World → Outcome A
  failed : Error → World → Outcome A

abbrev pub M {ℓ} : Type ℓ → Type ℓ
M A = World → Outcome A

abbrev pub bind {ℓ κ} : {A : Type ℓ} {B : Type κ} → Outcome A → (A → M B) → Outcome B
bind (done a w) f = f a w
bind (failed e w) f = failed e w

infixl 5 ◌>>=◌ ◌>>◌
abbrev pub ◌>>=◌ {ℓ κ} : {A : Type ℓ} {B : Type κ} → M A → (A → M B) → M B
◌>>=◌ m f w = bind (m w) f

abbrev pub ◌>>◌ {ℓ} : {B : Type ℓ} → M (Unit {0}) → M B → M B
m >> k = m >>= λ _. k

abbrev pub return {ℓ} : {A : Type ℓ} → A → M A
return a w = done a w

abbrev pub fail {ℓ} : {A : Type ℓ} → Error → M A
fail e w = failed e w

-- A statement that reads.
abbrev pub select_with {ℓ} : {A : Type ℓ} → (Db → A) → World → List Bool → Outcome A
select_with f w [] = done (f w.db) w
select_with f w (true ∷ rest) = failed db_error (record w { faults = rest })
select_with f w (false ∷ rest) = done (f w.db) (record w { faults = rest })

unfoldable pub select {ℓ} : {A : Type ℓ} → (Db → A) → M A
select f w = select_with f w w.faults

-- A statement that writes.
abbrev pub exec_with : (Db → Db) → World → List Bool → Outcome (Unit {0})
exec_with f w [] = done tt (record w { db = f w.db })
exec_with f w (true ∷ rest) = failed db_error (record w { faults = rest })
exec_with f w (false ∷ rest) = done tt (record w { db = f w.db; faults = rest })

unfoldable pub exec : (Db → Db) → M (Unit {0})
exec f w = exec_with f w w.faults

-- `First`: no row is the error `ErrRecordNotFound`.
abbrev pub or_not_found {ℓ} : {A : Type ℓ} → Option A → M A
or_not_found none = fail record_not_found
or_not_found (some a) = return a

unfoldable pub first {ℓ} : {A : Type ℓ} → (Db → Option A) → M A
unfolding select
first f = select f >>= or_not_found

-- `db.Transaction`: the commit may fail too.
abbrev pub commit_with {ℓ} : {A : Type ℓ} → A → Db → World → List Bool → Outcome A
commit_with a before w [] = done a w
commit_with a before w (true ∷ rest) = failed db_error (record w { db = before; faults = rest })
commit_with a before w (false ∷ rest) = done a (record w { faults = rest })

abbrev pub settle {ℓ} : {A : Type ℓ} → Db → Outcome A → Outcome A
settle before (done a w) = commit_with a before w w.faults
settle before (failed e w) = failed e (record w { db = before })

unfoldable pub transaction {ℓ} : {A : Type ℓ} → M A → M A
transaction m w = settle w.db (m w)

-- `_ = …`: the error of a statement is dropped.
abbrev pub ignore_outcome : Outcome (Unit {0}) → Outcome (Unit {0})
ignore_outcome (done a w) = done a w
ignore_outcome (failed e w) = done tt w

abbrev pub ignore : M (Unit {0}) → M (Unit {0})
ignore m w = ignore_outcome (m w)

-- The world in which a call leaves the panel, whether it succeeded or not.
abbrev pub after {ℓ} : {A : Type ℓ} → Outcome A → World
after (done a w) = w
after (failed e w) = w
