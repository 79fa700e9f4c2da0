-- ===== src/User/Crud.antt =====
-- Creating and changing accounts (backend/internal/user/service_crud.go). What the services take from
-- elsewhere is one parameter: the encryption of a password, the random texts, the printing of a
-- number, the id that the database gives a new row, and gorm's filling of a new row's defaults.
pub mod Live
pub mod Reclaim
pub mod Created
use m_ui.Base.{
  ℕ, Bool, true, false, not, ◌&&◌, ◌||◌, List, [], ◌∷◌, ◌++◌, Option, none, some, if◌then◌else◌,
  ltb, ◌==◌, nat_eq, text_eq, length, filter, any?, map_where, Text, codes, trim_space,
}
use mathlib.Core.Option
use m_ui.Base.Int.{ℤ, pos, ltb_ℤ}
use m_ui.Clock.{Time, zero_time}
use m_ui.Models.{Db, ProxyUser}
use m_ui.Store.{
  World, M, ◌>>=◌, ◌>>◌, return, fail, select, exec, Error, db_error, random_error,
  username_required, username_exists, uuid_exists, encrypt_error,
}
use m_ui.Table.{users_where}
use m_ui.User.Reload.{notify_credentials_changed}
use m_ui.User.Telegram.{get_by_id, save_user}

pub record Outside : Type 0 where
  pub encrypt : Text → Option Text
  pub random_token : Option Text
  pub new_uuid : Option Text
  pub random_hex : Option Text
  pub decimal : ℕ → Text
  pub new_id : Db → ℕ
  pub fill_defaults : ProxyUser → ProxyUser

pub record CreateInput : Type 0 where
  pub username : Text
  pub password : Text
  pub uuid : Text
  pub traffic_limit : ℤ
  pub ip_limit : ℤ
  pub hwid_limit : ℤ
  pub remark : Text
  pub group : Text
  pub tags : Text
  pub traffic_reset_days : ℤ
  pub expire_renew_days : ℤ
  pub start_on_first_use : Bool
  pub expire_days_after_first : ℤ
  pub external_links : Text
  pub expire_time : Option Time
  pub enabled : Option Bool
  pub telegram_id : ℤ
  pub telegram_name : Text

pub record UpdateInput : Type 0 where
  pub username : Text
  pub password : Text
  pub uuid : Text
  pub traffic_limit : Option ℤ
  pub ip_limit : Option ℤ
  pub hwid_limit : Option ℤ
  pub remark : Option Text
  pub group : Option Text
  pub tags : Option Text
  pub traffic_reset_days : Option ℤ
  pub expire_renew_days : Option ℤ
  pub start_on_first_use : Option Bool
  pub expire_days_after_first : Option ℤ
  pub external_links : Option Text
  pub expire_time : Option Time
  pub enabled : Option Bool
  pub telegram_id : Option ℤ
  pub telegram_name : Option Text

unfoldable pub max_0 : ℤ → ℤ
max_0 n = if ltb_ℤ n (pos 0) then pos 0 else n

-- `if p != nil { x = *p }`.
abbrev pub or_keep {ℓ} : {A : Type ℓ} → A → Option A → A
or_keep a none = a
or_keep a (some b) = b

abbrev pub or_fail {ℓ} : {A : Type ℓ} → Error → Option A → M A
or_fail e none = fail e
or_fail e (some a) = return a

-- `if s == "" { s, err = draw() }`.
abbrev pub or_draw : Text → Option Text → M Text
or_draw [] o = or_fail random_error o
or_draw (c ∷ s) o = return (c ∷ s)

-- `excludeID == 0 || id <> excludeID`.
abbrev pub is_included : ℕ → ProxyUser → Bool
is_included exclude u = exclude == 0 || not (u.id == exclude)

abbrev pub has_name : Text → ℕ → ProxyUser → Bool
has_name name exclude u = u.username == name && is_included exclude u

-- Whether the update would break a unique index: a text that another row holds already.
abbrev pub clashes : ProxyUser → ProxyUser → Bool
clashes u v =
    not (v.id == u.id)
    && (v.username == u.username || v.uuid == u.uuid || v.sub_token == u.sub_token)

unfoldable pub new_user : CreateInput → Text → Text → Text → Text → ProxyUser
unfolding max_0
new_user in' username encrypted uuid tok = record {
  id = 0;
  deleted = false;
  username = username;
  password_encrypted = encrypted;
  uuid = uuid;
  traffic_limit = in'.traffic_limit;
  traffic_used = pos 0;
  upload_bytes = pos 0;
  download_bytes = pos 0;
  last_seen = none;
  online = false;
  expire_time = or_keep zero_time in'.expire_time;
  enabled = or_keep true in'.enabled;
  ip_limit = max_0 in'.ip_limit;
  hwid_limit = max_0 in'.hwid_limit;
  remark = trim_space in'.remark;
  sub_token = tok;
  telegram_id = in'.telegram_id;
  telegram_name = trim_space in'.telegram_name;
  group = trim_space in'.group;
  tags = trim_space in'.tags;
  traffic_reset_days = max_0 in'.traffic_reset_days;
  expire_renew_days = max_0 in'.expire_renew_days;
  last_traffic_cycle_reset = none;
  start_on_first_use = in'.start_on_first_use;
  first_connected_at = none;
  expire_days_after_first = max_0 in'.expire_days_after_first;
  external_links = trim_space in'.external_links;
}

-- The fields of the row that a request changes, past its name, its password and its UUID.
unfoldable pub updated : UpdateInput → ProxyUser → ProxyUser
unfolding max_0
updated in' u = record u {
  traffic_limit = or_keep u.traffic_limit in'.traffic_limit;
  ip_limit = or_keep u.ip_limit (Option.map max_0 in'.ip_limit);
  hwid_limit = or_keep u.hwid_limit (Option.map max_0 in'.hwid_limit);
  remark = or_keep u.remark (Option.map trim_space in'.remark);
  group = or_keep u.group (Option.map trim_space in'.group);
  tags = or_keep u.tags (Option.map trim_space in'.tags);
  traffic_reset_days = or_keep u.traffic_reset_days (Option.map max_0 in'.traffic_reset_days);
  expire_renew_days = or_keep u.expire_renew_days (Option.map max_0 in'.expire_renew_days);
  start_on_first_use = or_keep u.start_on_first_use in'.start_on_first_use;
  expire_days_after_first =
      or_keep u.expire_days_after_first (Option.map max_0 in'.expire_days_after_first);
  external_links = or_keep u.external_links (Option.map trim_space in'.external_links);
  expire_time = or_keep u.expire_time in'.expire_time;
  enabled = or_keep u.enabled in'.enabled;
  telegram_id = or_keep u.telegram_id in'.telegram_id;
  telegram_name = or_keep u.telegram_name (Option.map trim_space in'.telegram_name);
}

-- `if s != "" { … }`.
abbrev pub unless_blank {ℓ} : {A : Type ℓ} → Text → A → A → A
unless_blank [] a b = a
unless_blank (c ∷ s) a b = b

module _ (o : Outside) where
  -- The columns of a deleted row that are released.
  unfoldable pub released : Text → ProxyUser → ProxyUser → ProxyUser
  released name row v =
      let suffix = o.decimal row.id in
      let uuid = row.uuid ++ (codes "-deleted-" ++ suffix) in
      let tok = row.sub_token ++ (codes "_del_" ++ suffix) in
      record v {
        username = name ++ (codes "__deleted_" ++ suffix);
        uuid = if ltb 64 (length uuid) then codes "deleted-" ++ suffix else uuid;
        sub_token = if ltb 64 (length tok) then codes "del_" ++ suffix else tok;
      }

  -- `Unscoped().Where("id = ?")` reaches deleted rows too.
  unfoldable pub release_row : Text → ProxyUser → M (Unit {0})
  release_row name row w =
      if any? (clashes (released name row row)) w.db.users
      then fail db_error w
      else exec
          (λ db. record db { users = map_where (λ v. v.id == row.id) (released name row) db.users })
          w

  unfoldable pub release_rows : Text → List ProxyUser → M (Unit {0})
  release_rows name [] = return tt
  release_rows name (row ∷ rows) = release_row name row >> release_rows name rows

  unfoldable pub reclaim_soft_deleted_username : Text → ℕ → M (Unit {0})
  reclaim_soft_deleted_username username exclude =
      let name = trim_space username in
      if name == []
      then return tt
      else select (λ db. length (users_where (has_name name exclude) db)) >>= λ active.
          if ltb 0 active
          then fail username_exists
          else select (λ db. filter (λ u. u.deleted && has_name name exclude u) db.users)
            >>= λ soft. release_rows name soft

  -- `db.Create(u)`: a new row, with its defaults filled, unless a unique index refuses it.
  unfoldable pub insert_user : ProxyUser → M ProxyUser
  insert_user u w =
      let new = record (o.fill_defaults u) { id = o.new_id w.db } in
      if any? (λ v. v.username == new.username) w.db.users
      then fail username_exists w
      else if any? (λ v. v.uuid == new.uuid) w.db.users
      then fail uuid_exists w
      else if any? (λ v. v.sub_token == new.sub_token) w.db.users
      then fail db_error w
      else (exec (λ db. record db { users = db.users ++ new ∷ [] }) >> return new) w

  -- `Create` past the check of the name.
  abbrev pub create_named : CreateInput → Text → M ProxyUser
  create_named in' username = or_draw in'.password o.random_token >>= λ password.
      or_draw in'.uuid o.new_uuid >>= λ uuid.
      or_fail encrypt_error (o.encrypt password) >>= λ encrypted.
      or_fail random_error o.random_hex >>= λ tok.
      insert_user (new_user in' username encrypted uuid tok) >>= λ u.
      notify_credentials_changed >> return u

  unfoldable pub create : CreateInput → M ProxyUser
  create in' =
      let username = trim_space in'.username in
      if username == []
      then fail username_required
      else reclaim_soft_deleted_username username 0 >> create_named in' username

  -- A rename takes the new name from a deleted row that holds it.
  unfoldable pub rename : Text → ProxyUser → M ProxyUser
  rename next u = unless_blank next (return u) (
      (if next == u.username then return tt else reclaim_soft_deleted_username next u.id)
      >> return (record u { username = next }))

  unfoldable pub set_password : Text → ProxyUser → M ProxyUser
  set_password password u = unless_blank password (return u) (
      or_fail encrypt_error (o.encrypt password) >>= λ encrypted.
      return (record u { password_encrypted = encrypted }))

  -- `db.Save(u)`, unless a unique index refuses it.
  unfoldable pub write_user : ProxyUser → M (Unit {0})
  unfolding save_user
  write_user u w = if any? (clashes u) w.db.users then fail db_error w else exec (save_user u) w

  unfoldable pub update : ℕ → UpdateInput → M ProxyUser
  unfolding get_by_id rename set_password write_user
  update id in' = get_by_id id >>= λ u. rename (trim_space in'.username) u >>= λ named.
      set_password in'.password named >>= λ locked.
      (let saved =
          updated in' (record locked { uuid = unless_blank in'.uuid locked.uuid in'.uuid }) in
        (write_user saved >> notify_credentials_changed) >> return saved)
