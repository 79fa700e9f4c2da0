-- ===== src/Table.antt =====
-- Queries by primary key on the users table, as gorm scopes them: soft-deleted rows are not seen.
pub mod Each
use m_ui.Base.{
  ℕ, Bool, true, false, not, ◌&&◌, List, Option, ◌≡◌, refl, ◌==◌, find?, map_where, filter,
  find?-map_where, if◌then◌else◌, nat_eq,
}
use m_ui.Models.{Db, ProxyUser}
use mathlib.Core.Option

abbrev pub is_user : ℕ → ProxyUser → Bool
is_user id u = not u.deleted && u.id == id

-- `db.First(&u, id)`.
abbrev pub find_user : ℕ → Db → Option ProxyUser
find_user id db = find? (is_user id) db.users

-- `db.Model(&models.ProxyUser{}).Where(p).Updates(f)`.
abbrev pub update_users : (ProxyUser → Bool) → (ProxyUser → ProxyUser) → Db → Db
update_users p f db = record db { users = map_where (λ u. not u.deleted && p u) f db.users }

-- `db.Find(&users)` with a condition.
abbrev pub users_where : (ProxyUser → Bool) → Db → List ProxyUser
users_where p db = filter (λ u. not u.deleted && p u) db.users

-- What an UPDATE that keeps the keys does to the row that a later `First` finds.
pub find_user-update :
    (j : ℕ) (p : ProxyUser → Bool) (f : ProxyUser → ProxyUser) (db : Db)
    → ((u : ProxyUser) → is_user j (f u) ≡ is_user j u)
    → find_user j (update_users p f db)
      ≡ Option.map (λ u. if not u.deleted && p u then f u else u) (find_user j db)
find_user-update j p f db h = find?-map_where (is_user j) (λ u. not u.deleted && p u) f h db.users
