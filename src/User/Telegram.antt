-- ===== src/User/Telegram.antt =====
-- Accounts that are read, changed and written back whole or in part: the link to a Telegram account
-- (backend/internal/user/service.go) and the reset of the counters (reset_traffic.go).
use m_ui.Base.{
  ℕ, Bool, true, false, not, ◌&&◌, List, [], ◌∷◌, Option, some, ◌≡◌, refl, sym, ap, ◌∙◌, inl, inr,
  if◌then◌else◌, ◌==◌, nat_eq, nat_beq_iff, find?, find?-true, map_where, Text, trim_space, arith,
  Bool-cases,
}
use m_ui.Base.Int.{ℤ, pos, eqb_ℤ}
use m_ui.Models.{Db, ProxyUser}
use m_ui.Store.{
  World, M, ◌>>=◌, ◌>>◌, return, fail, exec, first, record_not_found, telegram_id_required,
}
use m_ui.Store.Laws.{Post, Post-bind, Post-mono, exec-Post, first-Post}
use m_ui.Table.{is_user, find_user, update_users}
use m_ui.User.Batch.{reset_counters}
use m_ui.User.Reload.{notify_credentials_changed}

unfoldable pub get_by_id : ℕ → M ProxyUser
get_by_id id = first (find_user id)

-- `db.Save(u)` of a row that exists.
unfoldable pub save_user : ProxyUser → Db → Db
save_user u = update_users (λ v. v.id == u.id) (λ _. u)

abbrev pub linked : ℤ → Text → ProxyUser → ProxyUser
linked tg name u = record u { telegram_id = tg; telegram_name = trim_space name }

unfoldable pub bind_telegram : ℕ → ℤ → Text → M (Unit {0})
unfolding get_by_id
bind_telegram id tg name =
    if eqb_ℤ tg (pos 0)
    then fail telegram_id_required
    else get_by_id id >>= λ u. exec (save_user (linked tg name u))

unfoldable pub unbind_telegram : ℕ → M (Unit {0})
unfolding get_by_id
unbind_telegram id =
    get_by_id id >>= λ u. exec (save_user (record u { telegram_id = pos 0; telegram_name = [] }))

unfoldable pub get_by_telegram_id : ℤ → M ProxyUser
get_by_telegram_id tg =
    if eqb_ℤ tg (pos 0)
    then fail record_not_found
    else first (λ db. find? (λ u. not u.deleted && eqb_ℤ u.telegram_id tg) db.users)

-- `Select(…).Updates(u)` writes the three columns of the row that was read.
unfoldable pub reset_traffic : ℕ → M ProxyUser
unfolding get_by_id
reset_traffic id = get_by_id id >>= λ u.
    (exec (update_users (λ v. v.id == u.id) reset_counters) >> notify_credentials_changed)
    >> return (reset_counters u)

find?-save :
    (j : ℕ) (u : ProxyUser) (rows : List ProxyUser)
    → u.deleted ≡ false
    → (j == u.id) ≡ false
    → find? (is_user j) (map_where (λ v. not v.deleted && v.id == u.id) (λ _. u) rows)
      ≡ find? (is_user j) rows
find?-save j u [] live ne = refl
find?-save j u (v ∷ rows) live ne = ground (
  arith,
  find?-save j u rows live ne,
  nat_beq_iff v.id u.id,
  nat_beq_iff v.id j,
  nat_beq_iff u.id j,
  nat_beq_iff j u.id,
)

find?-saved :
    (u v : ProxyUser) (rows : List ProxyUser)
    → u.deleted ≡ false
    → find? (is_user u.id) rows ≡ some v
    → find? (is_user u.id) (map_where (λ v. not v.deleted && v.id == u.id) (λ _. u) rows) ≡ some u
find?-saved u v [] live h = cc
find?-saved u v (x ∷ rows) live h = ground (arith, find?-saved u v rows live, nat_beq_iff u.id u.id)

-- An account that is written back is what a later read of its id finds, and no other read changes.
save_user-find :
    (id j : ℕ) (u s : ProxyUser) (db : Db)
    → find_user id db ≡ some u
    → s.id ≡ id
    → s.deleted ≡ false
    → find_user j (save_user s db) ≡ (if j == id then some s else find_user j db)
unfolding save_user
save_user-find id j u s db found key live =
    go (j == s.id) refl ∙ ap (λ i. if j == i then some s else find_user j db) key
  where
    go :
        (b : Bool)
        → (j == s.id) ≡ b
        → find_user j (save_user s db) ≡ (if j == s.id then some s else find_user j db)
    go true e =
        ap (λ i. find_user i (save_user s db)) ((nat_beq_iff j s.id).0 e)
        ∙ find?-saved s u db.users live (ap (λ i. find_user i db) key ∙ found)
        ∙ ap (λ b. if b then some s else find_user j db) (sym e)
    go false e =
        find?-save j s db.users live e ∙ ap (λ b. if b then some s else find_user j db) (sym e)

-- Linking an existing account to a Telegram id either succeeds, and a later read of the account finds
-- the link, its name trimmed, and nothing else changed, here or at any other account; or it
-- changes nothing.
pub bind_telegram-find :
    (id : ℕ) (tg : ℤ) (name : Text) (j : ℕ) (w : World) (u : ProxyUser)
    → find_user id w.db ≡ some u
    → Post
        (λ _ v. find_user j v.db ≡ (if j == id then some (linked tg name u) else find_user j w.db))
        (λ e v. v.db ≡ w.db)
        (bind_telegram id tg name w)
unfolding bind_telegram
bind_telegram-find id tg name j w u found = elim (Bool-cases (eqb_ℤ tg (pos 0))) [
  | inl e ↦ rw e refl
  | inr e ↦ rw e (
      Post-bind (λ a v. (a ≡ u) × (v.db ≡ w.db)) _ _ (first (find_user id) w)
        (λ a. exec (save_user (linked tg name a)))
        (Post-mono _ _ _ _ (first (find_user id) w) (first-Post (find_user id) w)
          (λ a _ h. (some_eq (sym h.0 ∙ found), h.1)) (λ _ _ h. h))
        (λ a v h.
          Post-mono _ _ _ _ (exec (save_user (linked tg name a)) v)
            (exec-Post (save_user (linked tg name a)) v)
            (λ _ t k.
              ap (find_user j) k
              ∙ ap (λ d. find_user j (save_user (linked tg name a) d)) h.1
              ∙ ap (λ r. find_user j (save_user (linked tg name r) w.db)) h.0
              ∙ save_user-find id j u (linked tg name u) w.db found found-id found-live)
            (λ _ _ k. k ∙ h.1)))
]
  where
    some_eq : {a b : ProxyUser} → ◌≡◌ {A = Option ProxyUser} (some a) (some b) → a ≡ b
    some_eq h = cc

    passed : (not u.deleted && u.id == id) ≡ true
    passed = find?-true (is_user id) w.db.users u found

    found-id : u.id ≡ id
    found-id = (nat_beq_iff u.id id).0 (second u.deleted (u.id == id) passed)
      where
        second : (a b : Bool) → (not a && b) ≡ true → b ≡ true
        second a b h = ground arith

    found-live : u.deleted ≡ false
    found-live = first_part u.deleted (u.id == id) passed
      where
        first_part : (a b : Bool) → (not a && b) ≡ true → a ≡ false
        first_part a b h = ground arith
