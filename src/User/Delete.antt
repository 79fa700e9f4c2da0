-- ===== src/User/Delete.antt =====
-- `Delete` and `DeleteDepleted` (backend/internal/user/service_delete.go): users and their bindings
-- are removed for good, in one transaction.
pub mod Depleted
use m_ui.Base.{
  ℕ, Bool, true, false, not, ◌&&◌, ◌||◌, List, [], ◌∷◌, Option, none, some, ◌≡◌, refl, sym, ap, ◌∙◌,
  ◌⊎◌, inl, inr, if◌then◌else◌, arith, ◌==◌, nat_eq, nat_beq_iff, contains, length, filter, All,
  any?, Bool-cases,
}
use m_ui.Base.Int.{ℤ, pos, ltb_ℤ, leb_ℤ}
use m_ui.Clock.{Time, zero_time, is_zero, is_before}
use m_ui.Models.{Db, ProxyUser, ListenerUser}
use m_ui.Store.{
  World, Outcome, done, failed, M, bind, ◌>>=◌, ◌>>◌, return, select, exec, transaction, Error,
}
use m_ui.Store.Laws.{Post, Post-bind, Post-mono, select-Post, exec-Post, transaction-Post}
use m_ui.Table.{users_where}
use m_ui.Table.Each.{ids_of}
use m_ui.User.Active.{has_expired, is_over_quota, is_deferred, is_credential_active}
use m_ui.User.Batch.{delete_bindings_of, delete_users, delete_users_and_bindings}
use m_ui.User.Reload.{
  schedule_credentials_sync, schedule_credentials_sync-db, notify_credentials_changed,
}

unfoldable pub delete : ℕ → M (Unit {0})
delete id = delete_users_and_bindings (λ i. i == id) >> notify_credentials_changed

abbrev pub is_depleted : Time → ProxyUser → Bool
is_depleted now u = has_expired now u || is_over_quota u

unfoldable pub depleted_ids : Time → List ProxyUser → List ℕ
depleted_ids now [] = []
depleted_ids now (u ∷ us) =
    let rest = depleted_ids now us in if is_depleted now u then u.id ∷ rest else rest

abbrev delete_ids : List ℕ → M ℕ
delete_ids [] = return 0
delete_ids (i ∷ ids) =
    (delete_users_and_bindings (contains (i ∷ ids)) >> notify_credentials_changed)
    >> return (length (i ∷ ids))

unfoldable pub delete_depleted : Time → M ℕ
delete_depleted now = select (users_where (λ u. true)) >>= λ us. delete_ids (depleted_ids now us)

-- The tables without the users with such an id and without their bindings.
abbrev pub without : (ℕ → Bool) → Db → Db
without p db = record db {
  users = filter (λ u. not (p u.id)) db.users;
  bindings = filter (λ b. not (p b.proxy_user_id)) db.bindings;
}

delete_users_and_bindings-Post :
    (p : ℕ → Bool) (w : World)
    → Post (λ _ v. v.db ≡ without p w.db) (λ e v. v.db ≡ w.db) (delete_users_and_bindings p w)
unfolding delete_users_and_bindings delete_bindings_of delete_users
delete_users_and_bindings-Post p w =
    transaction-Post (λ _ db. db ≡ without p w.db)
      (exec (delete_bindings_of p) >> exec (delete_users p)) w
      (Post-bind (λ _ v. v.db ≡ delete_bindings_of p w.db) _ _ (exec (delete_bindings_of p) w)
        (λ _. exec (delete_users p))
        (Post-mono _ _ _ _ (exec (delete_bindings_of p) w) (exec-Post (delete_bindings_of p) w)
          (λ _ _ h. h) (λ _ _ _. tt))
        (λ _ v h.
          Post-mono _ _ _ _ (exec (delete_users p) v) (exec-Post (delete_users p) v)
            (λ _ t e. e ∙ ap (delete_users p) h) (λ _ _ _. tt)))

notified-Post :
    (p : ℕ → Bool) (w : World)
    → Post
        (λ _ v. v.db ≡ without p w.db)
        (λ e v. v.db ≡ w.db)
        ((delete_users_and_bindings p >> notify_credentials_changed) w)
unfolding notify_credentials_changed
notified-Post p w =
    Post-bind (λ _ v. v.db ≡ without p w.db) _ _ (delete_users_and_bindings p w)
      (λ _. notify_credentials_changed) (delete_users_and_bindings-Post p w)
      (λ _ v h. schedule_credentials_sync-db v ∙ h)

-- Deleting a user removes exactly the rows with its id and its bindings, or changes nothing if a
-- statement fails.
pub delete-without :
    (id : ℕ) (w : World)
    → Post (λ _ v. v.db ≡ without (λ i. i == id) w.db) (λ e v. v.db ≡ w.db) (delete id w)
unfolding delete
delete-without id w = notified-Post (λ i. i == id) w

filter-all : {A : Type 0} (xs : List A) → xs ≡ filter (λ _. true) xs
filter-all [] = refl
filter-all (x ∷ xs) = ap (◌∷◌ x) (filter-all xs)

without-nothing : (db : Db) → db ≡ without (contains []) db
without-nothing db =
    λ i. record db { users = filter-all db.users i; bindings = filter-all db.bindings i }

delete_ids-Post :
    (ids : List ℕ) (db : Db) (w : World)
    → w.db ≡ db
    → Post
        (λ n v. (v.db ≡ without (contains ids) db) × (n ≡ length ids))
        (λ e v. v.db ≡ db)
        (delete_ids ids w)
delete_ids-Post [] db w h = (h ∙ without-nothing db, refl)
delete_ids-Post (i ∷ ids) db w h =
    Post-bind (λ _ v. v.db ≡ without (contains (i ∷ ids)) db) _ _
      ((delete_users_and_bindings (contains (i ∷ ids)) >> notify_credentials_changed) w)
      (λ _. return (length (i ∷ ids)))
      (Post-mono _ _ _ _
        ((delete_users_and_bindings (contains (i ∷ ids)) >> notify_credentials_changed) w)
        (notified-Post (contains (i ∷ ids)) w) (λ _ _ e. e ∙ ap (without (contains (i ∷ ids))) h)
        (λ _ _ e. e ∙ h))
      (λ _ v e. (e, refl))

pub delete_depleted-Post :
    (now : Time) (w : World)
    → Post
        (λ n v.
          (v.db ≡ without (contains (depleted_ids now (users_where (λ _. true) w.db))) w.db)
          × (n ≡ length (depleted_ids now (users_where (λ _. true) w.db))))
        (λ e v. v.db ≡ w.db)
        (delete_depleted now w)
unfolding delete_depleted
delete_depleted-Post now w =
    Post-bind (λ us v. (us ≡ users_where (λ _. true) w.db) × (v.db ≡ w.db)) _ _
      (select (users_where (λ _. true)) w) (λ us. delete_ids (depleted_ids now us))
      (select-Post _ w) (λ us v h. rw (h.0) (delete_ids-Post _ w.db v h.1))
