-- ===== src/Traffic/Samples.antt =====
-- `UserService` (backend/internal/traffic/user.go): per-tick samples and the online flag.
use mathlib.Core.Option
use m_ui.Base.{
  ℕ, Bool, true, false, not, ◌&&◌, List, [], ◌∷◌, ◌++◌, some, ◌≡◌, refl, ap, ◌∙◌, if◌then◌else◌,
  arith, ◌==◌, nat_eq, contains, map_where, filter, find?, All, int64,
}
use m_ui.Base.Int.{ℤ, ◌+ℤ◌}
use m_ui.Clock.{Time, is_zero, is_before}
use m_ui.Models.{Db, ProxyUser}
use m_ui.Store.{World, M, ◌>>◌, exec}
use m_ui.Store.Laws.{Post, Post-bind, Post-mono, exec-Post}
use m_ui.Table.{is_user, find_user, update_users, users_where, find_user-update}

unfoldable pub append_record : ℕ → ℤ → ℤ → Bool → Db → Db
append_record id up down online db = record db {
  records =
      db.records
      ++ record { proxy_user_id = id; upload_bytes = up; download_bytes = down; online = online }
        ∷ [];
}

-- The columns that `AddSample` updates. The database adds to the stored counters; `up + down` is
-- Go's sum.
unfoldable pub sampled : Time → ℤ → ℤ → Bool → ProxyUser → ProxyUser
sampled now up down online u = record u {
  traffic_used = u.traffic_used +ℤ int64 (up +ℤ down);
  upload_bytes = u.upload_bytes +ℤ up;
  download_bytes = u.download_bytes +ℤ down;
  last_seen = if online then some now else u.last_seen;
  online = if online then true else u.online;
}

unfoldable pub add_sample : Time → ℕ → ℤ → ℤ → Bool → M (Unit {0})
add_sample now id up down online =
    exec (append_record id up down online)
    >> exec (update_users (λ u. u.id == id) (sampled now up down online))

abbrev pub is_unlisted : List ℕ → ProxyUser → Bool
is_unlisted [] u = true
is_unlisted (i ∷ ids) u = not (contains (i ∷ ids) u.id)

unfoldable pub mark_offline : List ℕ → M (Unit {0})
mark_offline active =
    exec (update_users (λ u. u.online && is_unlisted active u) (λ u. record u { online = false }))

unfoldable pub is_expired : Time → ProxyUser → Bool
is_expired now u = not (is_zero u.expire_time) && is_before u.expire_time now

sampled-is_user :
    (now : Time) (up down : ℤ) (online : Bool) (j : ℕ) (u : ProxyUser)
    → is_user j (sampled now up down online u) ≡ is_user j u
unfolding sampled
sampled-is_user now up down online j u = refl

-- A sample that is recorded adds to the counters of the account that it names, and to no other
-- account; its history row goes in first, so a call that fails has changed no account.
pub add_sample-find_user :
    (now : Time) (id : ℕ) (up down : ℤ) (online : Bool) (j : ℕ) (w : World)
    → Post
        (λ _ v.
          find_user j v.db
          ≡ Option.map
              (λ u. if not u.deleted && u.id == id then sampled now up down online u else u)
              (find_user j w.db))
        (λ e v. find_user j v.db ≡ find_user j w.db)
        (add_sample now id up down online w)
unfolding add_sample append_record
add_sample-find_user now id up down online j w =
    Post-bind (λ _ v. v.db.users ≡ w.db.users) _ _ (exec (append_record id up down online) w)
      (λ _. exec (update_users (λ u. u.id == id) (sampled now up down online)))
      (Post-mono _ _ _ _ (exec (append_record id up down online) w)
        (exec-Post (append_record id up down online) w) (λ _ _ h. ap (λ d. d.users) h)
        (λ _ _ h. ap (find_user j) h))
      (λ _ v same.
        Post-mono _ _ _ _ (exec (update_users (λ u. u.id == id) (sampled now up down online)) v)
          (exec-Post (update_users (λ u. u.id == id) (sampled now up down online)) v)
          (λ _ t h.
            ap (find_user j) h
            ∙ find_user-update j (λ u. u.id == id) (sampled now up down online) v.db
                (sampled-is_user now up down online j)
            ∙ ap
                (λ us.
                  Option.map
                    (λ u. if not u.deleted && u.id == id then sampled now up down online u else u)
                    (find? (is_user j) us))
                same)
          (λ _ t h. ap (find_user j) h ∙ ap (find? (is_user j)) same))

offline_row :
    (active : List ℕ) (rows : List ProxyUser)
    → All
        (λ u. contains active u.id ≡ true)
        (filter
          (λ u. not u.deleted && u.online)
          (map_where
            (λ u. not u.deleted && (u.online && is_unlisted active u))
            (λ u. record u { online = false })
            rows))
offline_row active [] = tt
offline_row [] (u ∷ rows) = ground (arith, offline_row [] rows)
offline_row (i ∷ ids) (u ∷ rows) = ground (arith, offline_row (i ∷ ids) rows)

-- After a tick marks the others offline, a live account that is online is one of the active ones.
pub mark_offline-online :
    (active : List ℕ) (w : World)
    → Post
        (λ _ v. All (λ u. contains active u.id ≡ true) (users_where (λ u. u.online) v.db))
        (λ e v. v.db ≡ w.db)
        (mark_offline active w)
unfolding mark_offline
mark_offline-online active w =
    Post-mono _ _ _ _
      (exec
        (update_users (λ u. u.online && is_unlisted active u) (λ u. record u { online = false })) w)
      (exec-Post _ w) (λ _ v h. rw h (offline_row active w.db.users)) (λ _ _ h. h)
