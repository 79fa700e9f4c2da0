-- ===== src/User/Crud/Live.antt =====
-- What creating an account does to the live accounts (backend/internal/user/service_crud.go).
use m_ui.Base.{
  ℕ, Bool, true, false, not, ◌&&◌, List, [], ◌∷◌, if◌then◌else◌, ltb, ◌==◌, nat_eq, text_eq, length,
  filter, any?, map_where, Text, trim_space, ◌≡◌, refl, sym, subst, ap, ◌∙◌, arith, Bool-cases, inl,
  inr, ◌⊎◌, All,
}
use m_ui.Models.{Db, ProxyUser}
use m_ui.Store.{World, M, ◌>>=◌, fail, select, exec, username_exists}
use m_ui.Store.Laws.{Post, Post-bind, Post-mono, select-Post, exec-Post}
use m_ui.Table.{users_where}
use m_ui.User.Crud.{
  Outside, has_name, released, clashes, release_row, release_rows, reclaim_soft_deleted_username,
}

abbrev pub live : Db → List ProxyUser
live db = users_where (λ _. true) db

-- No live account has the id of a deleted row.
abbrev pub HasApartIds : Db → Type 0
HasApartIds db =
    All (λ r. any? (λ u. u.id == r.id) (live db) ≡ false) (filter (λ u. u.deleted) db.users)

filter-released :
    (o : Outside) (name : Text) (row : ProxyUser) (rows : List ProxyUser)
    → any? (λ u. u.id == row.id) (filter (λ u. not u.deleted && true) rows) ≡ false
    → filter
        (λ u. not u.deleted && true)
        (map_where (λ v. v.id == row.id) (released o name row) rows)
      ≡ filter (λ u. not u.deleted && true) rows
unfolding released
filter-released o name row [] h = refl
filter-released o name row (v ∷ rows) h = ground (arith, filter-released o name row rows, h)

-- The live accounts are the ones given, after a success and after a failure.
abbrev Stays : List ProxyUser → World → Type 0
Stays us v = live v.db ≡ us

release_row-live :
    (o : Outside) (name : Text) (row : ProxyUser) (us : List ProxyUser) (w : World)
    → live w.db ≡ us
    → any? (λ u. u.id == row.id) us ≡ false
    → Post (λ _ v. live v.db ≡ us) (λ e v. live v.db ≡ us) (release_row o name row w)
unfolding release_row
release_row-live o name row us w same apart =
    elim (Bool-cases (any? (clashes (released o name row row)) w.db.users)) [
      | inl clash ↦ rw clash same
      | inr free ↦ rw free (
          Post-mono _ _ _ _ (exec _ w) (exec-Post _ w)
            (λ _ v h. rw h (filter-released o name row w.db.users (rw same apart) ∙ same))
            (λ _ v h. rw h same))
    ]

release_rows-live :
    (o : Outside) (name : Text) (rows : List ProxyUser) (us : List ProxyUser) (w : World)
    → live w.db ≡ us
    → All (λ r. any? (λ u. u.id == r.id) us ≡ false) rows
    → Post (λ _ v. live v.db ≡ us) (λ e v. live v.db ≡ us) (release_rows o name rows w)
unfolding release_rows
release_rows-live o name [] us w same apart = same
release_rows-live o name (row ∷ rows) us w same apart =
    Post-bind _ _ _ (release_row o name row w) (λ _. release_rows o name rows)
      (release_row-live o name row us w same apart.0)
      (λ _ v h. release_rows-live o name rows us v h apart.1)

All-holders :
    (P : ProxyUser → Type 0) (q : ProxyUser → Bool) (rows : List ProxyUser)
    → All P (filter (λ u. u.deleted) rows)
    → All P (filter (λ u. u.deleted && q u) rows)
All-holders P q [] h = tt
All-holders P q (v ∷ rows) h = pick (All-holders P q rows) v.deleted (q v) h
  where
    dead : List ProxyUser
    dead = filter (λ u. u.deleted) rows

    kept : List ProxyUser
    kept = filter (λ u. u.deleted && q u) rows

    pick :
        (All P dead → All P kept)
        → (d b : Bool) → All P (if d then v ∷ dead else dead)
        → All P (if d && b then v ∷ kept else kept)
    pick rest true true g = (g.0, rest g.1)
    pick rest true false g = rest g.1
    pick rest false b g = rest g

no_holder :
    (q : ProxyUser → Bool) (rows : List ProxyUser)
    → ltb 0 (length (filter (λ u. not u.deleted && q u) rows)) ≡ false
    → any? q (filter (λ u. not u.deleted && true) rows) ≡ false
no_holder q [] h = refl
no_holder q (v ∷ rows) h = ground (arith, no_holder q rows)

-- Taking a name from deleted rows leaves the live accounts alone; it succeeds only if none of them
-- holds the name.
pub reclaim-live :
    (o : Outside) (name : Text) (exclude : ℕ) (w : World)
    → HasApartIds w.db
    → (trim_space name == []) ≡ false
    → Post
        (λ _ v.
          (live v.db ≡ live w.db) × (any? (has_name (trim_space name) exclude) (live w.db) ≡ false))
        (λ e v. live v.db ≡ live w.db)
        (reclaim_soft_deleted_username o name exclude w)
unfolding reclaim_soft_deleted_username
reclaim-live o name exclude w apart nonblank = rw nonblank (
    Post-bind (λ n v. (n ≡ length (users_where holds w.db)) × (v.db ≡ w.db))
      (λ _ v. (live v.db ≡ live w.db) × (any? holds (live w.db) ≡ false))
      (λ e v. live v.db ≡ live w.db) (select (λ db. length (users_where holds db)) w) counted
      (Post-mono _ _ _ _ (select _ w) (select-Post _ w) (λ n v h. h) (λ e v h. ap live h))
      (λ n v h. checked n v (Bool-cases (ltb 0 n)) h.0 h.1))
  where
    holds : ProxyUser → Bool
    holds = has_name (trim_space name) exclude

    release : M (Unit {0})
    release = select (λ db. filter (λ u. u.deleted && holds u) db.users) >>= λ soft.
        release_rows o (trim_space name) soft

    counted : ℕ → M (Unit {0})
    counted n = if ltb 0 n then fail username_exists else release

    released_all :
        (v : World)
        → v.db ≡ w.db
        → Post (λ _ x. live x.db ≡ live w.db) (λ e x. live x.db ≡ live w.db) (release v)
    released_all v same =
        Post-bind (λ soft x. (soft ≡ filter (λ u. u.deleted && holds u) w.db.users) × (x.db ≡ w.db))
          _ _ (select (λ db. filter (λ u. u.deleted && holds u) db.users) v)
          (λ soft. release_rows o (trim_space name) soft)
          (Post-mono _ _ _ _ (select _ v) (select-Post _ v)
            (λ soft x h. (
              h.0 ∙ ap (λ (db : Db). filter (λ u. u.deleted && holds u) db.users) same,
              h.1 ∙ same,
            ))
            (λ e x h. ap live (h ∙ same)))
          (λ soft x h. release_rows-live o (trim_space name) soft (live w.db) x (ap live h.1) (
            subst (λ rows. All (λ r. any? (λ u. u.id == r.id) (live w.db) ≡ false) rows) (sym h.0)
              (All-holders _ holds w.db.users apart)))

    checked :
        (n : ℕ) (v : World)
        → (ltb 0 n ≡ true) ⊎ (ltb 0 n ≡ false)
        → n ≡ length (users_where holds w.db)
        → v.db ≡ w.db
        → Post
            (λ _ x. (live x.db ≡ live w.db) × (any? holds (live w.db) ≡ false))
            (λ e x. live x.db ≡ live w.db)
            (counted n v)
    checked n v (inl held) count same = rw held (ap live same)
    checked n v (inr free) count same = rw free (
        Post-mono _ _ _ _ (release v) (released_all v same)
          (λ _ x h. (h, no_holder holds w.db.users (subst (λ k. ltb 0 k ≡ false) count free)))
          (λ e x h. h))
