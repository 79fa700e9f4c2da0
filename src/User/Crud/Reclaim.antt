-- ===== src/User/Crud/Reclaim.antt =====
-- Taking a name from the deleted rows that hold it (backend/internal/user/service_crud.go).
use m_ui.Base.{
  ℕ, Bool, true, false, not, ◌&&◌, List, [], ◌∷◌, ◌++◌, if◌then◌else◌, ltb, ◌==◌, nat_eq, text_eq,
  text_beq_iff, length, length-append, filter, any?, map_where, contains, Text, codes, trim_space,
  ◌≡◌, refl, sym, subst, ap, ◌∙◌, arith, beq_refl, Bool-cases, inl, inr, ◌⊎◌, All,
}
use m_ui.Models.{ProxyUser}
use m_ui.Store.{World, M, ◌>>=◌, fail, select, exec, username_exists}
use m_ui.Store.Laws.{Post, Post-bind, Post-mono, select-Post, exec-Post}
use m_ui.Table.{users_where}
use m_ui.Table.Each.{ids_of}
use m_ui.User.Crud.{
  Outside, has_name, released, clashes, release_row, release_rows, reclaim_soft_deleted_username,
}

-- A row that holds the name is one of those to come.
abbrev Left : Text → List ℕ → ProxyUser → Type 0
Left name ids v = ((v.username == name) ≡ false) ⊎ (contains ids v.id ≡ true)

longer : (name : Text) (s : Text) → ((name ++ (codes "__deleted_" ++ s)) == name) ≡ false
longer name s = elim (Bool-cases ((name ++ (codes "__deleted_" ++ s)) == name)) [
  | inr other ↦ other
  | inl same ↦
      let e = ap length ((text_beq_iff (name ++ (codes "__deleted_" ++ s)) name).0 same) in
      absurd (omega (arith, e, length-append name (codes "__deleted_" ++ s)))
]

released_row :
    (o : Outside) (name : Text) (row : ProxyUser) (ids : List ℕ) (rows : List ProxyUser)
    → All (Left name (row.id ∷ ids)) rows
    → All (Left name ids) (map_where (λ v. v.id == row.id) (released o name row) rows)
unfolding released
released_row o name row ids [] h = tt
released_row o name row ids (v ∷ rows) h = (
  elim (Bool-cases (v.id == row.id)) [
    | inl same ↦ rw same (inl (longer name (o.decimal row.id)))
    | inr other ↦ rw other (other_row other h.0)
  ],
  released_row o name row ids rows h.1,
)
  where
    other_row : (v.id == row.id) ≡ false → Left name (row.id ∷ ids) v → Left name ids v
    other_row e (inl free) = inl free
    other_row e (inr listed) = inr (rw e at listed)

release_row-Left :
    (o : Outside) (name : Text) (row : ProxyUser) (ids : List ℕ) (w : World)
    → All (Left name (row.id ∷ ids)) w.db.users
    → Post (λ _ v. All (Left name ids) v.db.users) (λ e v. Unit {0}) (release_row o name row w)
unfolding release_row
release_row-Left o name row ids w h =
    elim (Bool-cases (any? (clashes (released o name row row)) w.db.users)) [
      | inl clash ↦ rw clash tt
      | inr free ↦ rw free (
          Post-mono _ _ _ _ (exec _ w) (exec-Post _ w)
            (λ _ v e. rw e (released_row o name row ids w.db.users h)) (λ _ _ _. tt))
    ]

release_rows-Left :
    (o : Outside) (name : Text) (rows : List ProxyUser) (w : World)
    → All (Left name (ids_of rows)) w.db.users
    → Post (λ _ v. All (Left name []) v.db.users) (λ e v. Unit {0}) (release_rows o name rows w)
unfolding release_rows
release_rows-Left o name [] w h = h
release_rows-Left o name (row ∷ rows) w h =
    Post-bind (λ _ v. All (Left name (ids_of rows)) v.db.users) _ _ (release_row o name row w)
      (λ _. release_rows o name rows) (release_row-Left o name row (ids_of rows) w h)
      (λ _ v k. release_rows-Left o name rows v k)

abbrev is_dead_holder : Text → ProxyUser → Bool
is_dead_holder name u = u.deleted && has_name name 0 u

All-Left :
    (name : Text) (ids : List ℕ) (rows : List ProxyUser)
    → ltb 0 (length (filter (λ u. not u.deleted && has_name name 0 u) rows)) ≡ false
    → ((x : ℕ)
        → contains (ids_of (filter (is_dead_holder name) rows)) x ≡ true
        → contains ids x ≡ true)
    → All (Left name ids) rows
All-Left name ids [] h sub = tt
All-Left name ids (v ∷ rows) h sub = (
  head (Bool-cases (v.username == name)) (Bool-cases v.deleted) h sub,
  All-Left name ids rows (ground (arith, h)) (λ x k. sub x (ground (arith, k))),
)
  where
    head :
        ((v.username == name) ≡ true) ⊎ ((v.username == name) ≡ false)
        → (v.deleted ≡ true) ⊎ (v.deleted ≡ false)
        → ltb 0 (length (filter (λ u. not u.deleted && has_name name 0 u) (v ∷ rows))) ≡ false
        → ((x : ℕ)
            → contains (ids_of (filter (is_dead_holder name) (v ∷ rows))) x ≡ true
            → contains ids x ≡ true)
        → Left name ids v
    head (inr free) d h sub = inl free
    head (inl same) (inl dead) h sub = inr (sub v.id (rw (dead, same, beq_refl v.id) refl))
    head (inl same) (inr live) h sub = absurd (ground (arith, h, live, same))

no_holder :
    (name : Text) (rows : List ProxyUser)
    → All (Left name []) rows
    → any? (λ v. v.username == name) rows ≡ false
no_holder name [] h = refl
no_holder name (v ∷ rows) h = ground (arith, no_holder name rows h.1, h.0)

-- A name that was reclaimed is in no row, deleted or not.
pub reclaim-frees :
    (o : Outside) (name : Text) (w : World)
    → (trim_space name == []) ≡ false
    → Post
        (λ _ v. any? (λ u. u.username == trim_space name) v.db.users ≡ false)
        (λ e v. Unit {0})
        (reclaim_soft_deleted_username o name 0 w)
unfolding reclaim_soft_deleted_username
reclaim-frees o name w nonblank = rw nonblank (
    Post-bind (λ n v. (n ≡ length (users_where holds w.db)) × (v.db ≡ w.db)) _ _
      (select (λ db. length (users_where holds db)) w) counted
      (Post-mono _ _ _ _ (select _ w) (select-Post _ w) (λ n v h. h) (λ e v h. tt))
      (λ n v h. checked n v (Bool-cases (ltb 0 n)) h.0 h.1))
  where
    holds : ProxyUser → Bool
    holds = has_name (trim_space name) 0

    release : M (Unit {0})
    release = select (λ db. filter (λ u. u.deleted && holds u) db.users) >>= λ soft.
        release_rows o (trim_space name) soft

    counted : ℕ → M (Unit {0})
    counted n = if ltb 0 n then fail username_exists else release

    Frees : World → Type 0
    Frees v = any? (λ u. u.username == trim_space name) v.db.users ≡ false

    checked :
        (n : ℕ) (v : World)
        → (ltb 0 n ≡ true) ⊎ (ltb 0 n ≡ false)
        → n ≡ length (users_where holds w.db)
        → v.db ≡ w.db
        → Post (λ _ x. Frees x) (λ e x. Unit {0}) (counted n v)
    checked n v (inl held) count same = rw held tt
    checked n v (inr free) count same = rw free (
        Post-bind (λ soft x. (soft ≡ filter (λ u. u.deleted && holds u) v.db.users) × (x.db ≡ v.db))
          _ _ (select (λ db. filter (λ u. u.deleted && holds u) db.users) v)
          (λ soft. release_rows o (trim_space name) soft)
          (Post-mono _ _ _ _ (select _ v) (select-Post _ v) (λ soft x h. h) (λ e x h. tt))
          (λ soft x h.
            Post-mono _ _ _ _ (release_rows o (trim_space name) soft x)
              (release_rows-Left o (trim_space name) soft x (start soft x h.0 h.1))
              (λ _ y k. no_holder (trim_space name) y.db.users k) (λ _ _ _. tt)))
      where
        start :
            (soft : List ProxyUser) (x : World)
            → soft ≡ filter (λ u. u.deleted && holds u) v.db.users
            → x.db ≡ v.db
            → All (Left (trim_space name) (ids_of soft)) x.db.users
        start soft x e f =
            subst (λ us. All (Left (trim_space name) (ids_of us)) x.db.users) (sym e)
              (subst
                (λ db.
                  All
                    (Left (trim_space name)
                      (ids_of (filter (λ u. u.deleted && holds u) v.db.users)))
                    db.users)
                (sym (f ∙ same))
                (All-Left (trim_space name) _ w.db.users (subst (λ k. ltb 0 k ≡ false) count free)
                  (λ i k.
                    subst
                      (λ db.
                        contains (ids_of (filter (λ u. u.deleted && holds u) db.users)) i ≡ true)
                      (sym same) k)))
