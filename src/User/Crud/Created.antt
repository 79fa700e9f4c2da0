-- ===== src/User/Crud/Created.antt =====
-- What a successful and what a failed creation leave (backend/internal/user/service_crud.go).
use m_ui.Base.{
  Bool, true, false, not, ◌&&◌, List, [], ◌∷◌, ◌++◌, Option, none, some, ◌==◌, nat_eq, text_eq,
  filter, length, ltb, any?, Text, trim_space, ◌≡◌, refl, sym, subst, ap, ◌∙◌, arith, Bool-cases,
  inl, inr, ◌⊎◌, text_beq_iff,
}
use m_ui.Base.TrimLaws.{trim_space-trim_space}
use m_ui.Models.{Db, ProxyUser}
use m_ui.Store.{World, M, ◌>>=◌, ◌>>◌, return, exec, failed, username_exists, Error}
use m_ui.Store.Laws.{Post, Post-bind, Post-mono, exec-Post, select_ok}
use m_ui.Table.{users_where}
use m_ui.User.Reload.{notify_credentials_changed, schedule_credentials_sync-db}
use m_ui.User.Crud.{
  Outside, CreateInput, has_name, reclaim_soft_deleted_username, insert_user, new_user, or_draw,
  or_fail, create_named, create,
}
use m_ui.User.Crud.Reclaim.{reclaim-frees}
use m_ui.User.Crud.Live.{live, HasApartIds, reclaim-live}

abbrev pub has_username : Text → ProxyUser → Bool
has_username name u = u.username == name

-- What gorm's filling of the defaults leaves alone.
pub record KeepsIdentity (fill : ProxyUser → ProxyUser) : Type 0 where
  pub same_name : (u : ProxyUser) → (fill u).username ≡ u.username
  pub same_mark : (u : ProxyUser) → (fill u).deleted ≡ u.deleted

any?-has_name :
    (name : Text) (us : List ProxyUser) → any? (has_name name 0) us ≡ any? (has_username name) us
any?-has_name name [] = refl
any?-has_name name (u ∷ us) = ground (arith, any?-has_name name us)

filter-snoc :
    (rows : List ProxyUser) (u : ProxyUser)
    → u.deleted ≡ false
    → filter (λ u. not u.deleted && true) (rows ++ u ∷ [])
      ≡ filter (λ u. not u.deleted && true) rows ++ u ∷ []
filter-snoc [] u h = ground (arith, h)
filter-snoc (v ∷ rows) u h = ground (arith, filter-snoc rows u h)

module _ (o : Outside) (keeps : KeepsIdentity o.fill_defaults) where
  -- The accounts that were live are as they were, and the new one comes last.
  abbrev Added : Db → Text → ProxyUser → World → Type 0
  Added db name u v = (live v.db ≡ live db ++ u ∷ []) × (u.username ≡ name)

  abbrev inserted : ProxyUser → Db → ProxyUser
  inserted u db = record (o.fill_defaults u) { id = o.new_id db }

  insert_row :
      (u : ProxyUser) (w : World)
      → u.deleted ≡ false
      → Post
          (λ x v. Added w.db u.username x v)
          (λ e v. live v.db ≡ live w.db)
          ((exec (λ db. record db { users = db.users ++ inserted u w.db ∷ [] })
              >> return (inserted u w.db))
            w)
  insert_row u w alive =
      Post-bind (λ _ v. v.db ≡ record w.db { users = w.db.users ++ inserted u w.db ∷ [] }) _ _
        (exec (λ db. record db { users = db.users ++ inserted u w.db ∷ [] }) w)
        (λ _. return (inserted u w.db))
        (Post-mono _ _ _ _ (exec _ w) (exec-Post _ w) (λ _ v h. h) (λ e v h. ap live h))
        (λ _ v h. (
          ap live h ∙ filter-snoc w.db.users (inserted u w.db) (keeps.same_mark u ∙ alive),
          keeps.same_name u,
        ))

  insert_user-live :
      (u : ProxyUser) (w : World)
      → u.deleted ≡ false
      → Post (λ x v. Added w.db u.username x v) (λ e v. live v.db ≡ live w.db) (insert_user o u w)
  unfolding insert_user
  insert_user-live u w alive =
      elim (Bool-cases (any? (λ v. v.username == (inserted u w.db).username) w.db.users)) [
        | inl e ↦ rw e refl
        | inr a ↦
            rw a (elim (Bool-cases (any? (λ v. v.uuid == (inserted u w.db).uuid) w.db.users)) [
              | inl e ↦ rw e refl
              | inr b ↦
                  rw b
                    (elim (Bool-cases
                      (any? (λ v. v.sub_token == (inserted u w.db).sub_token) w.db.users)) [
                        | inl e ↦ rw e refl
                        | inr c ↦ rw c (insert_row u w alive)
                      ])
            ])
      ]

  or_fail-Post :
      {B : Type 0} (P : B → World → Type 0) (Q : Error → World → Type 0) (e : Error)
      (x : Option Text) (f : Text → M B) (w : World)
      → Q e w
      → ((t : Text) → Post P Q (f t w))
      → Post P Q ((or_fail e x >>= f) w)
  or_fail-Post P Q e none f w h g = h
  or_fail-Post P Q e (some t) f w h g = g t

  or_draw-Post :
      {B : Type 0} (P : B → World → Type 0) (Q : Error → World → Type 0) (s : Text)
      (x : Option Text) (f : Text → M B) (w : World)
      → ((e : Error) → Q e w)
      → ((t : Text) → Post P Q (f t w))
      → Post P Q ((or_draw s x >>= f) w)
  or_draw-Post P Q [] x f w h g = or_fail-Post P Q _ x f w (h _) g
  or_draw-Post P Q (c ∷ s) x f w h g = g (c ∷ s)

  create_named-live :
      (in' : CreateInput) (name : Text) (w : World)
      → Post (Added w.db name) (λ e v. live v.db ≡ live w.db) (create_named o in' name w)
  unfolding new_user
  create_named-live in' name w =
      or_draw-Post (Added w.db name) (λ e v. live v.db ≡ live w.db) in'.password o.random_token _ w
        (λ e. refl)
        (λ password.
          or_draw-Post (Added w.db name) (λ e v. live v.db ≡ live w.db) in'.uuid o.new_uuid _ w
            (λ e. refl)
            (λ uuid.
              or_fail-Post (Added w.db name) (λ e v. live v.db ≡ live w.db) _ (o.encrypt password) _
                w refl
                (λ encrypted.
                  or_fail-Post (Added w.db name) (λ e v. live v.db ≡ live w.db) _ o.random_hex _ w
                    refl (λ tok. stored (new_user in' name encrypted uuid tok) refl refl))))
    where
      stored :
          (u : ProxyUser)
          → u.deleted ≡ false
          → u.username ≡ name
          → Post
              (Added w.db name)
              (λ e v. live v.db ≡ live w.db)
              ((insert_user o u >>= λ x. notify_credentials_changed >> return x) w)
      stored u alive named =
          Post-bind (Added w.db u.username) _ _ (insert_user o u w)
            (λ x. notify_credentials_changed >> return x) (insert_user-live u w alive)
            (λ x v h.
              unfold notify_credentials_changed in
              (ap live (schedule_credentials_sync-db v) ∙ h.0, h.1 ∙ named))

  create_lem :
      (in' : CreateInput) (w : World)
      → HasApartIds w.db
      → Post
          (λ u v.
            Added w.db (trim_space in'.username) u v
            × (any? (has_username (trim_space in'.username)) (live w.db) ≡ false))
          (λ e v. live v.db ≡ live w.db)
          (create o in' w)
  unfolding create
  create_lem in' w apart = elim (Bool-cases (trim_space in'.username == [])) [
    | inl blank ↦ rw blank refl
    | inr given ↦ rw given (
        Post-bind (λ _ v. (live v.db ≡ live w.db) × (any? (has_username name) (live w.db) ≡ false))
          _ _ (reclaim_soft_deleted_username o name 0 w) (λ _. create_named o in' name)
          (Post-mono _ _ _ _ (reclaim_soft_deleted_username o name 0 w)
            (reclaim-live o name 0 w apart (rw (trim_space-trim_space in'.username) given))
            (λ _ v h. (
              h.0,
              sym (any?-has_name name (live w.db))
                  ∙ subst (λ t. any? (has_name t 0) (live w.db) ≡ false)
                      (trim_space-trim_space in'.username) h.1,
            ))
            (λ e v h. h))
          (λ _ v h.
            Post-mono _ _ _ _ (create_named o in' name v) (create_named-live in' name v)
              (λ u x a. ((a.0 ∙ ap (λ us. us ++ u ∷ []) h.0, a.1), h.1)) (λ e x k. k ∙ h.0)))
  ]
    where
      name : Text
      name = trim_space in'.username

  -- Creating an account adds it, under the trimmed name, to the live accounts, none of which had that
  -- name, and changes none of these; a creation that fails, for whatever reason, leaves the live
  -- accounts as they were. The first step of a creation, where it succeeds, leaves the name in no row
  -- at all: deleted rows that held it have given it up. No live account has the id of a deleted row.
  pub create-live :
      (in' : CreateInput) (w : World)
      → HasApartIds w.db
      → Post
          (λ u v.
            Added w.db (trim_space in'.username) u v
            × (any? (has_username (trim_space in'.username)) (live w.db) ≡ false))
          (λ e v. live v.db ≡ live w.db)
          (create o in' w)
        × ((trim_space in'.username ≡ [])
            ⊎ Post
                (λ _ v. any? (has_username (trim_space in'.username)) v.db.users ≡ false)
                (λ e v. Unit {0})
                (reclaim_soft_deleted_username o (trim_space in'.username) 0 w))
  create-live in' w apart = (
    create_lem in' w apart,
    elim (Bool-cases (trim_space in'.username == [])) [
      | inl blank ↦ inl ((text_beq_iff (trim_space in'.username) []).0 blank)
      | inr given ↦ inr (
          subst
            (λ t.
              Post (λ _ v. any? (has_username t) v.db.users ≡ false) (λ e v. Unit {0})
                (reclaim_soft_deleted_username o (trim_space in'.username) 0 w))
            (trim_space-trim_space in'.username)
            (reclaim-frees o (trim_space in'.username) w
              (rw (trim_space-trim_space in'.username) given)))
    ],
  )

holders_found :
    (q : ProxyUser → Bool) (rows : List ProxyUser)
    → any? q (filter (λ u. not u.deleted && true) rows) ≡ true
    → ltb 0 (length (filter (λ u. not u.deleted && q u) rows)) ≡ true
holders_found q [] h = cc
holders_found q (v ∷ rows) h = ground (arith, holders_found q rows, h)

-- A name that a live account has is refused, and nothing is changed, while the database answers.
pub create-taken :
    (o : Outside) (in' : CreateInput) (w : World)
    → w.faults ≡ []
    → (trim_space in'.username == []) ≡ false
    → any? (has_username (trim_space in'.username)) (live w.db) ≡ true
    → create o in' w ≡ failed username_exists w
unfolding create reclaim_soft_deleted_username
create-taken o in' w clean given held = rw (
  given,
  trim_space-trim_space in'.username,
  given,
  select_ok (λ db. length (users_where (has_name (trim_space in'.username) 0) db)) w clean,
  holders_found (has_name (trim_space in'.username) 0) w.db.users
      (any?-has_name (trim_space in'.username) (live w.db) ∙ held),
)
