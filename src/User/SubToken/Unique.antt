-- ===== src/User/SubToken/Unique.antt =====
-- A token that was issued names one account.
use m_ui.Base.{
  ℕ, zero, suc, Bool, true, false, not, ◌&&◌, List, [], ◌∷◌, Option, none, some, ◌≡◌, refl, sym,
  subst, ◌∙◌, inl, inr, if◌then◌else◌, ◌==◌, nat_eq, nat_beq_iff, text_eq, beq_refl, find?-true,
  filter, map_where, any?, trim_space, All, Text, arith, Bool-cases,
}
use m_ui.Models.{Db, ProxyUser}
use m_ui.Store.{World, ◌>>=◌, return, select, exec, first}
use m_ui.Store.Laws.{Post, Post-bind, Post-mono, select-Post, exec-Post, first-Post}
use m_ui.Table.{is_user, find_user, update_users, users_where}
use m_ui.User.SubToken.{
  set_token, is_held_by_other, write_token, count_where, allocate, drawn, taken, ensure_sub_token,
  rotate_sub_token,
}

-- Among the live accounts, exactly the one with this id has the token.
abbrev pub Names : Text → ℕ → Db → Type 0
Names t id db = All (λ v. (v.sub_token == t) ≡ (v.id == id)) (users_where (λ _. true) db)

rows-Names :
    (id : ℕ) (t : Text) (rows : List ProxyUser)
    → any? (is_held_by_other id t) rows ≡ false
    → All
        (λ v. (v.sub_token == t) ≡ (v.id == id))
        (filter
          (λ u. not u.deleted && true)
          (map_where (λ v. not v.deleted && v.id == id) (set_token t) rows))
rows-Names id t [] h = tt
rows-Names id t (v ∷ rows) h = elim (Bool-cases v.deleted) [
  | inl gone ↦ rw gone (rows-Names id t rows (ground arith))
  | inr live ↦ elim (Bool-cases (v.id == id)) [
    | inl e ↦ rw (live, e) (beq_refl t ∙ sym e, rows-Names id t rows (ground arith))
    | inr e ↦ rw (live, e) (ground arith, rows-Names id t rows (ground arith))
  ]
]

write_token-Names :
    (id : ℕ) (t : Text) (w : World)
    → Post (λ _ v. Names t id v.db) (λ e v. v.db ≡ w.db) (write_token id t w)
unfolding write_token
write_token-Names id t w = elim (Bool-cases (any? (is_held_by_other id t) w.db.users)) [
  | inl e ↦ rw e refl
  | inr e ↦ rw e (
      Post-mono _ _ _ _ (exec (update_users (λ v. v.id == id) (set_token t)) w) (exec-Post _ w)
        (λ _ v h. rw h (rows-Names id t w.db.users e)) (λ _ _ h. h))
]

allocate-Names :
    (p : Text → ProxyUser → Bool) (id : ℕ) (draw : ℕ → Option Text) (tries i : ℕ) (db : Db)
    (w : World)
    → w.db ≡ db
    → Post (λ t v. Names t id v.db) (λ e v. v.db ≡ db) (allocate p id draw tries i w)
unfolding allocate
allocate-Names p id draw zero i db w same = same
allocate-Names p id draw (suc tries) i db w same =
    go (λ v h. allocate-Names p id draw tries (suc i) db v h) (draw i)
  where
    Again : Type 0
    Again =
        (v : World)
        → v.db ≡ db
        → Post (λ t x. Names t id x.db) (λ e x. x.db ≡ db) (allocate p id draw tries (suc i) v)

    issue :
        Again
        → (n : ℕ) (t : Text) (v : World) → v.db ≡ db
        → Post
            (λ t x. Names t id x.db)
            (λ e x. x.db ≡ db)
            (taken id n t (allocate p id draw tries (suc i)) v)
    issue again zero t v h =
        Post-bind (λ _ x. Names t id x.db) _ _ (write_token id t v) (λ _. return t)
          (Post-mono _ _ _ _ (write_token id t v) (write_token-Names id t v) (λ _ _ k. k)
            (λ _ _ k. k ∙ h))
          (λ _ x k. k)
    issue again (suc n) t v h = again v h

    go :
        Again
        → (o : Option Text)
        → Post
            (λ t x. Names t id x.db)
            (λ e x. x.db ≡ db)
            (drawn o
              (λ t.
                select (count_where (p t)) >>= λ n. taken id n t (allocate p id draw tries (suc i)))
              w)
    go again none = same
    go again (some t) =
        Post-bind (λ _ v. v.db ≡ db) _ _ (select (count_where (p t)) w)
          (λ n. taken id n t (allocate p id draw tries (suc i)))
          (Post-mono _ _ _ _ (select (count_where (p t)) w) (select-Post (count_where (p t)) w)
            (λ _ _ h. h.1 ∙ same) (λ _ _ h. h ∙ same))
          (λ n v h. issue again n t v h)

found-id : (id : ℕ) (db : Db) (u : ProxyUser) → find_user id db ≡ some u → u.id ≡ id
found-id id db u h =
    (nat_beq_iff u.id id).0 (live_id u.deleted (u.id == id) (find?-true (is_user id) db.users u h))
  where
    live_id : (a b : Bool) → (not a && b) ≡ true → b ≡ true
    live_id a b h = ground arith

-- Whichever statements fail and whatever is drawn: rotating either issues a token that no other live
-- account has and that is the account's, or leaves the tables unchanged.
pub rotate_sub_token-Names :
    (draw : ℕ → Option Text) (id : ℕ) (w : World)
    → Post (λ t v. Names t id v.db) (λ e v. v.db ≡ w.db) (rotate_sub_token draw id w)
unfolding rotate_sub_token
rotate_sub_token-Names draw id w =
    Post-bind (λ u v. (u.id ≡ id) × (v.db ≡ w.db)) _ _ (first (find_user id) w) _
      (Post-mono _ _ _ _ (first (find_user id) w) (first-Post (find_user id) w)
        (λ u _ h. (found-id id w.db u h.0, h.1)) (λ _ _ h. h))
      (λ u v h. rw (h.0) (allocate-Names _ id draw 5 0 w.db v h.1))

-- Whichever statements fail and whatever is drawn: for an existing account a call returns the token
-- that it has and changes nothing, or, where that is blank, issues one that no other live account
-- has and that is the account's; or it fails and changes nothing.
pub ensure_sub_token-Names :
    (draw : ℕ → Option Text) (id : ℕ) (w : World) (u : ProxyUser)
    → find_user id w.db ≡ some u
    → Post
        (λ t v.
          if trim_space u.sub_token == []
          then Names t id v.db
          else ((t ≡ u.sub_token) × (v.db ≡ w.db)))
        (λ e v. v.db ≡ w.db)
        (ensure_sub_token draw id w)
unfolding ensure_sub_token
ensure_sub_token-Names draw id w u found =
    Post-bind (λ a v. (a ≡ u) × (v.db ≡ w.db)) _ _ (first (find_user id) w) _
      (Post-mono _ _ _ _ (first (find_user id) w) (first-Post (find_user id) w)
        (λ a _ h. (some_eq (sym h.0 ∙ found), h.1)) (λ _ _ h. h))
      (λ a v h. elim (Bool-cases (trim_space u.sub_token == [])) [
        | inl e ↦
            rw (h.0, e)
              (Post-mono _ _ _ _ (allocate _ u.id draw 5 0 v)
                (allocate-Names _ u.id draw 5 0 w.db v h.1)
                (λ t x k. subst (λ i. Names t i x.db) (found-id id w.db u found) k) (λ _ _ k. k))
        | inr e ↦ rw (h.0, e) (refl, h.1)
      ])
  where
    some_eq : {a b : ProxyUser} → ◌≡◌ {A = Option ProxyUser} (some a) (some b) → a ≡ b
    some_eq q = cc
