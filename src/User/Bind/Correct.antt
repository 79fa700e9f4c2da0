-- ===== src/User/Bind/Correct.antt =====
-- `BindListeners` replaces a user's bindings, or changes nothing.
use m_ui.Base.{
  ℕ, not, ◌&&◌, ◌||◌, List, [], ◌∷◌, Option, none, some, ◌≡◌, refl, ◌∙◌, sym, ap, inl, inr,
  if◌then◌else◌, arith, ◌==◌, nat_eq, contains, length, any?, Bool-cases,
}
use m_ui.Models.{Db, ListenerUser}
use m_ui.Store.{World, M, ◌>>=◌, select, exec, first, transaction, Error}
use m_ui.Store.Laws.{
  Post, Post-bind, Post-mono, select-Post, exec-Post, first-Post, transaction-Post,
}
use m_ui.Table.{find_user}
use m_ui.User.Ids.{distinct_ids, distinct_ids_lem}
use m_ui.User.Reload.{notify_credentials_changed, schedule_credentials_sync-db}
use m_ui.User.Bind.{
  is_pair, find_binding, restore_binding, add_binding, create_binding, count_listeners,
  remove_bindings, bind_found, bind_one, bind_loop, check_count, clear_bindings, replace_bindings,
  bind_listeners, is_bound,
}
use m_ui.User.Bind.Rows.{is_same, is_bound-restore, is_bound-add, is_bound-present, is_bound-remove}

abbrev Anything : Error → World → Type 0
Anything e v = Unit {0}

-- The binding (user, listener) was added, and nothing else changed.
abbrev Added : ℕ → ℕ → Db → Db → Type 0
Added user listener before now =
    (u x : ℕ) → is_bound u x now ≡ (is_bound u x before || is_same user listener u x)

bind_found-Added :
    (user listener : ℕ) (before : Db) (w : World) (o : Option ListenerUser)
    → o ≡ find_binding user listener before
    → w.db ≡ before
    → Post (λ _ v. Added user listener before v.db) Anything (bind_found user listener o w)
unfolding bind_found create_binding
bind_found-Added user listener before w none h same =
    elim (Bool-cases (any? (is_pair user listener) w.db.bindings)) [
      | inl held ↦ rw held tt
      | inr free ↦ rw free (
          Post-mono _ _ _ _ (exec (add_binding user listener) w)
            (exec-Post (add_binding user listener) w)
            (λ _ v e u x. rw (e, same) (is_bound-add user listener u x before)) (λ _ _ _. tt))
    ]
bind_found-Added user listener before w (some b) h same = elim (Bool-cases b.deleted) [
  | inl e ↦ rw e (
      Post-mono _ _ _ _ (exec (restore_binding user listener) w)
        (exec-Post (restore_binding user listener) w)
        (λ _ v p u x. rw (p, same) (is_bound-restore user listener u x before b (sym h)))
        (λ _ _ _. tt))
  | inr e ↦ rw (e, same) (λ u x. is_bound-present user listener u x before b (sym h) e)
]

bind_one-Added :
    (user listener : ℕ) (w : World)
    → Post (λ _ v. Added user listener w.db v.db) Anything (bind_one user listener w)
unfolding bind_one
bind_one-Added user listener w =
    Post-bind (λ a v. (a ≡ find_binding user listener w.db) × (v.db ≡ w.db)) _ _
      (select (find_binding user listener) w) (bind_found user listener)
      (Post-mono _ _ _ _ (select (find_binding user listener) w)
        (select-Post (find_binding user listener) w) (λ _ _ h. h) (λ _ _ _. tt))
      (λ o v h. bind_found-Added user listener w.db v o h.0 h.1)

abbrev AddedAll : ℕ → List ℕ → Db → Db → Type 0
AddedAll user ids before now =
    (u x : ℕ) → is_bound u x now ≡ (is_bound u x before || (u == user && contains ids x))

bind_loop-AddedAll :
    (user : ℕ) (ids : List ℕ) (w : World)
    → Post (λ _ v. AddedAll user ids w.db v.db) Anything (bind_loop user ids w)
unfolding bind_loop
bind_loop-AddedAll user [] w = λ u x. ground arith
bind_loop-AddedAll user (i ∷ ids) w =
    Post-bind (λ _ v. Added user i w.db v.db) _ _ (bind_one user i w) (λ _. bind_loop user ids)
      (bind_one-Added user i w)
      (λ _ v added.
        Post-mono _ _ _ _ (bind_loop user ids v) (bind_loop-AddedAll user ids v)
          (λ _ t h u x. ground (arith, h u x, added u x)) (λ _ _ _. tt))

abbrev Cleared : ℕ → List ℕ → Db → Db → Type 0
Cleared user ids before now =
    (u x : ℕ) → is_bound u x now ≡ (is_bound u x before && not (u == user && not (contains ids x)))

remove-Cleared :
    (user : ℕ) (ids : List ℕ) (before : Db) (w : World)
    → w.db ≡ before
    → Post (λ _ v. Cleared user ids before v.db) Anything (exec (remove_bindings user ids) w)
remove-Cleared user ids before w same =
    Post-mono _ _ _ _ (exec (remove_bindings user ids) w) (exec-Post (remove_bindings user ids) w)
      (λ _ v e u x. rw (e, same) (is_bound-remove user ids u x before)) (λ _ _ _. tt)

check_count-Post :
    (ids : List ℕ) (n : ℕ) (before : Db) (w : World)
    → w.db ≡ before
    → Post (λ _ v. v.db ≡ before) Anything (check_count ids n w)
check_count-Post ids n before w h = elim (Bool-cases (n == length ids)) [
  | inl e ↦ rw e h
  | inr e ↦ rw e tt
]

clear_bindings-Cleared :
    (user : ℕ) (ids : List ℕ) (w : World)
    → Post (λ _ v. Cleared user ids w.db v.db) Anything (clear_bindings user ids w)
clear_bindings-Cleared user [] w = remove-Cleared user [] w.db w refl
clear_bindings-Cleared user (d ∷ ds) w =
    Post-bind (λ _ v. v.db ≡ w.db) _ _
      ((select (count_listeners (d ∷ ds)) >>= check_count (d ∷ ds)) w)
      (λ _. exec (remove_bindings user (d ∷ ds)))
      (Post-bind (λ a v. (a ≡ count_listeners (d ∷ ds) w.db) × (v.db ≡ w.db)) _ _
        (select (count_listeners (d ∷ ds)) w) (check_count (d ∷ ds))
        (Post-mono _ _ _ _ (select (count_listeners (d ∷ ds)) w)
          (select-Post (count_listeners (d ∷ ds)) w) (λ _ _ h. h) (λ _ _ _. tt))
        (λ n v h. check_count-Post (d ∷ ds) n w.db v h.1))
      (λ _ v h. remove-Cleared user (d ∷ ds) w.db v h)

-- The bindings of the user are exactly the requested ones; those of other users are as before.
abbrev pub Replaced : ℕ → List ℕ → Db → Db → Type 0
Replaced user ids before now =
    (u x : ℕ) → is_bound u x now ≡ (if u == user then contains ids x else is_bound u x before)

replace_bindings-Replaced :
    (user : ℕ) (ids : List ℕ) (before : Db) (w : World)
    → w.db ≡ before
    → Post (λ _ v. Replaced user ids before v.db) Anything (replace_bindings user ids w)
replace_bindings-Replaced user ids before w same =
    Post-bind (λ _ v. Cleared user ids w.db v.db) _ _ (clear_bindings user ids w)
      (λ _. bind_loop user ids) (clear_bindings-Cleared user ids w)
      (λ _ v cleared.
        Post-mono _ _ _ _ (bind_loop user ids v) (bind_loop-AddedAll user ids v)
          (λ _ t added u x. rw (← same) (ground (arith, added u x, cleared u x))) (λ _ _ _. tt))

-- Whichever statements fail: a call that succeeds leaves the user bound to exactly the requested
-- listeners and every other user bound as before; a call that fails leaves the tables unchanged.
pub bind_listeners-Replaced :
    (user : ℕ) (ids : List ℕ) (w : World)
    → Post (λ _ v. Replaced user ids w.db v.db) (λ e v. v.db ≡ w.db) (bind_listeners user ids w)
unfolding bind_listeners notify_credentials_changed
bind_listeners-Replaced user ids w =
    Post-bind (λ _ v. Replaced user ids w.db v.db) _ _ (transaction body w)
      (λ _. notify_credentials_changed) kept
      (λ _ v h u x. ap (is_bound u x) (schedule_credentials_sync-db v) ∙ h u x)
  where
    body : M (Unit {0})
    body = first (find_user user) >>= λ _. replace_bindings user (distinct_ids ids)

    exact :
        (v : World)
        → v.db ≡ w.db
        → Post
            (λ _ t. Replaced user ids w.db t.db)
            Anything
            (replace_bindings user (distinct_ids ids) v)
    exact v same =
        Post-mono _ _ _ _ (replace_bindings user (distinct_ids ids) v)
          (replace_bindings-Replaced user (distinct_ids ids) w.db v same)
          (λ _ t h u x.
            h u x
            ∙ ap (λ b. if u == user then b else is_bound u x w.db) ((distinct_ids_lem ids).1 x))
          (λ _ _ _. tt)

    kept : Post (λ _ v. Replaced user ids w.db v.db) (λ e v. v.db ≡ w.db) (transaction body w)
    kept =
        transaction-Post (λ _ db. Replaced user ids w.db db) body w
          (Post-bind (λ a v. v.db ≡ w.db) _ _ (first (find_user user) w)
            (λ _. replace_bindings user (distinct_ids ids))
            (Post-mono _ _ _ _ (first (find_user user) w) (first-Post (find_user user) w)
              (λ _ _ h. h.1) (λ _ _ _. tt))
            (λ _ v same. exact v same))
