-- ===== src/User/Bind/Success.antt =====
-- When `BindListeners` succeeds: with no statement failing, exactly when the user exists and the
-- requested listeners all do.
use m_ui.Base.{
  Bool, true, false, not, ◌&&◌, any?, find?, filter, contains, All, sym, ◌∙◌, subst, arith, ◌==◌, ℕ,
  List, [], ◌∷◌, Option, none, some, ◌≡◌, refl, inl, inr, nat_eq, nat_beq_iff, length, Bool-cases,
}
use m_ui.Models.{Db, Listener, ListenerUser, ProxyUser}
use m_ui.Store.{World, Outcome, done, ◌>>=◌, exec, first}
use m_ui.Store.Laws.{Post, select_ok, exec_ok, first_ok, transaction_ok}
use m_ui.Table.{find_user}
use m_ui.User.Ids.{Distinct, distinct_ids, distinct_ids_lem}
use m_ui.User.Ids.Sizes.{Subset, length-filter-contains}
use m_ui.User.Bind.Correct.{Replaced, bind_listeners-Replaced}
use m_ui.User.Reload.{notify_credentials_changed, schedule_credentials_sync}
use m_ui.User.Bind.{
  is_pair, find_binding, restore_binding, add_binding, create_binding, count_listeners,
  remove_bindings, bind_found, bind_one, bind_loop, clear_bindings, replace_bindings,
  bind_listeners,
}

-- The call succeeds, and no later statement fails.
abbrev Succeeds : Outcome (Unit {0}) → Type 0
Succeeds o = (v : World) × (o ≡ done tt v) × (v.faults ≡ [])

exec-Succeeds : (f : Db → Db) (w : World) → w.faults ≡ [] → Succeeds (exec f w)
exec-Succeeds f w clean = (record w { db = f w.db }, exec_ok f w clean, clean)

-- A pair that was looked for and not found is in no row, so the unique index lets it in.
find?-absent :
    (p : ListenerUser → Bool) (rows : List ListenerUser) → find? p rows ≡ none → any? p rows ≡ false
find?-absent p [] h = refl
find?-absent p (b ∷ rows) h = ground (arith, find?-absent p rows)

bind_found-Succeeds :
    (user listener : ℕ) (o : Option ListenerUser) (w : World)
    → w.faults ≡ []
    → find_binding user listener w.db ≡ o
    → Succeeds (bind_found user listener o w)
unfolding bind_found create_binding
bind_found-Succeeds user listener none w clean found =
    rw (find?-absent (is_pair user listener) w.db.bindings found)
      (exec-Succeeds (add_binding user listener) w clean)
bind_found-Succeeds user listener (some b) w clean found = elim (Bool-cases b.deleted) [
  | inl e ↦ rw e (exec-Succeeds (restore_binding user listener) w clean)
  | inr e ↦ rw e (w, refl, clean)
]

bind_loop-Succeeds :
    (user : ℕ) (ids : List ℕ) (w : World) → w.faults ≡ [] → Succeeds (bind_loop user ids w)
unfolding bind_loop bind_one
bind_loop-Succeeds user [] w clean = (w, refl, clean)
bind_loop-Succeeds user (i ∷ ids) w clean =
    let (v, e, clean') = bind_found-Succeeds user i (find_binding user i w.db) w clean refl in
    rw (select_ok (find_binding user i) w clean, e) (bind_loop-Succeeds user ids v clean')

clear_bindings-Succeeds :
    (user : ℕ) (ids : List ℕ) (w : World)
    → w.faults ≡ []
    → count_listeners ids w.db ≡ length ids
    → Succeeds (clear_bindings user ids w)
clear_bindings-Succeeds user [] w clean all = exec-Succeeds (remove_bindings user []) w clean
clear_bindings-Succeeds user (d ∷ ds) w clean all =
    rw (select_ok (count_listeners (d ∷ ds)) w clean, (nat_beq_iff _ _).1 all)
      (exec-Succeeds (remove_bindings user (d ∷ ds)) w clean)

abbrev ids_of : List Listener → List ℕ
ids_of [] = []
ids_of (l ∷ ls) = l.id ∷ ids_of ls

-- The ids of the live listeners.
abbrev pub live_ids : Db → List ℕ
live_ids db = ids_of (filter (λ l. not l.deleted) db.listeners)

count_ids :
    (ids : List ℕ) (ls : List Listener)
    → length (filter (λ l. not l.deleted && contains ids l.id) ls)
      ≡ length (filter (contains ids) (ids_of (filter (λ l. not l.deleted) ls)))
count_ids ids [] = refl
count_ids ids (l ∷ ls) = ground (arith, count_ids ids ls)

count_listeners-length :
    (ids : List ℕ) (db : Db)
    → Distinct ids
    → Distinct (live_ids db)
    → Subset ids (live_ids db)
    → count_listeners ids db ≡ length ids
unfolding count_listeners
count_listeners-length ids db di dl sub =
    count_ids ids db.listeners ∙ length-filter-contains ids (live_ids db) di dl sub

All-contains : (ids all : List ℕ) → All (λ i. contains all i ≡ true) ids → Subset ids all
All-contains [] all h x p = cc p
All-contains (i ∷ ids) all h x p = elim (Bool-cases (x == i)) [
  | inl same ↦ rw ((nat_beq_iff x i).0 same) h.0
  | inr other ↦ All-contains ids all h.1 x (rw other at p)
]

bind_listeners-succeeds :
    (user : ℕ) (ids : List ℕ) (w : World) (u : ProxyUser)
    → w.faults ≡ []
    → find_user user w.db ≡ some u
    → count_listeners (distinct_ids ids) w.db ≡ length (distinct_ids ids)
    → (v : World) × (bind_listeners user ids w ≡ done tt v)
unfolding bind_listeners notify_credentials_changed
bind_listeners-succeeds user ids w u clean found all =
    let (v, e, clean') = clear_bindings-Succeeds user (distinct_ids ids) w clean all in
    let (t, e', clean'') = bind_loop-Succeeds user (distinct_ids ids) v clean' in
    (
      schedule_credentials_sync t,
      rw (
          transaction_ok (first (find_user user) >>= λ _. replace_bindings user (distinct_ids ids))
            w t tt (rw (first_ok (find_user user) w clean, found, e) e') clean''),
    )

-- With no statement failing, binding an existing user to listeners that are all live succeeds, also if
-- an id is repeated or a pair was bound and removed before, and leaves the user bound to exactly
-- these, the bindings of others as they were. The ids of the live listeners are distinct.
pub bind_listeners-done :
    (user : ℕ) (ids : List ℕ) (w : World) (u : ProxyUser)
    → w.faults ≡ []
    → find_user user w.db ≡ some u
    → Distinct (live_ids w.db)
    → All (λ i. contains (live_ids w.db) i ≡ true) ids
    → (v : World) × (bind_listeners user ids w ≡ done tt v) × Replaced user ids w.db v.db
bind_listeners-done user ids w u clean found keys all =
    let once = distinct_ids_lem ids in
    let r = bind_listeners-succeeds user ids w u clean found (
      count_listeners-length (distinct_ids ids) w.db once.0 keys
        (λ x h. All-contains ids (live_ids w.db) all x (sym (once.1 x) ∙ h))) in
    (
      r.0,
      r.1,
      subst (Post (λ _ v. Replaced user ids w.db v.db) (λ e v. v.db ≡ w.db)) r.1
          (bind_listeners-Replaced user ids w),
    )
