-- ===== src/User/FirstUse.antt =====
-- `TouchFirstUse` (backend/internal/user/service.go): the stamp of an account's first use, which
-- may start its expiry clock. The collector and the subscription endpoint call it.
pub mod Begins
use mathlib.Core.Option
use m_ui.Base.{
  ℕ, ◌*◌, ◌≤◌, ◌<◌, Bool, true, false, not, ◌&&◌, [], Option, none, some, ◌≡◌, refl, ◌≢◌, inl, inr,
  ◌∙◌, sym, ap, if◌then◌else◌, arith, ◌==◌, nat_eq, nat_beq_iff, find?-true, subst, Bool-cases,
}
use m_ui.Base.Int.{pos, ltb_ℤ, ◌≤ℤ◌, ◌+ℤ◌, +ℤ_parts}
use m_ui.Clock.{Time, is_before, days, days_fits, day_nanos}
use m_ui.Models.{Db, ProxyUser}
use m_ui.Store.{World, Outcome, done, failed, M, exec, first, or_not_found, ignore, after}
use m_ui.Store.Laws.{Post, first-Post, exec_ok, first_ok}
use m_ui.Table.{is_user, find_user, update_users, find_user-update}
use m_ui.User.Active.{is_none, is_over_quota, is_credential_active}

-- The columns that the update sets; `u` is the row that was read, `v` the row that is written.
unfoldable pub stamp : Time → ProxyUser → ProxyUser → ProxyUser
stamp now u v = record v {
  first_connected_at = some now;
  expire_time =
      if u.start_on_first_use && ltb_ℤ (pos 0) u.expire_days_after_first
      then now +ℤ days u.expire_days_after_first
      else v.expire_time;
}

abbrev pub unstamped : ℕ → ProxyUser → Bool
unstamped id v = v.id == id && is_none v.first_connected_at

abbrev pub touch_found : Time → ℕ → Outcome ProxyUser → Outcome (Unit {0})
touch_found now id (failed e w) = done tt w
touch_found now id (done u w) =
    if is_none u.first_connected_at
    then ignore (exec (update_users (unstamped id) (stamp now u))) w
    else done tt w

unfoldable pub touch_first_use : Time → ℕ → M (Unit {0})
touch_first_use now id w =
    if id == 0 then done tt w else touch_found now id (first (find_user id) w)

-- The account after its first use.
unfoldable pub used : Time → ProxyUser → ProxyUser
unfolding stamp
used now u = if is_none u.first_connected_at then stamp now u u else u

stamp-is_user : (now : Time) (j : ℕ) (u v : ProxyUser) → is_user j (stamp now u v) ≡ is_user j v
unfolding stamp
stamp-is_user now j u v = refl

-- The row that was read is the row that is stamped, and no other row is.
stamp_row :
    (now : Time) (id j : ℕ) (u v : ProxyUser)
    → is_none u.first_connected_at ≡ true
    → is_user j v ≡ true
    → (j ≡ id → v ≡ u)
    → (if not v.deleted && unstamped id v then stamp now u v else v)
      ≡ (if j == id then used now v else v)
unfolding used
stamp_row now id j u v fresh row same = elim (Bool-cases (j == id)) [
  | inl e ↦
      let eq : v ≡ u = same ((nat_beq_iff j id).0 e) in
      rw (e, eq) (ground (arith, subst (λ x. is_user j x ≡ true) eq row, nat_beq_iff j id))
  | inr e ↦ rw e (ground (arith, nat_beq_iff j id, nat_beq_iff v.id id))
]

some_eq : {u v : ProxyUser} → ◌≡◌ {A = Option ProxyUser} (some u) (some v) → u ≡ v
some_eq h = cc

-- The stamping update, seen by a later read of any account.
find_user-stamp :
    (now : Time) (id j : ℕ) (u : ProxyUser) (db : Db)
    → find_user id db ≡ some u
    → is_none u.first_connected_at ≡ true
    → find_user j (update_users (unstamped id) (stamp now u) db)
      ≡ Option.map (λ v. if j == id then used now v else v) (find_user j db)
find_user-stamp now id j u db found fresh =
    find_user-update j (unstamped id) (stamp now u) db (stamp-is_user now j u)
    ∙ row (find_user j db) refl
  where
    row :
        (o : Option ProxyUser)
        → find_user j db ≡ o
        → Option.map (λ v. if not v.deleted && unstamped id v then stamp now u v else v) o
          ≡ Option.map (λ v. if j == id then used now v else v) o
    row none e = refl
    row (some v) e = ap some (
        stamp_row now id j u v fresh (find?-true (is_user j) db.users v e)
          (λ p. some_eq (sym e ∙ ap (λ k. find_user k db) p ∙ found)))

used_stamped : (now : Time) (u : ProxyUser) → is_none u.first_connected_at ≡ false → used now u ≡ u
unfolding used
used_stamped now u h = ground arith

-- Nothing is to be stamped.
find_user-same :
    (now : Time) (id j : ℕ) (o : Option ProxyUser)
    → (j ≡ id → (v : ProxyUser) → o ≡ some v → used now v ≡ v)
    → o ≡ Option.map (λ v. if j == id then used now v else v) o
find_user-same now id j none h = refl
find_user-same now id j (some v) h = elim (Bool-cases (j == id)) [
  | inl e ↦ rw e (ap some (sym (h ((nat_beq_iff j id).0 e) v refl)))
  | inr e ↦ rw e
]

touch_found_lem :
    (now : Time) (id j : ℕ) (w : World) (o : Option ProxyUser)
    → w.faults ≡ []
    → find_user id w.db ≡ o
    → find_user j (after (touch_found now id (or_not_found o w))).db
      ≡ Option.map (λ v. if j == id then used now v else v) (find_user j w.db)
touch_found_lem now id j w none clean e =
    find_user-same now id j _ (λ p v h. cc (h, e, ap (λ k. find_user k w.db) p))
touch_found_lem now id j w (some u) clean e = elim (Bool-cases (is_none u.first_connected_at)) [
  | inl fresh ↦ rw (fresh, exec_ok _ w clean) (find_user-stamp now id j u w.db e fresh)
  | inr old ↦ rw old (
      find_user-same now id j _ (λ p v h.
        let same : v ≡ u = some_eq (sym h ∙ ap (λ k. find_user k w.db) p ∙ e) in
        rw same (used_stamped now u old)))
]

-- A touch turns the live row of the account into the row after first use, and changes no other.
pub find_user-touch_first_use :
    (now : Time) (id j : ℕ) (w : World)
    → id ≢ 0
    → w.faults ≡ []
    → find_user j (after (touch_first_use now id w)).db
      ≡ Option.map (λ v. if j == id then used now v else v) (find_user j w.db)
unfolding touch_first_use
find_user-touch_first_use now id j w nonzero clean = elim (Bool-cases (id == 0)) [
  | inl e ↦ absurd (nonzero ((nat_beq_iff id 0).0 e))
  | inr e ↦ rw (e, first_ok (find_user id) w clean) (touch_found_lem now id j w _ clean refl)
]

-- The stamp is set once: on an account that has one, a touch changes nothing, at whatever time and
-- whichever statements fail.
pub touch_once :
    (now : Time) (id : ℕ) (w : World) (u : ProxyUser) (t : Time)
    → find_user id w.db ≡ some u
    → u.first_connected_at ≡ some t
    → (after (touch_first_use now id w)).db ≡ w.db
unfolding touch_first_use
touch_once now id w u t found stamped = elim (Bool-cases (id == 0)) [
  | inl e ↦ rw e
  | inr e ↦ rw e (go (first (find_user id) w) (first-Post (find_user id) w))
]
  where
    go :
        (o : Outcome ProxyUser)
        → Post (λ a v. (find_user id w.db ≡ some a) × (v.db ≡ w.db)) (λ e v. v.db ≡ w.db) o
        → (after (touch_found now id o)).db ≡ w.db
    go (failed x v) h = h
    go (done a v) h = let same : a ≡ u = some_eq (sym h.0 ∙ found) in rw (same, stamped) h.1

-- A touched account with a positive number of days is active exactly until that many days after
-- its first use, as long as it is enabled and its quota is not used up.
pub active-used :
    (now later : Time) (n : ℕ) (u : ProxyUser)
    → u.first_connected_at ≡ none
    → u.start_on_first_use ≡ true
    → u.expire_days_after_first ≡ pos n
    → 0 < n
    → n ≤ 106751
    → pos 0 ≤ℤ now
    → u.enabled ≡ true
    → is_over_quota u ≡ false
    → is_credential_active later (used now u) ≡ is_before later (now +ℤ pos (n * day_nanos))
unfolding used is_credential_active
active-used now later n u fresh deferred days_n some_days few since enabled quota =
    rw (fresh, deferred, days_n, enabled, quota, days_fits n few)
      (ground (arith, +ℤ_parts now (pos (n * day_nanos))))
