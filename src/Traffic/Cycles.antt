-- ===== src/Traffic/Cycles.antt =====
-- `MaybeApplyUserCycles` (backend/internal/traffic/cycle_renew.go): per-account resets of the
-- counters and renewals of the expiry. `now` is the tick's `time.Now().UTC()`.
pub mod Windows
pub mod Due
use mathlib.Core.Path.{ap₂}
use m_ui.Base.{
  ℕ, suc, Bool, true, false, not, ◌&&◌, ◌||◌, List, [], ◌∷◌, Option, none, some, ◌≡◌, refl, sym, ap,
  ◌∙◌, inl, inr, if◌then◌else◌, ◌==◌, nat_eq, filter, map_where, arith, Bool-cases,
}
use m_ui.Base.Int.{ℤ, pos, ◌+ℤ◌, ltb_ℤ}
use m_ui.Clock.{Time, is_zero, is_before, days}
use m_ui.Models.{Db, ProxyUser}
use m_ui.Store.{World, Outcome, done, failed, M, ◌>>=◌, ◌>>◌, return, select, exec, ignore, after}
use m_ui.Store.Laws.{select_ok, exec_ok}
use m_ui.Table.{update_users, users_where}
use m_ui.Table.Each.{ids_of, write_each, KeepsKey, write_each-filter, filter-filter}
use m_ui.User.Ids.{Distinct}

abbrev is_cyclic : ProxyUser → Bool
is_cyclic u = ltb_ℤ (pos 0) u.traffic_reset_days || ltb_ℤ (pos 0) u.expire_renew_days

-- The window of the counters has passed.
abbrev pub is_over : Time → ℤ → Option Time → Bool
is_over now n none = false
is_over now n (some t) = not (is_before now (t +ℤ days n))

-- The counters are due: the cycle is on, has begun, and its window has passed.
abbrev pub is_reset_due : Time → ProxyUser → Bool
is_reset_due now u =
    ltb_ℤ (pos 0) u.traffic_reset_days
    && is_over now u.traffic_reset_days u.last_traffic_cycle_reset

abbrev is_unset : Option Time → Bool
is_unset none = true
is_unset (some t) = false

-- The cycle is on and has not begun.
abbrev pub is_cycle_new : ProxyUser → Bool
is_cycle_new u = ltb_ℤ (pos 0) u.traffic_reset_days && is_unset u.last_traffic_cycle_reset

abbrev pub is_renewal_due : Time → ProxyUser → Bool
is_renewal_due now u =
    ltb_ℤ (pos 0) u.expire_renew_days
    && (not (is_zero u.expire_time) && is_before u.expire_time now)

-- The map of updates is not empty.
abbrev has_updates : Time → ProxyUser → Bool
has_updates now u = (is_cycle_new u || is_reset_due now u) || is_renewal_due now u

-- The columns written to `v`, as `u` was read.
unfoldable pub cycle_updates : Time → ProxyUser → ProxyUser → ProxyUser
cycle_updates now u v = record v {
  traffic_used = if is_reset_due now u then pos 0 else v.traffic_used;
  upload_bytes = if is_reset_due now u then pos 0 else v.upload_bytes;
  download_bytes = if is_reset_due now u then pos 0 else v.download_bytes;
  last_traffic_cycle_reset =
      if is_cycle_new u || is_reset_due now u then some now else v.last_traffic_cycle_reset;
  expire_time = if is_renewal_due now u then now +ℤ days u.expire_renew_days else v.expire_time;
}

unfoldable pub cycles_loop : Time → List ProxyUser → M (Unit {0})
cycles_loop now [] = return tt
cycles_loop now (u ∷ us) =
    (if has_updates now u
      then ignore (exec (update_users (λ v. v.id == u.id) (cycle_updates now u)))
      else return tt)
    >> cycles_loop now us

abbrev over_rows : Time → Outcome (List ProxyUser) → Outcome (Unit {0})
over_rows now (done us w) = cycles_loop now us w
over_rows now (failed e w) = done tt w

-- A query that fails is logged, and the tick does nothing.
unfoldable pub maybe_apply_user_cycles : Time → M (Unit {0})
maybe_apply_user_cycles now w = over_rows now (select (users_where is_cyclic) w)

cycles_loop-write_each :
    (now : Time) (us : List ProxyUser) (w : World)
    → w.faults ≡ []
    → (after (cycles_loop now us w)).db.users
      ≡ write_each (cycle_updates now) (filter (has_updates now) us) w.db.users
unfolding cycles_loop
cycles_loop-write_each now [] w clean = refl
cycles_loop-write_each now (u ∷ us) w clean = elim (Bool-cases (has_updates now u)) [
  | inl e ↦
      rw (e, exec_ok (update_users (λ v. v.id == u.id) (cycle_updates now u)) w clean)
        (cycles_loop-write_each now us
          (record w { db = update_users (λ v. v.id == u.id) (cycle_updates now u) w.db }) clean)
  | inr e ↦ rw e (cycles_loop-write_each now us w clean)
]

cycle_updates-KeepsKey : (now : Time) → KeepsKey (cycle_updates now)
unfolding cycle_updates
cycle_updates-KeepsKey now = record { same_id = λ u v. refl; same_mark = λ u v. refl }

-- Without updates due, the written row is the row.
cycle_updates-same :
    (now : Time) (u : ProxyUser) → has_updates now u ≡ false → cycle_updates now u u ≡ u
unfolding cycle_updates
cycle_updates-same now u h = rows (is_cycle_new u) (is_reset_due now u) (is_renewal_due now u) h
  where
    rows :
        (a b c : Bool)
        → (a || b || c) ≡ false
        → ◌≡◌ {A = ProxyUser}
            (record u {
              traffic_used = if b then pos 0 else u.traffic_used;
              upload_bytes = if b then pos 0 else u.upload_bytes;
              download_bytes = if b then pos 0 else u.download_bytes;
              last_traffic_cycle_reset = if a || b then some now else u.last_traffic_cycle_reset;
              expire_time = if c then now +ℤ days u.expire_renew_days else u.expire_time;
            })
            u
    rows false false false e = refl
    rows true b c e = cc
    rows false true c e = cc
    rows false false true e = cc

not_cyclic : (now : Time) (u : ProxyUser) → is_cyclic u ≡ false → has_updates now u ≡ false
not_cyclic now u h = ground arith

due_rows :
    (now : Time) (rows : List ProxyUser)
    → map_where
        (λ v. not v.deleted && (is_cyclic v && has_updates now v))
        (λ v. cycle_updates now v v)
        rows
      ≡ map_where (λ v. not v.deleted) (λ v. cycle_updates now v v) rows
due_rows now [] = refl
due_rows now (u ∷ rows) =
    ap₂ ◌∷◌ (row u.deleted (is_cyclic u) (has_updates now u) refl refl) (due_rows now rows)
  where
    row :
        (a b c : Bool)
        → is_cyclic u ≡ b
        → has_updates now u ≡ c
        → (if not a && (b && c) then cycle_updates now u u else u)
          ≡ (if not a then cycle_updates now u u else u)
    row true b c h k = refl
    row false true true h k = refl
    row false true false h k = sym (cycle_updates-same now u k)
    row false false c h k = sym (cycle_updates-same now u (not_cyclic now u h))

-- Where ids are primary keys and no statement fails, a tick writes to each live account the updates
-- that are due for it, and leaves every other column and every deleted row alone.
pub maybe_apply_user_cycles_lem :
    (now : Time) (w : World)
    → w.faults ≡ []
    → Distinct (ids_of w.db.users)
    → (after (maybe_apply_user_cycles now w)).db.users
      ≡ map_where (λ u. not u.deleted) (λ u. cycle_updates now u u) w.db.users
unfolding maybe_apply_user_cycles
maybe_apply_user_cycles_lem now w clean keys = rw (select_ok (users_where is_cyclic) w clean) (
    cycles_loop-write_each now (users_where is_cyclic w.db) w clean
    ∙ ap (λ us. write_each (cycle_updates now) us w.db.users)
        (filter-filter is_cyclic (has_updates now) w.db.users)
    ∙ write_each-filter (cycle_updates now) (cycle_updates-KeepsKey now)
        (λ u. is_cyclic u && has_updates now u) w.db.users keys
    ∙ due_rows now w.db.users)
