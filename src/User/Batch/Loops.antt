-- ===== src/User/Batch/Loops.antt =====
-- What the loops of `Batch` leave in the users table, when they get through.
use m_ui.Base.{
  ℕ, suc, ◌+◌, Bool, not, List, [], ◌∷◌, Option, none, some, ◌≡◌, refl, ap, ◌∙◌, inl, inr, arith,
  ◌==◌, nat_eq, length, filter, Bool-cases, int64,
}
use m_ui.Base.Int.{ℤ, pos, ◌+ℤ◌, leb_ℤ}
use m_ui.Clock.{Time}
use m_ui.Models.{Db, ProxyUser}
use m_ui.Store.{World, Outcome, done, failed, Error}
use m_ui.Store.Laws.{Post, exec-Post}
use m_ui.Table.{update_users, users_where}
use m_ui.Table.Each.{write_each}
use m_ui.User.Reload.{schedule_credentials_sync-db}
use m_ui.User.Batch.{
  Report, extended, set_expire, next_row, extend_loop, set_limit, add_traffic_loop, finish,
  finish_with, with_rows,
}

-- What a loop over rows leaves, if it got through.
abbrev pub Wrote :
    (ProxyUser → ProxyUser → ProxyUser) → List ProxyUser → ℕ → List ProxyUser → Report → Type 0
Wrote change us count rows r =
    r.error ≡ none → (r.world.db.users ≡ write_each change us rows) × (r.count ≡ count + length us)

next_row-Wrote :
    (change : ProxyUser → ProxyUser → ProxyUser) (u : ProxyUser) (us : List ProxyUser) (count : ℕ)
    (db : Db) (o : Outcome (Unit {0})) (k : World → Report)
    → Post (λ _ v. v.db ≡ update_users (λ v. v.id == u.id) (change u) db) (λ e v. v.db ≡ db) o
    → ((v : World) → Wrote change us (suc count) v.db.users (k v))
    → Wrote change (u ∷ us) count db.users (next_row count o k)
next_row-Wrote change u us count db (failed e w) k h rest fine = cc
next_row-Wrote change u us count db (done a w) k h rest fine =
    let (rows, n) = rest w fine in
    (rows ∙ ap (λ d. write_each change us d.users) h, omega (arith, n))

abbrev pub new_expire : Time → ℤ → ProxyUser → ProxyUser → ProxyUser
new_expire base n u v = set_expire (extended base n u.expire_time) v

pub extend_loop-Wrote :
    (base : Time) (n : ℤ) (us : List ProxyUser) (count : ℕ) (w : World)
    → Wrote (new_expire base n) us count w.db.users (extend_loop base n us count w)
unfolding extend_loop
extend_loop-Wrote base n [] count w fine = (refl, omega arith)
extend_loop-Wrote base n (u ∷ us) count w fine =
    next_row-Wrote (new_expire base n) u us count w.db _ _ (exec-Post _ w)
      (λ v. extend_loop-Wrote base n us (suc count) v) fine

abbrev pub new_limit : ℤ → ProxyUser → ProxyUser → ProxyUser
new_limit add u v = set_limit (int64 (u.traffic_limit +ℤ add)) v

-- A row whose quota is unlimited is passed over.
abbrev pub is_limited : ProxyUser → Bool
is_limited u = not (leb_ℤ u.traffic_limit (pos 0))

pub add_traffic_loop-Wrote :
    (add : ℤ) (us : List ProxyUser) (count : ℕ) (w : World)
    → Wrote
        (new_limit add)
        (filter is_limited us)
        count
        w.db.users
        (add_traffic_loop add us count w)
unfolding add_traffic_loop
add_traffic_loop-Wrote add [] count w = λ fine. (refl, omega arith)
add_traffic_loop-Wrote add (u ∷ us) count w = elim (Bool-cases (leb_ℤ u.traffic_limit (pos 0))) [
  | inl e ↦ rw e (add_traffic_loop-Wrote add us count w)
  | inr e ↦ rw e (
      next_row-Wrote (new_limit add) u (filter is_limited us) count w.db _ _ (exec-Post _ w)
        (λ v. add_traffic_loop-Wrote add us (suc count) v))
]

finish-error : (r : Report) → (finish r).error ≡ none → r.error ≡ none
unfolding finish
finish-error r h = go r.error refl h
  where
    go : (e : Option Error) → r.error ≡ e → (finish_with e r).error ≡ none → r.error ≡ none
    go none p q = p
    go (some e) p q = q

finish-none : (r : Report) → (finish r).error ≡ none → finish r ≡ finish_with none r
unfolding finish
finish-none r h = ap (λ e. finish_with e r) (finish-error r h)

finish-Wrote :
    (change : ProxyUser → ProxyUser → ProxyUser) (us : List ProxyUser) (count : ℕ)
    (rows : List ProxyUser) (r : Report)
    → Wrote change us count rows r
    → Wrote change us count rows (finish r)
finish-Wrote change us count rows r h fine =
    let (users, n) = h (finish-error r fine) in
    (
      ap (λ t. t.world.db.users) (finish-none r fine)
          ∙ ap (λ d. d.users) (schedule_credentials_sync-db r.world)
          ∙ users,
      ap (λ t. t.count) (finish-none r fine) ∙ n,
    )

-- The loop over the rows that were read, with the notification behind it.
pub with_rows-Wrote :
    (change : ProxyUser → ProxyUser → ProxyUser) (pick : List ProxyUser → List ProxyUser)
    (sel : ProxyUser → Bool) (db : Db) (o : Outcome (List ProxyUser))
    (k : List ProxyUser → World → Report)
    → Post (λ us v. (us ≡ users_where sel db) × (v.db ≡ db)) (λ e v. v.db ≡ db) o
    → ((us : List ProxyUser) (v : World) → Wrote change (pick us) 0 v.db.users (k us v))
    → Wrote change (pick (users_where sel db)) 0 db.users (with_rows o k)
with_rows-Wrote change pick sel db (failed e w) k h loop fine = cc
with_rows-Wrote change pick sel db (done us w) k h loop fine =
    let (users, n) = finish-Wrote change (pick us) 0 w.db.users (k us w) (loop us w) fine in
    (
      users
          ∙ ap (λ p. write_each change (pick p) w.db.users) h.0
          ∙ ap (λ d. write_each change (pick (users_where sel db)) d.users) h.1,
      n ∙ ap (λ p. 0 + length (pick p)) h.0,
    )
