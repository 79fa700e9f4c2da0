-- ===== src/User/Batch.antt =====
-- `Batch` (backend/internal/user/service_batch.go): one operation over the ids of a request. The
-- result is the count and the error that Go returns together, and the world after the call.
pub mod Loops
pub mod Extend
use m_ui.Base.{
  ℕ, suc, Bool, true, false, not, ◌&&◌, ◌||◌, List, [], ◌∷◌, Option, none, some, if◌then◌else◌,
  ◌==◌, nat_eq, contains, length, filter, Text, int64,
}
use m_ui.Base.Int.{ℤ, pos, ◌+ℤ◌, ◌*ℤ◌, leb_ℤ, ltb_ℤ}
use m_ui.Clock.{Time, is_zero, is_before, days}
use m_ui.Models.{Db, ProxyUser, ListenerUser}
use m_ui.Store.{
  World, Outcome, done, failed, M, ◌>>=◌, ◌>>◌, bind, return, select, exec, transaction, Error,
  db_error, ids_required, unknown_action, days_not_positive, traffic_not_positive,
}
use m_ui.Table.{update_users, users_where}
use m_ui.User.Ids.{clean_ids}
use m_ui.User.Reload.{schedule_credentials_sync}

pub data BatchAction : Type 0 where
  batch_enable : BatchAction
  batch_disable : BatchAction
  batch_reset_traffic : BatchAction
  batch_delete : BatchAction
  batch_extend_days : BatchAction
  batch_add_traffic : BatchAction
  unknown : Text → BatchAction

pub record BatchOpts : Type 0 where
  pub days : ℤ
  pub traffic_gb : ℤ

pub record Report : Type 0 where
  pub count : ℕ
  pub error : Option Error
  pub world : World

abbrev refuse : Error → World → Report
refuse e w = record { count = 0; error = some e; world = w }

-- A statement with its RowsAffected, then the notification.
abbrev report : Outcome ℕ → Report
report (done n w) = record { count = n; error = none; world = schedule_credentials_sync w }
report (failed e w) = refuse e w

abbrev in_ids : List ℕ → ProxyUser → Bool
in_ids ids u = contains ids u.id

-- `UPDATE … WHERE id IN ?` and the number of rows that it matched.
unfoldable pub update_rows : (ProxyUser → Bool) → (ProxyUser → ProxyUser) → M ℕ
update_rows p f w = bind (exec (update_users p f) w) (λ _ v. done (length (users_where p w.db)) v)

unfoldable pub reset_counters : ProxyUser → ProxyUser
reset_counters u = record u { traffic_used = pos 0; upload_bytes = pos 0; download_bytes = pos 0 }

-- `Unscoped().Delete`: the rows go, marked or not.
unfoldable pub delete_bindings_of : (ℕ → Bool) → Db → Db
delete_bindings_of p db = record db { bindings = filter (λ b. not (p b.proxy_user_id)) db.bindings }

unfoldable pub delete_users : (ℕ → Bool) → Db → Db
delete_users p db = record db { users = filter (λ u. not (p u.id)) db.users }

unfoldable pub delete_users_and_bindings : (ℕ → Bool) → M (Unit {0})
delete_users_and_bindings p = transaction (exec (delete_bindings_of p) >> exec (delete_users p))

-- The new expiry: from the later of now and an expiry that is set.
unfoldable pub extended : Time → ℤ → Time → Time
extended base n expire =
    (if not (is_zero expire) && is_before base expire then expire else base) +ℤ days n

abbrev set_expire : Time → ProxyUser → ProxyUser
set_expire t v = record v { expire_time = t }

-- What follows a statement in a loop that counts its rows: an error ends the loop with the count.
abbrev next_row : ℕ → Outcome (Unit {0}) → (World → Report) → Report
next_row n (done a w) k = k w
next_row n (failed e w) k = record { count = n; error = some e; world = w }

unfoldable pub extend_loop : Time → ℤ → List ProxyUser → ℕ → World → Report
extend_loop base n [] count w = record { count = count; error = none; world = w }
extend_loop base n (u ∷ us) count w =
    next_row count
      (exec (update_users (λ v. v.id == u.id) (set_expire (extended base n u.expire_time))) w)
      (λ v. extend_loop base n us (suc count) v)

-- `opts.TrafficGB * 1024 * 1024 * 1024`.
unfoldable pub gibibytes : ℤ → ℤ
gibibytes n = int64 (int64 (int64 (n *ℤ pos 1024) *ℤ pos 1024) *ℤ pos 1024)

abbrev set_limit : ℤ → ProxyUser → ProxyUser
set_limit l v = record v { traffic_limit = l }

unfoldable pub add_traffic_loop : ℤ → List ProxyUser → ℕ → World → Report
add_traffic_loop add [] count w = record { count = count; error = none; world = w }
add_traffic_loop add (u ∷ us) count w =
    let skip = add_traffic_loop add us count w in
    let write =
      next_row count
        (exec (update_users (λ v. v.id == u.id) (set_limit (int64 (u.traffic_limit +ℤ add)))) w)
        (λ v. add_traffic_loop add us (suc count) v) in
    if leb_ℤ u.traffic_limit (pos 0) then skip else write

-- A loop that got through schedules the reload.
abbrev finish_with : Option Error → Report → Report
finish_with none r = record r { world = schedule_credentials_sync r.world }
finish_with (some e) r = r

unfoldable pub finish : Report → Report
finish r = finish_with r.error r

abbrev with_rows : Outcome (List ProxyUser) → (List ProxyUser → World → Report) → Report
with_rows (done us w) k = finish (k us w)
with_rows (failed e w) k = refuse e w

unfoldable pub batch_clean : Time → BatchAction → List ℕ → BatchOpts → World → Report
batch_clean now batch_enable ids opts w =
    report (update_rows (in_ids ids) (λ u. record u { enabled = true }) w)
batch_clean now batch_disable ids opts w =
    report (update_rows (in_ids ids) (λ u. record u { enabled = false }) w)
batch_clean now batch_reset_traffic ids opts w = report (update_rows (in_ids ids) reset_counters w)
batch_clean now batch_delete ids opts w =
    report (bind (delete_users_and_bindings (contains ids) w) (λ _ v. done (length ids) v))
batch_clean now batch_extend_days ids opts w =
    if leb_ℤ opts.days (pos 0)
    then refuse days_not_positive w
    else with_rows (select (users_where (in_ids ids)) w) (λ us v. extend_loop now opts.days us 0 v)
batch_clean now batch_add_traffic ids opts w =
    if leb_ℤ opts.traffic_gb (pos 0)
    then refuse traffic_not_positive w
    else with_rows (select (users_where (in_ids ids)) w)
        (λ us v. add_traffic_loop (gibibytes opts.traffic_gb) us 0 v)
batch_clean now (unknown name) ids opts w = refuse unknown_action w

abbrev with_ids : List ℕ → (List ℕ → World → Report) → World → Report
with_ids [] k w = refuse ids_required w
with_ids (i ∷ ids) k w = k (i ∷ ids) w

unfoldable pub batch : Time → BatchAction → List ℕ → BatchOpts → World → Report
batch now action ids opts w =
    with_ids (clean_ids ids) (λ clean v. batch_clean now action clean opts v) w
