-- ===== src/User/Bind.antt =====
-- `BindListeners` (backend/internal/user/service_bind.go): in one transaction, a user's bindings
-- are replaced by the requested ones. A binding is known by its unique pair of ids; removing one
-- marks its row, and adding it again clears the mark.
pub mod Rows
pub mod Success
pub mod Correct
use m_ui.Base.{
  ℕ, Bool, true, false, not, ◌&&◌, ◌||◌, List, [], ◌∷◌, ◌++◌, Option, none, some, ◌≡◌, refl,
  if◌then◌else◌, arith, ◌==◌, nat_eq, nat_beq_iff, contains, length, filter, find?, map_where, any?,
  any?-append, Bool-cases,
}
use m_ui.Models.{Db, ListenerUser, Listener}
use m_ui.Store.{
  World, Outcome, done, failed, M, bind, ◌>>=◌, ◌>>◌, return, fail, select, exec, first,
  transaction, Error, db_error, unknown_listener,
}
use m_ui.Store.Laws.{
  Post, Post-bind, Post-mono, select-Post, exec-Post, first-Post, transaction-Post,
}
use m_ui.Table.{find_user}
use m_ui.User.Ids.{distinct_ids, distinct_ids_lem}
use m_ui.User.Reload.{notify_credentials_changed}

abbrev pub is_pair : ℕ → ℕ → ListenerUser → Bool
is_pair user listener b = b.listener_id == listener && b.proxy_user_id == user

-- `Unscoped()`: rows marked as deleted are found too.
abbrev find_binding : ℕ → ℕ → Db → Option ListenerUser
find_binding user listener db = find? (is_pair user listener) db.bindings

abbrev update_bindings : (ListenerUser → Bool) → (ListenerUser → ListenerUser) → Db → Db
update_bindings p f db = record db { bindings = map_where p f db.bindings }

abbrev mark : Bool → ListenerUser → ListenerUser
mark b r = record r { deleted = b }

unfoldable pub restore_binding : ℕ → ℕ → Db → Db
restore_binding user listener = update_bindings (is_pair user listener) (mark false)

unfoldable pub add_binding : ℕ → ℕ → Db → Db
add_binding user listener db = record db {
  bindings =
      db.bindings ++ record { deleted = false; listener_id = listener; proxy_user_id = user } ∷ [];
}

-- `tx.Create`: the unique index on the pair counts rows marked as deleted too.
unfoldable pub create_binding : ℕ → ℕ → M (Unit {0})
create_binding user listener w =
    if any? (is_pair user listener) w.db.bindings
    then fail db_error w
    else exec (add_binding user listener) w

unfoldable pub count_listeners : List ℕ → Db → ℕ
count_listeners ids db = length (filter (λ l. not l.deleted && contains ids l.id) db.listeners)

-- Removes the live bindings of the user that are not desired.
unfoldable pub remove_bindings : ℕ → List ℕ → Db → Db
remove_bindings user desired =
    update_bindings
      (λ b. not b.deleted && (b.proxy_user_id == user && not (contains desired b.listener_id)))
      (mark true)

-- One round of the loop over the desired ids.
unfoldable pub bind_found : ℕ → ℕ → Option ListenerUser → M (Unit {0})
unfolding create_binding
bind_found user listener (some b) =
    if b.deleted then exec (restore_binding user listener) else return tt
bind_found user listener none = create_binding user listener

unfoldable pub bind_one : ℕ → ℕ → M (Unit {0})
unfolding bind_found
bind_one user listener = select (find_binding user listener) >>= bind_found user listener

unfoldable pub bind_loop : ℕ → List ℕ → M (Unit {0})
bind_loop user [] = return tt
bind_loop user (listener ∷ rest) = bind_one user listener >> bind_loop user rest

abbrev check_count : List ℕ → ℕ → M (Unit {0})
check_count desired count = if count == length desired then return tt else fail unknown_listener

abbrev clear_bindings : ℕ → List ℕ → M (Unit {0})
clear_bindings user [] = exec (remove_bindings user [])
clear_bindings user (d ∷ ds) =
    (select (count_listeners (d ∷ ds)) >>= check_count (d ∷ ds))
    >> exec (remove_bindings user (d ∷ ds))

abbrev replace_bindings : ℕ → List ℕ → M (Unit {0})
replace_bindings user desired = clear_bindings user desired >> bind_loop user desired

unfoldable pub bind_listeners : ℕ → List ℕ → M (Unit {0})
bind_listeners user ids =
    transaction (first (find_user user) >>= λ _. replace_bindings user (distinct_ids ids))
    >> notify_credentials_changed

-- Whether the user is bound to the listener.
unfoldable pub is_bound : ℕ → ℕ → Db → Bool
is_bound user listener db = any? (λ b. not b.deleted && is_pair user listener b) db.bindings
