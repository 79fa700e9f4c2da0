-- ===== src/User/Reload.antt =====
-- The debounced reload of `user.Service` (backend/internal/user/service.go): a change of a user
-- starts the timer anew, and its callback runs the handler at most once for all the changes since.
use m_ui.Base.{Bool, true, false, ◌&&◌, List, [], ◌∷◌, ◌≡◌, refl, if◌then◌else◌, arith}
use m_ui.Store.{World, M, done}

-- `SetCredentialsChangedHandler`.
unfoldable pub set_credentials_changed_handler : World → World
set_credentials_changed_handler w = record w { reload_handler = true }

-- `scheduleCredentialsSync`; the timer is abstracted by the flag that its callback reads.
unfoldable pub schedule_credentials_sync : World → World
schedule_credentials_sync w = if w.reload_handler then record w { reload_pending = true } else w

pub schedule_credentials_sync-db : (w : World) → (schedule_credentials_sync w).db ≡ w.db
unfolding schedule_credentials_sync
schedule_credentials_sync-db w = ground arith

-- `notifyCredentialsChanged` never fails.
unfoldable pub notify_credentials_changed : M (Unit {0})
unfolding schedule_credentials_sync
notify_credentials_changed w = done tt (schedule_credentials_sync w)

-- The timer's callback. The result says whether the handler was called.
unfoldable pub run_credentials_sync : World → World × Bool
run_credentials_sync w = (record w { reload_pending = false }, w.reload_pending && w.reload_handler)

-- A change of a user, or an expiry of the timer.
pub data Event : Type 0 where
  change : Event
  timer : Event

-- The calls of the handler over a history of changes and timer expiries.
pub reloads : World → List Event → List Bool
reloads w [] = []
reloads w (change ∷ es) = reloads (schedule_credentials_sync w) es
reloads w (timer ∷ es) = let (w', called) = run_credentials_sync w in called ∷ reloads w' es

-- Since the last expiry of the timer there was a change.
abbrev changed : Bool → List Event → List Bool
changed pending [] = []
changed pending (change ∷ es) = changed true es
changed pending (timer ∷ es) = pending ∷ changed false es

-- With a handler set, an expiry of the timer calls it exactly when some change came since the
-- expiry before: no change is lost, and changes between two expiries collapse into one reload.
pub reloads-changed :
    (w : World) (es : List Event)
    → w.reload_handler ≡ true
    → reloads w es ≡ changed w.reload_pending es
unfolding reloads schedule_credentials_sync run_credentials_sync
reloads-changed w [] h = refl
reloads-changed w (change ∷ es) h =
    ground (arith, reloads-changed (record w { reload_pending = true }) es h)
reloads-changed w (timer ∷ es) h =
    ground (arith, reloads-changed (record w { reload_pending = false }) es h)
