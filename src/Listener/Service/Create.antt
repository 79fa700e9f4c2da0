-- ===== src/Listener/Service/Create.antt =====
-- `Create`, `QuickCreate` and `SaveVersion`. `draw k` gives the random numbers of the k-th call of
-- `allocateFreePort`.
use m_ui.Base.{
  ℕ, zero, suc, ◌+◌, Bool, true, false, not, ◌&&◌, ◌||◌, List, [], ◌∷◌, ◌++◌, Option, none, some,
  Text, codes, ◌==◌, nat_eq, text_eq, if◌then◌else◌, filter, find?, any?, length, trim_space,
}
use m_ui.Base.Int.{ℤ, pos, negsuc}
use m_ui.Models.{Db, Listener}
use m_ui.Store.{
  World, done, M, ◌>>=◌, ◌>>◌, return, fail, select, exec, first, ignore, Error, name_exists,
  endpoint_conflict, invalid_listener,
}
use m_ui.Listener.Ports.{atoi}
use m_ui.Listener.Service.Ports.{
  Outside, on_failure, ensure_unique_name, ensure_endpoint_available, allocate_free_port,
}

abbrev pub find_listener : ℕ → Db → Option Listener
find_listener id db = find? (λ l. not l.deleted && l.id == id) db.listeners

-- `s.applyPending = true`; the timer is abstracted by this flag, which its callback reads.
unfoldable pub schedule_config_apply : M (Unit {0})
schedule_config_apply w = done tt (record w { apply_pending = true })

-- The timer's callback. The result says whether it generated and applied the configuration.
unfoldable pub flush_config_apply : World → World × Bool
flush_config_apply w = (record w { apply_pending = false }, w.apply_pending)

abbrev pub or_invalid : Option Listener → M Listener
or_invalid none = fail invalid_listener
or_invalid (some l) = return l

abbrev pub with_port : Text → Listener → Listener
with_port p l = record l { port = p }

-- `if cur, e := strconv.Atoi(…); e == nil && cur > 0 { tried = append(tried, cur) }`.
abbrev pub positive_port : Option ℤ → List ℕ
positive_port none = []
positive_port (some (negsuc n)) = []
positive_port (some (pos zero)) = []
positive_port (some (pos (suc n))) = suc n ∷ []

abbrev pub drawn_or {ℓ} : {A : Type ℓ} → M A → (ℕ → M A) → Option ℕ → M A
drawn_or m f none = m
drawn_or m f (some p) = f p

abbrev pub is_conflict : Error → Bool
is_conflict endpoint_conflict = true
is_conflict _ = false

abbrev pub is_name_taken : Error → Bool
is_name_taken name_exists = true
is_name_taken _ = false

-- `port == "" || port == "0"`.
abbrev pub wants_port : Listener → Bool
wants_port l = trim_space l.port == [] || trim_space l.port == codes "0"

module _ (o : Outside) where
  unfoldable pub save_version : ℕ → M (Unit {0})
  save_version id = first (find_listener id) >>= λ l.
      select (λ db. length (filter (λ v. v.listener_id == id) db.versions)) >>= λ count. exec (λ db.
        record db {
          versions =
              db.versions
              ++ record { listener_id = id; version = count + 1; snapshot = o.marshal l } ∷ [];
        })

  -- `db.Create(l)`, which the unique index on the name may refuse.
  unfoldable pub insert_listener : Listener → M Listener
  insert_listener l w =
      let new = record l { id = o.new_id w.db } in
      if any? (λ v. v.name == l.name) w.db.listeners
      then fail name_exists w
      else (exec (λ db. record db { listeners = db.listeners ++ new ∷ [] }) >> return new) w

  unfoldable pub store_listener : Listener → M Listener
  unfolding ensure_unique_name insert_listener
  store_listener l = on_failure (insert_listener l) (λ e.
      if is_name_taken e
      then ignore (ensure_unique_name o l)
        >> on_failure (insert_listener l) (λ e'. fail name_exists)
      else fail e)

module _ (o : Outside) (draw : ℕ → ℕ → Option ℕ) where
  -- The loop that tries other ports; `last` is the last error of the endpoint's check.
  unfoldable pub retry_port : ℕ → ℕ → List ℕ → Error → Listener → M Listener
  unfolding ensure_endpoint_available allocate_free_port
  retry_port zero k tried last l = fail last
  retry_port (suc attempts) k tried last l =
      on_failure (allocate_free_port (draw k) tried >>= λ p. return (some p)) (λ e. return none)
      >>= drawn_or (fail last) (λ p.
        let moved = with_port (o.decimal p) l in
        on_failure (ensure_endpoint_available o moved >> return moved) (λ e.
          retry_port attempts (suc k) (tried ++ p ∷ positive_port (atoi (trim_space (o.decimal p))))
            e moved))

  unfoldable pub settle_endpoint : Bool → Listener → M Listener
  unfolding ensure_endpoint_available retry_port
  settle_endpoint auto_port l = on_failure (ensure_endpoint_available o l >> return l) (λ e.
      if auto_port || is_conflict e
      then retry_port 8 1 (positive_port (atoi (trim_space l.port))) e l
      else fail e)

  abbrev pub choose_port : Listener → M Listener
  choose_port l =
      if wants_port l
      then (allocate_free_port (draw 0) [] >>= λ p. return (with_port (o.decimal p) l))
      else return l

  unfoldable pub create : Listener → M Listener
  unfolding allocate_free_port settle_endpoint store_listener save_version schedule_config_apply
  create l = choose_port l >>= λ ported. or_invalid (o.prepare ported) >>= λ ready.
      settle_endpoint (wants_port l) ready >>= λ placed. store_listener o placed >>= λ stored.
      (ignore (save_version o stored.id) >> schedule_config_apply) >> return stored
