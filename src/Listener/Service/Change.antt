-- ===== src/Listener/Service/Change.antt =====
-- `Update`, `Delete`, `Clone` and `BatchSetEnabled`.
use m_ui.Base.{
  ℕ, true, false, not, ◌&&◌, List, [], ◌++◌, Option, none, some, Text, codes, ◌==◌, nat_eq, text_eq,
  if◌then◌else◌, any?, map_where, trim_space,
}
use m_ui.Models.{Db, Listener}
use m_ui.Store.{
  M, ◌>>=◌, ◌>>◌, return, fail, select, exec, first, ignore, db_error, is_not_found, name_exists,
  name_required,
}
use m_ui.Listener.Service.Ports.{
  Outside, on_failure, live_listeners, update_listeners, ensure_endpoint_available,
}
use m_ui.Listener.Service.Create.{
  find_listener, save_version, schedule_config_apply, insert_listener, or_invalid,
}

unfoldable pub get_all : M (List Listener)
get_all = select live_listeners

unfoldable pub get_by_id : ℕ → M Listener
get_by_id id = first (find_listener id)

module _ (o : Outside) where
  -- `db.Save(l)`, which the unique index on the name may refuse.
  unfoldable pub save_listener : Listener → M (Unit {0})
  save_listener l w =
      if any? (λ v. not (v.id == l.id) && v.name == l.name) w.db.listeners
      then fail name_exists w
      else exec (update_listeners (λ v. not v.deleted && v.id == l.id) (λ _. l)) w

  unfoldable pub update : Listener → M (Unit {0})
  unfolding ensure_endpoint_available save_version save_listener schedule_config_apply
  update l = or_invalid (o.prepare l) >>= λ ready. first (find_listener ready.id) >>= λ previous.
      ((ensure_endpoint_available o ready >> save_version o previous.id) >> save_listener ready)
      >> schedule_config_apply

  -- `Model(&models.Listener{}).Where("id = ?", id).Update("name", name)`.
  unfoldable pub rename : ℕ → Text → M (Unit {0})
  rename id name w =
      if any? (λ v. not (v.id == id) && v.name == name) w.db.listeners
      then fail db_error w
      else exec
          (update_listeners (λ v. not v.deleted && v.id == id) (λ v. record v { name = name })) w

  abbrev drop_bindings : ℕ → Db → Db
  drop_bindings id db = record db {
    bindings = map_where (λ b. b.listener_id == id) (λ b. record b { deleted = true }) db.bindings;
  }

  abbrev drop_listener : ℕ → Db → Db
  drop_listener id = update_listeners (λ v. v.id == id) (λ v. record v { deleted = true })

  -- Past the reading of the row: a failure from here on puts the name back.
  unfoldable pub delete_found : ℕ → Listener → M (Unit {0})
  unfolding save_version rename schedule_config_apply
  delete_found id previous =
      (((save_version o id >> rename id (previous.name ++ (codes "__deleted_" ++ o.decimal id)))
          >> on_failure (exec (drop_bindings id)) (λ e. ignore (rename id previous.name) >> fail e))
        >> on_failure (exec (drop_listener id)) (λ e. ignore (rename id previous.name) >> fail e))
      >> schedule_config_apply

  abbrev pub if_found : (Listener → M (Unit {0})) → Option Listener → M (Unit {0})
  if_found f none = return tt
  if_found f (some l) = f l

  -- A listener that is gone already is no error.
  unfoldable pub delete : ℕ → M (Unit {0})
  unfolding delete_found
  delete id =
      on_failure (first (find_listener id) >>= λ l. return (some l))
        (λ e. if is_not_found e then return none else fail e)
      >>= if_found (delete_found id)

  abbrev pub copied : Text → Text → Listener → Listener
  copied name port src = record src {
    id = 0;
    deleted = false;
    name = name;
    port = if trim_space port == [] then src.port else trim_space port;
  }

  unfoldable pub clone : ℕ → Text → Text → M Listener
  unfolding ensure_endpoint_available insert_listener save_version schedule_config_apply
  clone id name port = first (find_listener id) >>= λ src.
      if trim_space name == []
      then fail name_required
      else or_invalid (o.prepare (copied (trim_space name) port src)) >>= λ ready.
          ensure_endpoint_available o ready
          >> (insert_listener o ready >>= λ stored.
              (ignore (save_version o stored.id) >> schedule_config_apply) >> return stored)
