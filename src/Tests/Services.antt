-- ===== src/Tests/Services.antt =====
-- Accounts and listeners that are created.
use m_ui.Base.{
  ℕ, ◌⊎◌, true, false, [], ◌∷◌, ◌++◌, Option, none, some, codes, text_eq, ◌≡◌, refl, any?, arith,
  trim_space, trim_left,
}
use m_ui.Base.Int.{pos}
use m_ui.Models.{Listener}
use m_ui.Store.{World, failed, username_exists}
use m_ui.Store.Laws.{Post}
use m_ui.User.Crud.{Outside, CreateInput, create, reclaim_soft_deleted_username}
use m_ui.User.Crud.Live.{live}
use m_ui.User.Crud.Created.{has_username, KeepsIdentity, create-live, create-taken}
use m_ui.Listener.Endpoint.{is_clash}
use m_ui.Listener.Service.Ports.{live_listeners, allocate_free_port}
use m_ui.Listener.Service.Ports as Free
use m_ui.Listener.Service.Create as Listeners
use m_ui.Listener.Service.Created.{create-Added}
use m_ui.Listener.Service.Free.{IsFreePort, allocate_free_port-IsFreePort}
use m_ui.Tests.Data.{alice, listener, panel, faulty, tables}

abbrev outside : Outside
outside = record {
  encrypt = λ p. some p;
  random_token = some (codes "random");
  new_uuid = some (codes "uuid");
  random_hex = some (codes "hex");
  decimal = λ n. codes "7";
  new_id = λ db. 3;
  fill_defaults = λ u. u;
}

abbrev keeps : KeepsIdentity (λ u. u)
keeps = record { same_name = λ u. refl; same_mark = λ u. refl }

abbrev request : CreateInput
request = record {
  username = codes " carol ";
  password = [];
  uuid = [];
  traffic_limit = pos 0;
  ip_limit = pos 0;
  hwid_limit = pos 0;
  remark = [];
  group = [];
  tags = [];
  traffic_reset_days = pos 0;
  expire_renew_days = pos 0;
  start_on_first_use = false;
  expire_days_after_first = pos 0;
  external_links = [];
  expire_time = none;
  enabled = none;
  telegram_id = pos 0;
  telegram_name = [];
}

-- A deleted account still holds the name.
abbrev reused : World
reused = record faulty {
  db = record tables {
    users = record alice { id = 9; deleted = true; username = codes "carol" } ∷ tables.users;
  };
}

create-live_example :
    Post
      (λ u v.
        ((live v.db ≡ live reused.db ++ u ∷ []) × (u.username ≡ trim_space (codes " carol ")))
        × (any? (has_username (trim_space (codes " carol "))) (live reused.db) ≡ false))
      (λ e v. live v.db ≡ live reused.db)
      (create outside request reused)
    × ((trim_space (codes " carol ") ≡ [])
        ⊎ Post
            (λ _ v. any? (has_username (trim_space (codes " carol "))) v.db.users ≡ false)
            (λ e v. Unit {0})
            (reclaim_soft_deleted_username outside (trim_space (codes " carol ")) 0 reused))
create-live_example = create-live outside keeps request reused (refl, tt)

create-taken_example :
    create outside (record request { username = codes "alice" }) panel
    ≡ failed username_exists panel
unfolding trim_space trim_left
create-taken_example =
    create-taken outside (record request { username = codes "alice" }) panel refl refl refl

abbrev elsewhere : Free.Outside
elsewhere = record {
  parse_ip = λ s. none;
  decimal = λ n. codes "12345";
  stamp = [];
  new_id = λ db. 3;
  prepare = λ l. some l;
  marshal = λ l. [];
  unmarshal = λ s. none;
}

abbrev zeros : ℕ → ℕ → Option ℕ
zeros k i = some 0

abbrev fresh : Listener
fresh = record listener { id = 0; name = codes "new"; port = [] }

create-Added_example :
    Post
      (λ x v.
        (live_listeners v.db ≡ live_listeners faulty.db ++ x ∷ [])
        × (any? (is_clash elsewhere.parse_ip x) (live_listeners faulty.db) ≡ false))
      (λ e v. live_listeners v.db ≡ live_listeners faulty.db)
      (Listeners.create elsewhere zeros fresh faulty)
create-Added_example =
    create-Added elsewhere (λ l m e. ((cc), (cc))) zeros fresh faulty refl refl (refl, (refl, tt))

allocate_free_port-IsFreePort_example :
    Post
      (λ p v. IsFreePort [] (live_listeners panel.db) p × (v.db ≡ panel.db))
      (λ e v. v.db ≡ panel.db)
      (allocate_free_port (zeros 0) [] panel)
allocate_free_port-IsFreePort_example =
    allocate_free_port-IsFreePort (zeros 0) [] panel (λ i. omega arith)
