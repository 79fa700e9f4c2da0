-- ===== src/Tests/Traffic.antt =====
-- A cycle of the collector, and the enforcer.
use mathlib.Core.Option
use m_ui.Base.{
  text_eq, ℕ, ◌*◌, ◌/◌, true, false, List, [], ◌∷◌, none, some, ◌≡◌, ◌≢◌, ◌↔◌, ◌⊎◌, refl, nat_eq,
  contains, arith, codes, Text,
}
use m_ui.Base.Int.{pos, pos_part}
use m_ui.Base.Dict.{lookup}
use m_ui.Store.{World, done}
use m_ui.Store.Laws.{Post}
use m_ui.Table.{users_where}
use m_ui.Traffic.Rate.{Division, Service}
use m_ui.Traffic.Collector.{
  Connection, ConnSample, Tables, attribute, user_named, metadata_of, listener_of,
}
use m_ui.Traffic.Collector.Accounting.{any_pair, attribute_evidence}
use m_ui.Traffic.Collector.Once.{
  Answer, Collector, OnlineOnly, names_to_ids, users_by_listener, collect_once, tables_of,
  collect_once-online,
}
use m_ui.Traffic.Collector.Credit.{uploaded, downloaded}
use m_ui.Traffic.Collector.Runs.{counters_of}
use m_ui.Traffic.Collector.Cycles.{grown, last_reading, collect_once-credits}
use m_ui.Traffic.Enforcer.{Enforcer, check_and_enforce}
use m_ui.Traffic.Enforcer.Changes.{is_blocked, check_and_enforce_lem}
use m_ui.Tests.Data.{panel, faulty}

-- A division of whole numbers.
abbrev whole : Division
whole = record {
  rate = λ delta nanos. pos (pos_part delta * 1000000000 / pos_part nanos);
  rate_nonneg = λ delta nanos h k. omega arith;
}

abbrev service : Service
service = record {
  last = record {
    upload_bytes = pos 100;
    download_bytes = pos 200;
    upload_rate = pos 0;
    download_rate = pos 0;
    connections = 1;
  };
  last_time = pos 5;
}

-- Carries no user name; it came in by the first listener.
abbrev plain : Connection
plain = record {
  id = codes "c1";
  upload = pos 30;
  download = pos 70;
  metadata = some (record {
    network = [];
    host = [];
    source_ip = [];
    destination_ip = [];
    destination_port = [];
    inbound_name = codes "in";
    inbound_user = [];
  });
  network = [];
  rule = [];
  chains = [];
  start = [];
}

abbrev known : Tables
known = record {
  listener_ids = (codes "in", 7) ∷ [];
  listener_users = (7, 1 ∷ []) ∷ [];
  usernames = (1, codes "alice") ∷ [];
}

abbrev prev : List (Text × ConnSample)
prev = (codes "c1", record { upload = pos 10; download = pos 90 }) ∷ []

abbrev answer : Answer
answer = record { upload_total = pos 30; download_total = pos 70; connections = plain ∷ [] }

abbrev collector : Collector
collector = record {
  prev_conn = prev;
  last_connections = [];
  last_listener_name = [];
  svc = service;
}

collect_once-credits_example :
    (c' : Collector) × (v : World) × (collect_once whole (pos 9) (some answer) none collector panel
      ≡ done c' v)
    × (counters_of 1 v.db
        ≡ Option.map
            (grown
              (uploaded (tables_of panel.db) prev 1 (plain ∷ []))
              (downloaded (tables_of panel.db) prev 1 (plain ∷ [])))
            (counters_of 1 panel.db))
    × (lookup (codes "c1") c'.prev_conn ≡ last_reading (codes "c1") none (plain ∷ []))
unfolding attribute user_named names_to_ids users_by_listener
collect_once-credits_example =
    collect_once-credits whole (pos 9) answer none collector panel 1 (codes "c1") refl
      ((((refl, omega arith), (refl, omega arith)), ((refl, omega arith), (refl, omega arith))), tt)
      (omega arith)

attribute_evidence_example :
    (((metadata_of plain.metadata).inbound_user ≢ [])
      × (any_pair 1 (metadata_of plain.metadata).inbound_user known.usernames ≡ true))
    ⊎ (((metadata_of plain.metadata).inbound_user ≡ [])
        × ((l : ℕ) × (listener_of known plain.metadata ≡ some l)
            × (lookup l known.listener_users ≡ some (1 ∷ []))))
unfolding attribute
attribute_evidence_example = attribute_evidence known plain 1 refl

collect_once-online_example :
    Post
      (λ _ v. OnlineOnly (tables_of faulty.db) (plain ∷ []) v)
      (λ e v. Unit {0})
      (collect_once whole (pos 9) (some answer) none collector faulty)
collect_once-online_example = collect_once-online whole (pos 9) answer none collector faulty

abbrev enforcer : Enforcer
enforcer = record { last_blocked = 1 ∷ [] }

check_and_enforce_lem_example :
    ((check_and_enforce (pos 5) (some true) enforcer panel).0.regenerated ≡ false)
    ↔ ((x : ℕ) → contains (1 ∷ []) x ≡ is_blocked (pos 5) (users_where (λ _. true) panel.db) x)
check_and_enforce_lem_example = check_and_enforce_lem (pos 5) true enforcer panel refl (refl, tt)
