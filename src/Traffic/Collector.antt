-- ===== src/Traffic/Collector.antt =====
-- `Collector` (backend/internal/traffic/collector.go): one cycle turns the core's connection list
-- into per-user samples, the connection views and the samples kept for the next cycle. A Go map is
-- an association list; the order in which Go walks one is the order of that list.
pub mod Once
pub mod Accounting
pub mod Credit
pub mod Runs
pub mod Stored
pub mod Cycles
use m_ui.Base.{
  ℕ, suc, Bool, true, false, not, ◌&&◌, ◌||◌, List, [], ◌∷◌, ◌++◌, Option, none, some, ◌≡◌, refl,
  if◌then◌else◌, ◌==◌, nat_eq, text_eq, contains, Text, int64,
}
use m_ui.Base.Int.{ℤ, pos, ◌+ℤ◌, ◌-ℤ◌, ltb_ℤ}
use m_ui.Base.Dict.{lookup, insert}

-- The core's answer, as its API types give it.
pub record Metadata : Type 0 where
  pub network : Text
  pub host : Text
  pub source_ip : Text
  pub destination_ip : Text
  pub destination_port : Text
  pub inbound_name : Text
  pub inbound_user : Text

pub record Connection : Type 0 where
  pub id : Text
  pub upload : ℤ
  pub download : ℤ
  pub metadata : Option Metadata
  pub network : Text
  pub rule : Text
  pub chains : List Text
  pub start : Text

pub record ConnSample : Type 0 where
  pub upload : ℤ
  pub download : ℤ

pub record ConnectionView : Type 0 where
  pub id : Text
  pub listener_id : Option ℕ
  pub listener_name : Text
  pub proxy_user_id : Option ℕ
  pub username : Text
  pub network : Text
  pub host : Text
  pub source_ip : Text
  pub destination_ip : Text
  pub destination_port : Text
  pub upload : ℤ
  pub download : ℤ
  pub rule : Text
  pub chains : List Text
  pub start : Text

-- The tables that a cycle reads.
pub record Tables : Type 0 where
  pub listener_ids : List (Text × ℕ)
  pub listener_users : List (ℕ × List ℕ)
  pub usernames : List (ℕ × Text)

-- What the loop over the connections builds.
pub record Cycle : Type 0 where
  pub next_prev : List (Text × ConnSample)
  pub views : List ConnectionView
  pub user_deltas : List (ℕ × ConnSample)
  pub active : List ℕ

abbrev pub no_sample : ConnSample
no_sample = record { upload = pos 0; download = pos 0 }

-- A map's zero value on a missing key.
abbrev pub or_zero : Option ConnSample → ConnSample
or_zero none = no_sample
or_zero (some s) = s

abbrev or_empty : Option Text → Text
or_empty none = []
or_empty (some t) = t

-- The bytes since the last cycle; a counter that fell has been reset.
unfoldable pub delta : ℤ → ℤ → ℤ
delta counter prev = let d = int64 (counter -ℤ prev) in if ltb_ℤ d (pos 0) then counter else d

abbrev no_metadata : Metadata
no_metadata = record {
  network = [];
  host = [];
  source_ip = [];
  destination_ip = [];
  destination_port = [];
  inbound_name = [];
  inbound_user = [];
}

abbrev pub metadata_of : Option Metadata → Metadata
metadata_of none = no_metadata
metadata_of (some m) = m

-- The listener that the core names, if the panel knows it.
abbrev pub listener_of : Tables → Option Metadata → Option ℕ
listener_of t none = none
listener_of t (some m) = lookup m.inbound_name t.listener_ids

unfoldable pub user_named : Text → List (ℕ × Text) → Option ℕ
user_named name [] = none
user_named name ((id, n) ∷ rest) = if n == name then some id else user_named name rest

abbrev pub sole : Option (List ℕ) → Option ℕ
sole (some (id ∷ [])) = some id
sole _ = none

abbrev pub sole_user : Tables → Option ℕ → Option ℕ
sole_user t none = none
sole_user t (some listener) = sole (lookup listener t.listener_users)

-- The account of a connection: the user that the core authenticated, or the only user bound to
-- its listener.
unfoldable pub attribute : Tables → Connection → Option ℕ
attribute t c =
    let user = (metadata_of c.metadata).inbound_user in
    if user == [] then sole_user t (listener_of t c.metadata) else user_named user t.usernames

abbrev name_of_listener : Option ℕ → Text → Text
name_of_listener none name = []
name_of_listener (some id) name = name

abbrev username_of : Tables → Option ℕ → Text
username_of t none = []
username_of t (some id) = or_empty (lookup id t.usernames)

unfoldable pub view_of : Tables → Connection → ConnectionView
view_of t c =
    let m = metadata_of c.metadata in
    let user = attribute t c in
    record {
      id = c.id;
      listener_id = listener_of t c.metadata;
      listener_name = name_of_listener (listener_of t c.metadata) m.inbound_name;
      proxy_user_id = user;
      username = username_of t user;
      network = if m.network == [] then c.network else m.network;
      host = m.host;
      source_ip = m.source_ip;
      destination_ip = m.destination_ip;
      destination_port = m.destination_port;
      upload = c.upload;
      download = c.download;
      rule = c.rule;
      chains = c.chains;
      start = c.start;
    }

abbrev pub add_delta : ConnSample → ℤ → ℤ → ConnSample
add_delta s up down = record {
  upload = int64 (s.upload +ℤ up);
  download = int64 (s.download +ℤ down);
}

abbrev pub credit : Option ℕ → ℤ → ℤ → Cycle → Cycle
credit none up down s = s
credit (some id) up down s = record s {
  user_deltas = insert id (add_delta (or_zero (lookup id s.user_deltas)) up down) s.user_deltas;
  active = if contains s.active id then s.active else s.active ++ id ∷ [];
}

abbrev pub up_delta : List (Text × ConnSample) → Connection → ℤ
up_delta prev c = delta c.upload (or_zero (lookup c.id prev)).upload

abbrev pub down_delta : List (Text × ConnSample) → Connection → ℤ
down_delta prev c = delta c.download (or_zero (lookup c.id prev)).download

-- One round of the loop over the connections.
unfoldable pub collect_one : Tables → List (Text × ConnSample) → Connection → Cycle → Cycle
collect_one t prev c s =
    let kept = credit (attribute t c) (up_delta prev c) (down_delta prev c) s in
    record kept {
      next_prev = insert c.id (record { upload = c.upload; download = c.download }) s.next_prev;
      views = s.views ++ view_of t c ∷ [];
    }

unfoldable pub collect_loop : Tables → List (Text × ConnSample) → List Connection → Cycle → Cycle
collect_loop t prev [] s = s
collect_loop t prev (c ∷ cs) s = collect_loop t prev cs (collect_one t prev c s)

unfoldable pub empty_cycle : Cycle
empty_cycle = record { next_prev = []; views = []; user_deltas = []; active = [] }
