-- ===== src/Tests/Data.antt =====
-- A panel with two accounts, two listeners, one binding and one device.
use m_ui.Base.{true, false, [], ◌∷◌, none, some, codes}
use m_ui.Base.Int.{pos}
use m_ui.Models.{ProxyUser, ListenerUser, Listener, HwidDevice, Db}
use m_ui.Store.{World}

-- Starts on first use, for 30 days, with a quota.
abbrev pub alice : ProxyUser
alice = record {
  id = 1;
  deleted = false;
  username = codes "alice";
  password_encrypted = [];
  uuid = [];
  traffic_limit = pos 1000;
  traffic_used = pos 10;
  upload_bytes = pos 4;
  download_bytes = pos 6;
  last_seen = none;
  online = true;
  expire_time = pos 3;
  enabled = true;
  ip_limit = pos 0;
  hwid_limit = pos 2;
  remark = [];
  sub_token = [];
  telegram_id = pos 0;
  telegram_name = [];
  group = [];
  tags = [];
  traffic_reset_days = pos 7;
  expire_renew_days = pos 0;
  last_traffic_cycle_reset = none;
  start_on_first_use = true;
  first_connected_at = none;
  expire_days_after_first = pos 30;
  external_links = [];
}

-- Expired at time 3, renewed monthly, used before.
abbrev pub bob : ProxyUser
bob = record alice {
  id = 2;
  username = codes "bob";
  traffic_limit = pos 0;
  start_on_first_use = false;
  first_connected_at = some (pos 1);
  expire_renew_days = pos 30;
}

abbrev binding : ListenerUser
binding = record { deleted = false; listener_id = 7; proxy_user_id = 1 }

abbrev pub listener : Listener
listener = record {
  id = 7;
  deleted = false;
  name = codes "in";
  protocol = codes "vless";
  port = codes "443";
  type = [];
  bind_address = [];
  listen = [];
  enabled = true;
  config = [];
}

abbrev device : HwidDevice
device = record {
  id = 1;
  deleted = false;
  proxy_user_id = 1;
  hwid = codes "aaaaaaaaaa";
  device_os = [];
  ver_os = [];
  device_model = [];
  user_agent = [];
  last_seen_at = pos 1;
}

abbrev pub tables : Db
tables = record {
  users = alice ∷ bob ∷ [];
  bindings = binding ∷ [];
  listeners = listener ∷ record listener { id = 8; name = codes "out" } ∷ [];
  devices = device ∷ [];
  records = [];
  settings = [];
  versions = [];
}

abbrev pub panel : World
panel = record {
  db = tables;
  faults = [];
  reload_handler = true;
  reload_pending = false;
  apply_pending = false;
}

-- The second statement to come fails.
abbrev pub faulty : World
faulty = record panel { faults = false ∷ true ∷ [] }
