-- ===== src/Hwid.antt =====
-- Device limits of subscriptions (backend/internal/hwid): the device that a request names is
-- recorded, and a new one is refused once the user has as many as the limit.
pub mod Counts
pub mod Limit
pub mod Admission
use m_ui.Base.{
  ℕ, suc, ◌+◌, Bool, true, false, not, ◌&&◌, ◌||◌, List, [], ◌∷◌, ◌++◌, Option, none, some,
  if◌then◌else◌, ◌==◌, nat_eq, text_eq, leb, length, filter, find?, map_where, take, Text,
  trim_space,
}
use m_ui.Base.Int.{ℤ, pos, ltb_ℤ, leb_ℤ}
use m_ui.Clock.{Time}
use m_ui.Models.{Db, HwidDevice}
use m_ui.Store.{
  World, Outcome, done, failed, M, bind, select, exec, first, ignore, Error, is_not_found,
  max_devices,
}

pub record DeviceInfo : Type 0 where
  pub hwid : Text
  pub device_os : Text
  pub ver_os : Text
  pub device_model : Text
  pub user_agent : Text
  pub present : Bool

-- The request's headers.
pub record Request : Type 0 where
  pub hwid : Text
  pub device_os : Text
  pub ver_os : Text
  pub device_model : Text
  pub user_agent : Text

-- `[a-zA-Z0-9=\-]`.
abbrev is_hwid_char : ℕ → Bool
is_hwid_char c =
    (leb b'a' c && leb c b'z')
    || ((leb b'A' c && leb c b'Z') || ((leb b'0' c && leb c b'9') || (c == b'=' || c == b'-')))

abbrev all_chars : (ℕ → Bool) → Text → Bool
all_chars p [] = true
all_chars p (c ∷ s) = p c && all_chars p s

-- `hwidPattern.MatchString`.
unfoldable pub matches_hwid : Text → Bool
matches_hwid s = all_chars is_hwid_char s && (leb 10 (length s) && leb (length s) 64)

unfoldable pub parse_request : Request → DeviceInfo
unfolding matches_hwid
parse_request r =
    let raw = trim_space r.hwid in
    let valid = not (raw == []) && matches_hwid raw in
    record {
      hwid = if valid then raw else [];
      device_os = trim_space r.device_os;
      ver_os = trim_space r.ver_os;
      device_model = trim_space r.device_model;
      user_agent = trim_space r.user_agent;
      present = valid;
    }

-- The response headers that the limit sets.
pub record Headers : Type 0 where
  pub active : Bool
  pub not_supported : Bool
  pub max_devices_reached : Bool

unfoldable pub first_non_empty : Text → Text → Text
first_non_empty a b = if not (trim_space a == []) then a else b

abbrev is_device : ℕ → Text → HwidDevice → Bool
is_device user hwid d = d.proxy_user_id == user && d.hwid == hwid

-- `Unscoped()`: also rows that are marked as deleted.
abbrev pub find_device : ℕ → Text → Db → Option HwidDevice
find_device user hwid db = find? (is_device user hwid) db.devices

abbrev pub is_live_of : ℕ → HwidDevice → Bool
is_live_of user d = not d.deleted && d.proxy_user_id == user

abbrev pub count_devices : ℕ → Db → ℕ
count_devices user db = length (filter (is_live_of user) db.devices)

unfoldable pub refreshed : Time → DeviceInfo → HwidDevice → HwidDevice
refreshed now info d = record d {
  device_os = first_non_empty info.device_os d.device_os;
  ver_os = first_non_empty info.ver_os d.ver_os;
  device_model = first_non_empty info.device_model d.device_model;
  user_agent = first_non_empty info.user_agent d.user_agent;
  last_seen_at = now;
  deleted = false;
}

-- `Save` writes the row with its primary key.
unfoldable pub save_device : HwidDevice → Db → Db
save_device d db = record db { devices = map_where (λ x. x.id == d.id) (λ _. d) db.devices }

unfoldable pub next_id : List HwidDevice → ℕ
next_id [] = 1
next_id (d ∷ ds) = let n = next_id ds in if leb n d.id then suc d.id else n

unfoldable pub create_device : Time → ℕ → DeviceInfo → Db → Db
create_device now user info db = record db {
  devices =
      db.devices
      ++ record {
        id = next_id db.devices;
        deleted = false;
        proxy_user_id = user;
        hwid = info.hwid;
        device_os = info.device_os;
        ver_os = info.ver_os;
        device_model = info.device_model;
        user_agent = take 512 info.user_agent;
        last_seen_at = now;
      }
        ∷ [];
}

-- The headers and the outcome of a call.
pub record Reply : Type 0 where
  pub headers : Headers
  pub outcome : Outcome (Unit {0})

abbrev pub reply : Headers → Outcome (Unit {0}) → Reply
reply h o = record { headers = h; outcome = o }

abbrev within_limit : Time → ℕ → ℤ → DeviceInfo → Headers → Outcome ℕ → Reply
within_limit now user limit info h (failed e w) = reply h (failed e w)
within_limit now user limit info h (done count w) =
    if leb_ℤ limit (pos count)
    then reply (record h { max_devices_reached = true }) (failed max_devices w)
    else reply h (exec (create_device now user info) w)

unfoldable pub register_new : Time → ℕ → ℤ → DeviceInfo → Headers → World → Reply
register_new now user limit info h w =
    if ltb_ℤ (pos 0) limit
    then within_limit now user limit info h (select (count_devices user) w)
    else reply h (exec (create_device now user info) w)

abbrev register : Time → ℕ → ℤ → DeviceInfo → Headers → Outcome HwidDevice → Reply
register now user limit info h (done d w) =
    reply h (ignore (exec (save_device (refreshed now info d))) w)
register now user limit info h (failed e w) =
    if is_not_found e then register_new now user limit info h w else reply h (failed e w)

unfoldable pub enforce : Time → ℕ → ℤ → DeviceInfo → Headers → World → Reply
enforce now user limit info h w =
    let active = ltb_ℤ (pos 0) limit in
    let marked = record h { active = h.active || active } in
    if user == 0
    then reply h (done tt w)
    else if not info.present
    then reply (record marked { not_supported = h.not_supported || active }) (done tt w)
    else register now user limit info marked (first (find_device user info.hwid) w)

unfoldable pub delete_device : ℕ → ℕ → Db → Db
delete_device user id db = record db {
  devices = filter (λ d. not (d.proxy_user_id == user && d.id == id)) db.devices;
}

unfoldable pub delete_all : ℕ → Db → Db
delete_all user db = record db { devices = filter (λ d. not (d.proxy_user_id == user)) db.devices }
