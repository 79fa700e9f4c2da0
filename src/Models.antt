-- ===== src/Models.antt =====
-- The rows of the panel's database that the services read and write
-- (backend/internal/database/models). A column that no modelled code tests is left out.
-- `deleted` is gorm's soft-delete mark, `deleted_at IS NOT NULL`.
use m_ui.Base.{ℕ, Bool, List, Option, Text}
use m_ui.Base.Int.{ℤ}
use m_ui.Clock.{Time}

pub record ProxyUser : Type 0 where
  pub id : ℕ
  pub deleted : Bool
  pub username : Text
  pub password_encrypted : Text
  pub uuid : Text
  pub traffic_limit : ℤ
  pub traffic_used : ℤ
  pub upload_bytes : ℤ
  pub download_bytes : ℤ
  pub last_seen : Option Time
  pub online : Bool
  pub expire_time : Time
  pub enabled : Bool
  pub ip_limit : ℤ
  pub hwid_limit : ℤ
  pub remark : Text
  pub sub_token : Text
  pub telegram_id : ℤ
  pub telegram_name : Text
  pub group : Text
  pub tags : Text
  pub traffic_reset_days : ℤ
  pub expire_renew_days : ℤ
  pub last_traffic_cycle_reset : Option Time
  pub start_on_first_use : Bool
  pub first_connected_at : Option Time
  pub expire_days_after_first : ℤ
  pub external_links : Text

pub record ListenerUser : Type 0 where
  pub deleted : Bool
  pub listener_id : ℕ
  pub proxy_user_id : ℕ

pub record Listener : Type 0 where
  pub id : ℕ
  pub deleted : Bool
  pub name : Text
  pub type : Text
  pub protocol : Text
  pub port : Text
  pub bind_address : Text
  pub listen : Text
  pub enabled : Bool
  pub config : Text

pub record HwidDevice : Type 0 where
  pub id : ℕ
  pub deleted : Bool
  pub proxy_user_id : ℕ
  pub hwid : Text
  pub device_os : Text
  pub ver_os : Text
  pub device_model : Text
  pub user_agent : Text
  pub last_seen_at : Time

pub record TrafficRecord : Type 0 where
  pub proxy_user_id : ℕ
  pub upload_bytes : ℤ
  pub download_bytes : ℤ
  pub online : Bool

pub record PanelSetting : Type 0 where
  pub key : Text
  pub value : Text

-- `snapshot` is the listener's row as JSON.
pub record ListenerVersion : Type 0 where
  pub listener_id : ℕ
  pub version : ℕ
  pub snapshot : Text

pub record Db : Type 0 where
  pub users : List ProxyUser
  pub bindings : List ListenerUser
  pub listeners : List Listener
  pub devices : List HwidDevice
  pub records : List TrafficRecord
  pub settings : List PanelSetting
  pub versions : List ListenerVersion
