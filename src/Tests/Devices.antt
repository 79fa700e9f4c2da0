-- ===== src/Tests/Devices.antt =====
-- The device limit.
use m_ui.Base.{◌≤◌, true, false, [], ◌≡◌, refl, codes, arith}
use m_ui.Base.Int.{pos}
use m_ui.Store.{after}
use m_ui.Hwid.{DeviceInfo, Headers, count_devices, enforce}
use m_ui.Hwid.Limit.{enforce-limit}
use m_ui.Hwid.Admission.{is_refused, enforce-refused}
use m_ui.Tests.Data.{panel}

abbrev info : DeviceInfo
info = record {
  hwid = codes "bbbbbbbbbb";
  device_os = [];
  ver_os = [];
  device_model = [];
  user_agent = [];
  present = true;
}

abbrev headers : Headers
headers = record { active = false; not_supported = false; max_devices_reached = false }

enforce-limit_example :
    count_devices 1 (after (enforce (pos 5) 1 (pos 2) info headers panel).outcome).db ≤ 2
enforce-limit_example =
    enforce-limit (pos 5) 1 2 info headers panel (refl, tt) (refl, tt) (omega arith) (omega arith)

enforce-refused_example : is_refused (enforce (pos 5) 1 (pos 1) info headers panel).outcome ≡ true
enforce-refused_example = enforce-refused (pos 5) 1 (pos 1) info headers panel refl
