-- ===== src/Hwid/Admission.antt =====
-- Which requests the device limit refuses.
use m_ui.Base.{
  ℕ, Bool, true, false, not, ◌&&◌, ◌||◌, [], Option, none, some, ◌≡◌, refl, inl, inr, if◌then◌else◌,
  ◌==◌, nat_eq, Bool-cases,
}
use m_ui.Base.Int.{ℤ, pos, ltb_ℤ, leb_ℤ}
use m_ui.Clock.{Time}
use m_ui.Models.{HwidDevice}
use m_ui.Store.{World, Outcome, done, failed, exec, first, or_not_found, Error, max_devices}
use m_ui.Store.Laws.{select_ok, exec_ok, first_ok}
use m_ui.User.Active.{is_none}
use m_ui.Hwid.{
  DeviceInfo, Headers, find_device, count_devices, refreshed, save_device, create_device,
  register_new, reply, register, enforce,
}

abbrev is_limit_error : Error → Bool
is_limit_error max_devices = true
is_limit_error _ = false

abbrev pub is_refused : Outcome (Unit {0}) → Bool
is_refused (done a w) = false
is_refused (failed e w) = is_limit_error e

register_new-refused :
    (now : Time) (user : ℕ) (limit : ℤ) (info : DeviceInfo) (h : Headers) (w : World)
    → w.faults ≡ []
    → is_refused (register_new now user limit info h w).outcome
      ≡ (ltb_ℤ (pos 0) limit && leb_ℤ limit (pos (count_devices user w.db)))
unfolding register_new
register_new-refused now user limit info h w clean = elim (Bool-cases (ltb_ℤ (pos 0) limit)) [
  | inl e ↦
      rw (e, select_ok (count_devices user) w clean)
        (full (leb_ℤ limit (pos (count_devices user w.db))))
  | inr e ↦ rw (e, exec_ok (create_device now user info) w clean)
]
  where
    full :
        (b : Bool)
        → is_refused
            (if b
              then reply (record h { max_devices_reached = true }) (failed max_devices w)
              else reply h (exec (create_device now user info) w)).outcome
          ≡ b
    full true = refl
    full false = rw (exec_ok (create_device now user info) w clean)

register-refused :
    (now : Time) (user : ℕ) (limit : ℤ) (info : DeviceInfo) (h : Headers) (w : World)
    (o : Option HwidDevice)
    → w.faults ≡ []
    → is_refused (register now user limit info h (or_not_found o w)).outcome
      ≡ (is_none o && (ltb_ℤ (pos 0) limit && leb_ℤ limit (pos (count_devices user w.db))))
register-refused now user limit info h w none clean =
    register_new-refused now user limit info h w clean
register-refused now user limit info h w (some d) clean =
    rw (exec_ok (save_device (refreshed now info d)) w clean)

-- With no statement failing, a request is refused exactly when it names a user and a device that is
-- not on record, and a limit is set that the user's live devices have reached.
pub enforce-refused :
    (now : Time) (user : ℕ) (limit : ℤ) (info : DeviceInfo) (h : Headers) (w : World)
    → w.faults ≡ []
    → is_refused (enforce now user limit info h w).outcome ≡ (
        not (user == 0)
        && (info.present
            && (is_none (find_device user info.hwid w.db)
                && (ltb_ℤ (pos 0) limit && leb_ℤ limit (pos (count_devices user w.db))))))
unfolding enforce
enforce-refused now user limit info h w clean = elim (Bool-cases (user == 0)) [
  | inl e ↦ rw e
  | inr e ↦ rw e (choose info.present)
]
  where
    headers : Headers
    headers = record h { active = h.active || ltb_ℤ (pos 0) limit }

    choose :
        (b : Bool)
        → is_refused
            (if not b
              then reply
                  (record headers { not_supported = h.not_supported || ltb_ℤ (pos 0) limit })
                  (done tt w)
              else register now user limit info headers
                  (first (find_device user info.hwid) w)).outcome
          ≡ (b
              && (is_none (find_device user info.hwid w.db)
                  && (ltb_ℤ (pos 0) limit && leb_ℤ limit (pos (count_devices user w.db)))))
    choose true =
        rw (first_ok (find_device user info.hwid) w clean)
          (register-refused now user limit info headers w (find_device user info.hwid w.db) clean)
    choose false = refl
