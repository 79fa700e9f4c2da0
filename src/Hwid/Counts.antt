-- ===== src/Hwid/Counts.antt =====
-- How the statements of `Enforce` (backend/internal/hwid/hwid.go) change the number of devices.
use m_ui.Base.{
  ℕ, suc, ◌≤◌, Bool, true, false, List, [], ◌∷◌, ◌++◌, Option, some, ◌≡◌, refl, sym, ap, ◌∙◌, inl,
  inr, if◌then◌else◌, ◌==◌, nat_eq, text_eq, nat_beq_iff, length, filter, find?, map_where, All,
  arith, contains, subst, Bool-cases, length-append,
}
use m_ui.Clock.{Time}
use m_ui.Models.{Db, HwidDevice}
use m_ui.User.Ids.{Distinct}
use m_ui.Hwid.{DeviceInfo, is_live_of, count_devices, create_device}

-- No device row is marked as deleted: `Delete` and `DeleteAll` remove rows for good.
abbrev pub NoTombstones : Db → Type 0
NoTombstones db = All (λ d. d.deleted ≡ false) db.devices

pub count-save :
    (user : ℕ) (d : HwidDevice) (rows : List HwidDevice)
    → All (λ x. x.deleted ≡ false) rows
    → All (λ x. x.id ≡ d.id → x.proxy_user_id ≡ d.proxy_user_id) rows
    → length (filter (is_live_of user) (map_where (λ x. x.id == d.id) (λ _. d) rows))
      ≤ length (filter (is_live_of user) rows)
count-save user d [] live keys = omega arith
count-save user d (x ∷ rows) live keys =
    ground (arith, count-save user d rows live.1 keys.1, nat_beq_iff x.id d.id, keys.0)

filter-append :
    (p : HwidDevice → Bool) (xs ys : List HwidDevice)
    → filter p (xs ++ ys) ≡ filter p xs ++ filter p ys
filter-append p [] ys = refl
filter-append p (x ∷ xs) ys = ground (arith, filter-append p xs ys)

pub count-create :
    (now : Time) (user u : ℕ) (info : DeviceInfo) (db : Db)
    → count_devices u (create_device now user info db)
      ≡ (if user == u then suc (count_devices u db) else count_devices u db)
unfolding create_device
count-create now user u info db =
    rw (filter-append (is_live_of u) db.devices, length-append (filter (is_live_of u) db.devices))
      (ground arith)

abbrev pub device_ids : List HwidDevice → List ℕ
device_ids [] = []
device_ids (d ∷ ds) = d.id ∷ device_ids ds

-- A row that was found is the only one with its primary key.
found-contains :
    (p : HwidDevice → Bool) (rows : List HwidDevice) (d : HwidDevice)
    → find? p rows ≡ some d
    → contains (device_ids rows) d.id ≡ true
found-contains p [] d h = cc
found-contains p (x ∷ rows) d h = ground (arith, found-contains p rows d, nat_beq_iff d.id d.id)

absent-All :
    (d : HwidDevice) (rows : List HwidDevice)
    → contains (device_ids rows) d.id ≡ false
    → All (λ x. x.id ≡ d.id → x.proxy_user_id ≡ d.proxy_user_id) rows
absent-All d [] h = tt
absent-All d (x ∷ rows) h =
    (λ e. ground (arith, nat_beq_iff d.id x.id), absent-All d rows (ground arith))

pub found-All :
    (p : HwidDevice → Bool) (rows : List HwidDevice) (d : HwidDevice)
    → Distinct (device_ids rows)
    → find? p rows ≡ some d
    → All (λ x. x.id ≡ d.id → x.proxy_user_id ≡ d.proxy_user_id) rows
found-All p [] d keys h = tt
found-All p (x ∷ rows) d keys h = elim (Bool-cases (p x)) [
  | inl e ↦
      let same : x ≡ d = some_eq (sym (ap (λ b. if b then some x else find? p rows) e) ∙ h) in
      (
        λ _. ap (λ r. r.proxy_user_id) same,
        absent-All d rows (subst (λ r. contains (device_ids rows) r.id ≡ false) same keys.0),
      )
  | inr e ↦
      let behind : find? p rows ≡ some d =
        sym (ap (λ b. if b then some x else find? p rows) e) ∙ h in
      (
        λ q. cc (keys.0, ap (contains (device_ids rows)) q, found-contains p rows d behind),
        found-All p rows d keys.1 behind,
      )
]
  where
    some_eq : {a b : HwidDevice} → ◌≡◌ {A = Option HwidDevice} (some a) (some b) → a ≡ b
    some_eq q = cc
