-- ===== src/Traffic/Monthly.antt =====
-- `MaybeResetMonthlyTraffic` (backend/internal/traffic/monthly_reset.go): a reset of all counters on
-- a day of the month, claimed in the settings before it is done. The day of the month and the date
-- of the tick are arguments; every error ends the tick quietly.
pub mod Once
pub mod Ticks
use m_ui.Base.{
  ℕ, Bool, true, false, not, ◌&&◌, ◌||◌, List, [], ◌∷◌, ◌++◌, Option, none, some, ◌≡◌, ◌⊎◌, refl,
  sym, ap, ◌∙◌, inl, inr, if◌then◌else◌, ◌==◌, nat_eq, text_eq, beq_refl, find?, map_where, Text,
  codes, arith, Bool-cases,
}
use m_ui.Base.Int.{ℤ, pos, ltb_ℤ, eqb_ℤ}
use m_ui.Models.{Db, PanelSetting, ProxyUser}
use m_ui.Store.{
  World, Outcome, done, failed, M, bind, exec, first, transaction, ignore, after, Error,
  is_not_found,
}
use m_ui.Store.Laws.{
  Post, Post-bind, Post-mono, exec-Post, first-Post, transaction-Post, after-exec, after-ignore,
}
use m_ui.Table.{update_users}
use m_ui.User.Batch.{reset_counters}
use m_ui.Listener.Ports.{atoi}

abbrev pub day_key : Text
day_key = codes "traffic_reset_day"

abbrev last_key : Text
last_key = codes "traffic_reset_last"

abbrev find_setting : Text → Db → Option PanelSetting
find_setting key db = find? (λ s. s.key == key) db.settings

unfoldable pub save_setting : Text → Text → Db → Db
save_setting key value db = record db {
  settings = map_where (λ s. s.key == key) (λ s. record s { value = value }) db.settings;
}

unfoldable pub create_setting : Text → Text → Db → Db
create_setting key value db = record db {
  settings = db.settings ++ record { key = key; value = value } ∷ [];
}

abbrev claimed : Outcome (Unit {0}) → Outcome Bool
claimed o = bind o (λ _ v. done true v)

-- The transaction that claims the day; its result says whether this tick did.
abbrev claim_found : Text → Outcome PanelSetting → Outcome Bool
claim_found today (done s w) =
    if s.value == today then done false w else claimed (exec (save_setting last_key today) w)
claim_found today (failed e w) =
    if is_not_found e then claimed (exec (create_setting last_key today) w) else failed e w

unfoldable pub claim : Text → M Bool
claim today = transaction (λ w. claim_found today (first (find_setting last_key) w))

abbrev reset_all : Db → Db
reset_all = update_users (λ _. true) reset_counters

abbrev reset_if_claimed : Outcome Bool → Outcome (Unit {0})
reset_if_claimed (failed e w) = done tt w
reset_if_claimed (done b w) = if b then ignore (exec reset_all) w else done tt w

abbrev check_last : Text → Outcome PanelSetting → Outcome (Unit {0})
check_last today (failed e w) = reset_if_claimed (claim today w)
check_last today (done s w) =
    if s.value == today then done tt w else reset_if_claimed (claim today w)

abbrev on_day : ℕ → Text → Option ℤ → M (Unit {0})
on_day day today none w = done tt w
on_day day today (some d) w =
    if (ltb_ℤ d (pos 1) || ltb_ℤ (pos 31) d) || not (eqb_ℤ (pos day) d)
    then done tt w
    else check_last today (first (find_setting last_key) w)

abbrev with_setting : ℕ → Text → Outcome PanelSetting → Outcome (Unit {0})
with_setting day today (failed e w) = done tt w
with_setting day today (done s w) = on_day day today (atoi s.value) w

unfoldable pub maybe_reset_monthly_traffic : ℕ → Text → M (Unit {0})
maybe_reset_monthly_traffic day today w = with_setting day today (first (find_setting day_key) w)

abbrev has_value : Text → Option PanelSetting → Bool
has_value today none = false
has_value today (some s) = s.value == today

-- The day is claimed.
abbrev is_claimed : Text → Db → Bool
is_claimed today db = has_value today (find_setting last_key db)

find?-saved :
    (key value : Text) (rows : List PanelSetting) (s : PanelSetting)
    → find? (λ r. r.key == key) rows ≡ some s
    → has_value value (
        find?
          (λ r. r.key == key)
          (map_where (λ r. r.key == key) (λ r. record r { value = value }) rows))
      ≡ true
find?-saved key value [] s h = cc
find?-saved key value (r ∷ rows) s h = elim (Bool-cases (r.key == key)) [
  | inl e ↦ rw (e, e) (beq_refl value)
  | inr e ↦ rw (e, e) (find?-saved key value rows s (rw e at h))
]

find?-created :
    (key value : Text) (rows : List PanelSetting)
    → find? (λ r. r.key == key) rows ≡ none
    → has_value value (find? (λ r. r.key == key) (rows ++ record { key = key; value = value } ∷ []))
      ≡ true
find?-created key value [] h = rw (beq_refl key) (beq_refl value)
find?-created key value (r ∷ rows) h = elim (Bool-cases (r.key == key)) [
  | inl e ↦ cc (ap (λ b. if b then some r else find? (λ q. q.key == key) rows) (sym e), h)
  | inr e ↦ rw e (find?-created key value rows (rw e at h))
]
