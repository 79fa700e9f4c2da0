-- ===== src/Traffic/Monthly/Ticks.antt =====
-- Two ticks on one day.
use m_ui.Base.{
  ℕ, true, not, ◌||◌, Option, none, some, ◌≡◌, ◌⊎◌, ap, ◌∙◌, inl, inr, ◌==◌, text_eq, Text,
  Bool-cases,
}
use m_ui.Base.Int.{ℤ, pos, ltb_ℤ, eqb_ℤ}
use m_ui.Models.{Db, PanelSetting}
use m_ui.Store.{World, Outcome, done, failed, first, after}
use m_ui.Store.Laws.{Post, first-Post}
use m_ui.Listener.Ports.{atoi}
use m_ui.Traffic.Monthly.{
  day_key, last_key, find_setting, claim, reset_if_claimed, check_last, on_day, with_setting,
  maybe_reset_monthly_traffic, is_claimed,
}
use m_ui.Traffic.Monthly.Once.{
  claim-Claimed, claim-Refused, Left, reset_if_claimed-Left, reset_if_claimed-Refused,
}

-- A tick ends early with the tables as they were, or it ends with the claim.
module _ (K : Outcome (Unit {0}) → Type 0) (today : Text) (db : Db)
    (quiet : (v : World) → v.db ≡ db → K (done tt v))
    (claims : (v : World) → v.db ≡ db → K (reset_if_claimed (claim today v))) where
  check :
      (o : Outcome PanelSetting)
      → Post (λ a v. v.db ≡ db) (λ e v. v.db ≡ db) o
      → K (check_last today o)
  check (failed e v) h = claims v h
  check (done s v) h = elim (Bool-cases (s.value == today)) [
    | inl e ↦ rw e (quiet v h)
    | inr e ↦ rw e (claims v h)
  ]

  second : (v : World) → v.db ≡ db → K (check_last today (first (find_setting last_key) v))
  second v h =
      check (first (find_setting last_key) v)
        (read (first (find_setting last_key) v) (first-Post (find_setting last_key) v))
    where
      read :
          (o : Outcome PanelSetting)
          → Post
              (λ a x. (find_setting last_key v.db ≡ some a) × (x.db ≡ v.db))
              (λ e x. x.db ≡ v.db)
              o
          → Post (λ a x. x.db ≡ db) (λ e x. x.db ≡ db) o
      read (done a x) k = k.1 ∙ h
      read (failed e x) k = k ∙ h

  dated : (day : ℕ) (d : Option ℤ) (v : World) → v.db ≡ db → K (on_day day today d v)
  dated day none v h = quiet v h
  dated day (some d) v h =
      elim (Bool-cases ((ltb_ℤ d (pos 1) || ltb_ℤ (pos 31) d) || not (eqb_ℤ (pos day) d))) [
        | inl e ↦ rw e (quiet v h)
        | inr e ↦ rw e (second v h)
      ]

  tick :
      (day : ℕ) (o : Outcome PanelSetting)
      → Post (λ a v. (find_setting day_key db ≡ some a) × (v.db ≡ db)) (λ e v. v.db ≡ db) o
      → K (with_setting day today o)
  tick day (failed e v) h = quiet v h
  tick day (done s v) h = dated day (atoi s.value) v h.1

tick-Left :
    (day : ℕ) (today : Text) (w : World) → Left today w.db (maybe_reset_monthly_traffic day today w)
unfolding maybe_reset_monthly_traffic
tick-Left day today w =
    tick (Left today w.db) today w.db (λ v h. inl (ap (λ d. d.users) h))
      (λ v h. rw (← h) (reset_if_claimed-Left today v.db (claim today v) (claim-Claimed today v)))
      day (first (find_setting day_key) w) (first-Post (find_setting day_key) w)

tick-Refused :
    (day : ℕ) (today : Text) (w : World)
    → is_claimed today w.db ≡ true
    → (after (maybe_reset_monthly_traffic day today w)).db ≡ w.db
unfolding maybe_reset_monthly_traffic
tick-Refused day today w taken =
    tick (λ o. (after o).db ≡ w.db) today w.db (λ v h. h)
      (λ v h.
        reset_if_claimed-Refused v.db (claim today v)
          (claim-Refused today v (ap (is_claimed today) h ∙ taken))
        ∙ h)
      day (first (find_setting day_key) w) (first-Post (find_setting day_key) w)

-- Of two ticks on one date at most one changes accounts, whichever statements fail.
pub maybe_reset_monthly_traffic-once :
    (day : ℕ) (today : Text) (w : World)
    → ((after (maybe_reset_monthly_traffic day today w)).db.users ≡ w.db.users)
      ⊎ ((after (
            maybe_reset_monthly_traffic day today
              (after (maybe_reset_monthly_traffic day today w)))).db
          ≡ (after (maybe_reset_monthly_traffic day today w)).db)
maybe_reset_monthly_traffic-once day today w = elim (tick-Left day today w) [
  | inl same ↦ inl same
  | inr taken ↦ inr (tick-Refused day today (after (maybe_reset_monthly_traffic day today w)) taken)
]
