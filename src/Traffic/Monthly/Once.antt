-- ===== src/Traffic/Monthly/Once.antt =====
-- A day's reset is done once.
use m_ui.Base.{
  Bool, true, false, List, [], ◌∷◌, Option, none, some, ◌≡◌, ◌⊎◌, refl, sym, ap, ◌∙◌, inl, inr,
  ◌==◌, text_eq, Text, Bool-cases,
}
use m_ui.Models.{Db, PanelSetting}
use m_ui.Store.{
  World, Outcome, done, failed, bind, select, select_with, or_not_found, exec, first, after, Error,
  is_not_found,
}
use m_ui.Store.Laws.{
  Post, Post-bind, Post-mono, exec-Post, transaction-Post, after-exec, after-ignore,
}
use m_ui.Traffic.Monthly.{
  last_key, find_setting, save_setting, create_setting, claimed, claim_found, claim, reset_all,
  reset_if_claimed, has_value, is_claimed, find?-saved, find?-created,
}

-- A `First` that reports no row has found none.
abbrev Absent : (Db → Option PanelSetting) → Db → Error → World → Type 0
Absent f db e v = (v.db ≡ db) × (is_not_found e ≡ true → f db ≡ none)

first-Absent :
    (f : Db → Option PanelSetting) (w : World)
    → Post (λ a v. (f w.db ≡ some a) × (v.db ≡ w.db)) (Absent f w.db) (first f w)
unfolding first select
first-Absent f w = go w.faults
  where
    row :
        (v : World) (o : Option PanelSetting)
        → f w.db ≡ o
        → v.db ≡ w.db
        → Post (λ a v. (f w.db ≡ some a) × (v.db ≡ w.db)) (Absent f w.db) (or_not_found o v)
    row v none e h = (h, λ _. e)
    row v (some a) e h = (e, h)

    go :
        (fs : List Bool)
        → Post
            (λ a v. (f w.db ≡ some a) × (v.db ≡ w.db))
            (Absent f w.db)
            (bind (select_with f w fs) or_not_found)
    go [] = row w (f w.db) refl refl
    go (true ∷ fs) = (refl, λ h. cc)
    go (false ∷ fs) = row (record w { faults = fs }) (f w.db) refl refl

-- The accounts are as they were, and the day is claimed.
abbrev Claimed : Text → Db → Bool → Db → Type 0
Claimed today before b db = (db.users ≡ before.users) × (is_claimed today db ≡ true)

claimed-Post :
    (today : Text) (before : Db) (f : Db → Db) (w : World)
    → w.db ≡ before
    → Claimed today before true (f before)
    → Post (λ b v. Claimed today before b v.db) (λ e v. Unit {0}) (claimed (exec f w))
claimed-Post today before f w same h =
    Post-bind (λ _ v. v.db ≡ f w.db) _ _ (exec f w) (λ _ v. done true v)
      (Post-mono _ _ _ _ (exec f w) (exec-Post f w) (λ _ _ k. k) (λ _ _ _. tt))
      (λ _ v k. rw (k, same) h)

saved :
    (today : Text) (db : Db) (s : PanelSetting)
    → find_setting last_key db ≡ some s
    → Claimed today db true (save_setting last_key today db)
unfolding save_setting
saved today db s h = (refl, find?-saved last_key today db.settings s h)

created :
    (today : Text) (db : Db)
    → find_setting last_key db ≡ none
    → Claimed today db true (create_setting last_key today db)
unfolding create_setting
created today db h = (refl, find?-created last_key today db.settings h)

claim_found-Post :
    (today : Text) (before : Db) (o : Outcome PanelSetting)
    → Post
        (λ a v. (find_setting last_key before ≡ some a) × (v.db ≡ before))
        (Absent (find_setting last_key) before)
        o
    → Post (λ b v. Claimed today before b v.db) (λ e v. Unit {0}) (claim_found today o)
claim_found-Post today before (done s v) (found, same) = elim (Bool-cases (s.value == today)) [
  | inl e ↦ rw (e, same, found) (refl, e)
  | inr e ↦
      rw e (
        claimed-Post today before (save_setting last_key today) v same (saved today before s found))
]
claim_found-Post today before (failed x v) (same, absent) = elim (Bool-cases (is_not_found x)) [
  | inl e ↦ rw e (
      claimed-Post today before (create_setting last_key today) v same
        (created today before (absent e)))
  | inr e ↦ rw e tt
]

pub claim-Claimed :
    (today : Text) (w : World)
    → Post (λ b v. Claimed today w.db b v.db) (λ e v. v.db ≡ w.db) (claim today w)
unfolding claim
claim-Claimed today w =
    transaction-Post (Claimed today w.db) (λ v. claim_found today (first (find_setting last_key) v))
      w
      (claim_found-Post today w.db (first (find_setting last_key) w)
        (first-Absent (find_setting last_key) w))

abbrev Refused : Db → Bool → Db → Type 0
Refused before b db = (b ≡ false) × (db ≡ before)

claim_found-Refused :
    (today : Text) (before : Db) (o : Outcome PanelSetting)
    → is_claimed today before ≡ true
    → Post
        (λ a v. (find_setting last_key before ≡ some a) × (v.db ≡ before))
        (Absent (find_setting last_key) before)
        o
    → Post (λ b v. Refused before b v.db) (λ e v. Unit {0}) (claim_found today o)
claim_found-Refused today before (done s v) h (found, same) =
    rw (sym (ap (has_value today) found) ∙ h) (refl, same)
claim_found-Refused today before (failed x v) h (same, absent) =
    elim (Bool-cases (is_not_found x)) [
      | inl e ↦ absurd (clash (sym (ap (has_value today) (absent e)) ∙ h))
      | inr e ↦ rw e tt
    ]
  where
    clash : false ≡ true → ⊥
    clash h = cc

-- A day that is claimed is not claimed again.
pub claim-Refused :
    (today : Text) (w : World)
    → is_claimed today w.db ≡ true
    → Post (λ b v. Refused w.db b v.db) (λ e v. v.db ≡ w.db) (claim today w)
unfolding claim
claim-Refused today w h =
    transaction-Post (Refused w.db) (λ v. claim_found today (first (find_setting last_key) v)) w
      (claim_found-Refused today w.db (first (find_setting last_key) w) h
        (first-Absent (find_setting last_key) w))

-- What a tick may leave: the accounts as they were, or the day claimed.
abbrev pub Left : Text → Db → Outcome (Unit {0}) → Type 0
Left today before o = ((after o).db.users ≡ before.users) ⊎ (is_claimed today (after o).db ≡ true)

pub reset_if_claimed-Left :
    (today : Text) (before : Db) (o : Outcome Bool)
    → Post (λ b v. Claimed today before b v.db) (λ e v. v.db ≡ before) o
    → Left today before (reset_if_claimed o)
reset_if_claimed-Left today before (failed e v) h = inl (ap (λ d. d.users) h)
reset_if_claimed-Left today before (done false v) h = inl h.0
reset_if_claimed-Left today before (done true v) h =
    rw (after-ignore (exec reset_all) v) (elim (after-exec reset_all v) [
      | inl e ↦ inr (ap (is_claimed today) e ∙ h.1)
      | inr e ↦ inr (ap (is_claimed today) e ∙ h.1)
    ])

pub reset_if_claimed-Refused :
    (before : Db) (o : Outcome Bool)
    → Post (λ b v. Refused before b v.db) (λ e v. v.db ≡ before) o
    → (after (reset_if_claimed o)).db ≡ before
reset_if_claimed-Refused before (failed e v) h = h
reset_if_claimed-Refused before (done false v) h = h.1
reset_if_claimed-Refused before (done true v) h = cc (h.0)
