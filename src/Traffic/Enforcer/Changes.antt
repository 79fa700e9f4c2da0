-- ===== src/Traffic/Enforcer/Changes.antt =====
-- When the enforcer regenerates the configuration, and what it remembers.
use m_ui.Base.{
  ℕ, Bool, true, false, not, ◌&&◌, ◌||◌, List, [], ◌∷◌, Option, none, some, ◌≡◌, ◌↔◌, refl, sym, ap,
  ◌∙◌, inl, inr, ◌==◌, nat_eq, nat_beq_iff, contains, filter, any?, arith, Bool-cases,
}
use m_ui.Clock.{Time}
use m_ui.Models.{ProxyUser}
use m_ui.Store.{World, config_error}
use m_ui.Store.Laws.{select_ok}
use m_ui.Table.{users_where}
use m_ui.User.Active.{is_credential_active}
use m_ui.User.Ids.{Distinct, Distinct-snoc, contains-append}
use m_ui.Traffic.Enforcer.{
  Enforcer, add_key, blocked_ids, equal_blocked_sets, prune, enforce, enforce_changed,
  check_and_enforce,
}
use m_ui.Traffic.Enforcer.Sets.{SameSet, equal_blocked_sets_iff}

add_key-Distinct : (id : ℕ) (m : List ℕ) → Distinct m → Distinct (add_key id m)
add_key-Distinct id m d = elim (Bool-cases (contains m id)) [
  | inl e ↦ rw e d
  | inr e ↦ rw e (Distinct-snoc m id d e)
]

contains-add_key :
    (id : ℕ) (m : List ℕ) (x : ℕ) → contains (add_key id m) x ≡ (contains m x || x == id)
contains-add_key id m x = ground (arith, contains-append m (id ∷ []) x, nat_beq_iff x id)

-- Some live account with this id is blocked.
abbrev pub is_blocked : Time → List ProxyUser → ℕ → Bool
is_blocked now us x = any? (λ u. not (is_credential_active now u) && x == u.id) us

blocked_ids-Distinct :
    (now : Time) (us : List ProxyUser) (m : List ℕ) → Distinct m → Distinct (blocked_ids now us m)
unfolding blocked_ids
blocked_ids-Distinct now [] m d = d
blocked_ids-Distinct now (u ∷ us) m d = elim (Bool-cases (is_credential_active now u)) [
  | inl e ↦ rw e (blocked_ids-Distinct now us m d)
  | inr e ↦ rw e (blocked_ids-Distinct now us (add_key u.id m) (add_key-Distinct u.id m d))
]

contains-blocked_ids :
    (now : Time) (us : List ProxyUser) (m : List ℕ) (x : ℕ)
    → contains (blocked_ids now us m) x ≡ (contains m x || is_blocked now us x)
unfolding blocked_ids
contains-blocked_ids now [] m x = ground arith
contains-blocked_ids now (u ∷ us) m x = elim (Bool-cases (is_credential_active now u)) [
  | inl e ↦ rw e (contains-blocked_ids now us m x)
  | inr e ↦ rw e (
      contains-blocked_ids now us (add_key u.id m) x
      ∙ ap (λ b. b || is_blocked now us x) (contains-add_key u.id m x)
      ∙ or_assoc (contains m x) (x == u.id) (is_blocked now us x))
]
  where
    or_assoc : (a b c : Bool) → (a || b || c) ≡ (a || (b || c))
    or_assoc a b c = ground arith

contains-filter :
    (c l : List ℕ) (x : ℕ) → contains (filter (contains c) l) x ≡ (contains l x && contains c x)
contains-filter c [] x = refl
contains-filter c (y ∷ ys) x = elim (Bool-cases (x == y)) [
  | inl e ↦ rw ((nat_beq_iff x y).0 e) (ground (arith, contains-filter c ys y, nat_beq_iff y y))
  | inr e ↦ ground (arith, contains-filter c ys x)
]

contains-prune : (m : List ℕ) (x : ℕ) → contains (prune m m) x ≡ contains m x
unfolding prune
contains-prune m x = ground (arith, contains-filter m m x)

same_after :
    (ok : Bool) (current : List ℕ) (e : Enforcer)
    → (enforce_changed (some ok) current e).error ≡ none
    → SameSet (enforce_changed (some ok) current e).enforcer.last_blocked current
same_after true current e h = contains-prune current
same_after false current e h = cc

regenerates :
    (ok : Bool) (current : List ℕ) (e : Enforcer)
    → (enforce_changed (some ok) current e).regenerated ≡ true
regenerates true current e = refl
regenerates false current e = refl

enforce-SameSet :
    (ok : Bool) (current : List ℕ) (e : Enforcer)
    → Distinct e.last_blocked
    → Distinct current
    → (((enforce (some ok) current e).regenerated ≡ false) ↔ SameSet e.last_blocked current)
      × ((enforce (some ok) current e).error ≡ none
          → SameSet (enforce (some ok) current e).enforcer.last_blocked current)
unfolding enforce
enforce-SameSet ok current e d dc = elim (Bool-cases (equal_blocked_sets e.last_blocked current)) [
  | inl eq ↦
      let same = (equal_blocked_sets_iff e.last_blocked current d dc).0 eq in
      rw eq ((λ _. same, λ _. refl), λ _. same)
  | inr ne ↦ rw ne (
    (
      λ h. cc (h, regenerates ok current e),
      λ same. cc (ne, (equal_blocked_sets_iff e.last_blocked current d dc).1 same),
    ),
    same_after ok current e,
  )
]

-- With no statement failing and a node service: a check regenerates the configuration unless the
-- blocked accounts are exactly those that it remembered.
pub check_and_enforce_lem :
    (now : Time) (ok : Bool) (e : Enforcer) (w : World)
    → w.faults ≡ []
    → Distinct e.last_blocked
    → ((check_and_enforce now (some ok) e w).0.regenerated ≡ false)
      ↔ ((x : ℕ) → contains e.last_blocked x ≡ is_blocked now (users_where (λ _. true) w.db) x)
unfolding check_and_enforce
check_and_enforce_lem now ok e w clean d =
    let us = users_where (λ _. true) w.db in
    let (when, _) =
      enforce-SameSet ok (blocked_ids now us []) e d (blocked_ids-Distinct now us [] tt) in
    rw (select_ok (users_where (λ _. true)) w clean) (
      λ h x. when.0 h x ∙ contains-blocked_ids now us [] x,
      λ h. when.1 (λ x. h x ∙ sym (contains-blocked_ids now us [] x)),
    )

-- With no statement failing and a node service, a check that ends without an error remembers
-- exactly the blocked accounts.
pub check_and_enforce-remembers :
    (now : Time) (ok : Bool) (e : Enforcer) (w : World) (x : ℕ)
    → w.faults ≡ []
    → Distinct e.last_blocked
    → (check_and_enforce now (some ok) e w).0.error ≡ none
    → contains (check_and_enforce now (some ok) e w).0.enforcer.last_blocked x
      ≡ is_blocked now (users_where (λ _. true) w.db) x
unfolding check_and_enforce
check_and_enforce-remembers now ok e w x clean d h =
    let us = users_where (λ _. true) w.db in
    let found = select_ok (users_where (λ _. true)) w clean in
    let (_, kept) =
      enforce-SameSet ok (blocked_ids now us []) e d (blocked_ids-Distinct now us [] tt) in
    rw found (kept (rw found at h) x ∙ contains-blocked_ids now us [] x)

quiet :
    (r : Option Bool) (current : List ℕ) (e : Enforcer)
    → equal_blocked_sets e.last_blocked current ≡ true
    → (enforce r current e).regenerated ≡ false
unfolding enforce
quiet r current e h = rw h

-- A regeneration that failed is tried again: the next check that finds the same accounts blocked
-- calls for it once more.
pub enforce_retry :
    (regenerate : Bool) (current : List ℕ) (e : Enforcer)
    → (enforce (some false) current e).regenerated ≡ true
    → ((enforce (some false) current e).error ≡ some config_error)
      × ((enforce (some regenerate) current (enforce (some false) current e).enforcer).regenerated
          ≡ true)
unfolding enforce
enforce_retry regenerate current e h =
    elim (Bool-cases (equal_blocked_sets e.last_blocked current)) [
      | inl eq ↦ cc (h, quiet (some false) current e eq)
      | inr ne ↦ rw ne (refl, rw ne (regenerates regenerate current e))
    ]
