-- ===== src/User/Delete/Depleted.antt =====
-- What `DeleteDepleted` takes and what it leaves.
use m_ui.Base.{
  ℕ, Bool, true, false, not, ◌&&◌, ◌||◌, List, [], ◌∷◌, ◌≡◌, refl, ap, ◌∙◌, inl, inr, beq_refl,
  if◌then◌else◌, arith, ◌==◌, nat_eq, contains, filter, All, Bool-cases,
}
use m_ui.Clock.{Time}
use m_ui.Models.{ProxyUser}
use m_ui.Store.{World}
use m_ui.Store.Laws.{Post, Post-mono}
use m_ui.Table.{users_where}
use m_ui.Table.Each.{ids_of}
use m_ui.User.Active.{has_expired, is_over_quota, is_deferred, is_credential_active}
use m_ui.User.Ids.{Distinct}
use m_ui.User.Delete.{is_depleted, depleted_ids, delete_depleted, delete_depleted-Post}

-- The ids that are collected from the live rows.
abbrev collected : Time → List ProxyUser → List ℕ
collected now rows = depleted_ids now (filter (λ u. not u.deleted && true) rows)

abbrev pub is_taken : Time → ProxyUser → Bool
is_taken now u = not u.deleted && is_depleted now u

collected-cons :
    (now : Time) (u : ProxyUser) (rows : List ProxyUser) (i : ℕ)
    → contains (collected now (u ∷ rows)) i
      ≡ ((is_taken now u && i == u.id) || contains (collected now rows) i)
unfolding depleted_ids
collected-cons now u rows i = elim (Bool-cases u.deleted) [
  | inl e ↦ rw e
  | inr e ↦ rw e (go (is_depleted now u) refl)
]
  where
    go :
        (b : Bool)
        → is_depleted now u ≡ b
        → contains (if is_depleted now u then u.id ∷ collected now rows else collected now rows) i
          ≡ ((is_depleted now u && i == u.id) || contains (collected now rows) i)
    go true h = rw h
    go false h = rw h

collected-absent :
    (now : Time) (rows : List ProxyUser) (i : ℕ)
    → contains (ids_of rows) i ≡ false
    → contains (collected now rows) i ≡ false
unfolding depleted_ids
collected-absent now [] i h = refl
collected-absent now (u ∷ rows) i h =
    rw (collected-cons now u rows i) (ground (arith, collected-absent now rows i))

join_false : (t b c d : Bool) → b ≡ false → c ≡ d → (t && b || c) ≡ d
join_false t b c d h k = ground arith

join_true : (t b c : Bool) → b ≡ true → c ≡ false → (t && b || c) ≡ t
join_true t b c h k = ground arith

-- Rows behind `u` are collected or not whether or not `u` is.
collected-behind :
    (now : Time) (u : ProxyUser) (rows : List ProxyUser) (vs : List ProxyUser)
    → contains (ids_of vs) u.id ≡ false
    → All (λ v. contains (collected now rows) v.id ≡ is_taken now v) vs
    → All (λ v. contains (collected now (u ∷ rows)) v.id ≡ is_taken now v) vs
collected-behind now u rows [] h a = tt
collected-behind now u rows (v ∷ vs) h a = (
  collected-cons now u rows v.id ∙ join_false _ (v.id == u.id) _ _ (ground arith) a.0,
  collected-behind now u rows vs (ground arith) a.1,
)

collected-All :
    (now : Time) (rows : List ProxyUser)
    → Distinct (ids_of rows)
    → All (λ v. contains (collected now rows) v.id ≡ is_taken now v) rows
collected-All now [] d = tt
collected-All now (u ∷ rows) d = (
  collected-cons now u rows u.id
      ∙ join_true _ (u.id == u.id) _ (beq_refl u.id) (collected-absent now rows u.id d.0),
  collected-behind now u rows rows d.0 (collected-All now rows d.1),
)

filter-All :
    (p q : ProxyUser → Bool) (rows : List ProxyUser)
    → All (λ v. p v ≡ q v) rows
    → filter (λ v. not (p v)) rows ≡ filter (λ v. not (q v)) rows
filter-All p q [] a = refl
filter-All p q (v ∷ rows) a = rw (a.0, filter-All p q rows a.1)

-- Where ids are primary keys, a call that succeeds removes exactly the live accounts that are
-- expired or over quota; a call that fails leaves the tables unchanged.
pub delete_depleted-exact :
    (now : Time) (w : World)
    → Distinct (ids_of w.db.users)
    → Post
        (λ _ v. v.db.users ≡ filter (λ u. not (is_taken now u)) w.db.users)
        (λ e v. v.db ≡ w.db)
        (delete_depleted now w)
delete_depleted-exact now w keys =
    Post-mono _ _ _ _ (delete_depleted now w) (delete_depleted-Post now w)
      (λ _ v h.
        ap (λ d. d.users) h.0
        ∙ filter-All _ (is_taken now) w.db.users (collected-All now w.db.users keys))
      (λ _ _ h. h)

-- No account that is left is blocked by its quota or its expiry: live and enabled means active.
left_active :
    (now : Time) (rows : List ProxyUser)
    → All
        (λ u. is_credential_active now u ≡ true)
        (filter (λ u. not u.deleted && u.enabled) (filter (λ u. not (is_taken now u)) rows))
unfolding is_credential_active
left_active now [] = tt
left_active now (u ∷ rows) = elim (Bool-cases (is_taken now u)) [
  | inl e ↦ rw e (left_active now rows)
  | inr e ↦ rw e (elim (Bool-cases (not u.deleted && u.enabled)) [
    | inl on ↦ rw on (ground arith, left_active now rows)
    | inr off ↦ rw off (left_active now rows)
  ])
]

-- Where ids are primary keys, after a call that succeeds every live and enabled account is active.
pub delete_depleted-active :
    (now : Time) (w : World)
    → Distinct (ids_of w.db.users)
    → Post
        (λ _ v. All (λ u. is_credential_active now u ≡ true) (users_where (λ u. u.enabled) v.db))
        (λ e v. v.db ≡ w.db)
        (delete_depleted now w)
delete_depleted-active now w keys =
    Post-mono _ _ _ _ (delete_depleted now w) (delete_depleted-exact now w keys)
      (λ _ v h. rw h (left_active now w.db.users)) (λ _ _ h. h)

tests :
    (on deferred expired over : Bool)
    → (if not on
        then false
        else if not deferred && expired
        then false
        else if over
        then false
        else true)
      ≡ true
    → (expired || over) ≡ (deferred && expired)
tests on deferred expired over h = ground arith

-- An active account is counted as depleted exactly when its expiry clock has not started and its
-- expiry date is past.
pub active-depleted :
    (now : Time) (u : ProxyUser)
    → is_credential_active now u ≡ true
    → is_depleted now u ≡ (is_deferred u && has_expired now u)
unfolding is_credential_active
active-depleted now u h = tests u.enabled (is_deferred u) (has_expired now u) (is_over_quota u) h
