-- ===== src/User/Bind/Rows.antt =====
-- What each statement on the bindings does to the question whether a user is bound to a listener.
use m_ui.Base.{
  ℕ, Bool, true, false, not, ◌&&◌, ◌||◌, List, [], ◌∷◌, some, ◌≡◌, refl, inl, inr, arith, ◌==◌,
  nat_eq, nat_beq_iff, contains, find?, map_where, any?, any?-append, Bool-cases,
}
use m_ui.Models.{Db, ListenerUser}
use m_ui.User.Bind.{
  is_pair, find_binding, mark, restore_binding, add_binding, remove_bindings, is_bound,
}

abbrev pub is_same : ℕ → ℕ → ℕ → ℕ → Bool
is_same user listener u x = u == user && x == listener

any?-restore :
    (user listener u x : ℕ) (rows : List ListenerUser)
    → any?
        (λ b. not b.deleted && is_pair u x b)
        (map_where (is_pair user listener) (mark false) rows)
      ≡ (any? (λ b. not b.deleted && is_pair u x b) rows
          || (is_same user listener u x && any? (is_pair user listener) rows))
any?-restore user listener u x [] = ground arith
any?-restore user listener u x (b ∷ rows) = ground (arith, any?-restore user listener u x rows)

any?-remove :
    (user : ℕ) (desired : List ℕ) (u x : ℕ) (rows : List ListenerUser)
    → any?
        (λ b. not b.deleted && is_pair u x b)
        (map_where
          (λ b. not b.deleted && (b.proxy_user_id == user && not (contains desired b.listener_id)))
          (mark true)
          rows)
      ≡ (any? (λ b. not b.deleted && is_pair u x b) rows
          && not (u == user && not (contains desired x)))
any?-remove user desired u x [] = refl
any?-remove user desired u x (b ∷ rows) = elim (Bool-cases (b.listener_id == x)) [
  | inl e ↦
      rw ((nat_beq_iff b.listener_id x).0 e) (ground (arith, any?-remove user desired u x rows))
  | inr e ↦ ground (arith, any?-remove user desired u x rows)
]

find?-any? :
    (p : ListenerUser → Bool) (rows : List ListenerUser) (b : ListenerUser)
    → find? p rows ≡ some b
    → any? p rows ≡ true
find?-any? p [] b h = cc
find?-any? p (c ∷ rows) b h = ground (arith, find?-any? p rows b)

find?-live :
    (user listener : ℕ) (rows : List ListenerUser) (b : ListenerUser)
    → find? (is_pair user listener) rows ≡ some b
    → b.deleted ≡ false
    → any? (λ c. not c.deleted && is_pair user listener c) rows ≡ true
find?-live user listener [] b h live = cc
find?-live user listener (c ∷ rows) b h live = ground (arith, find?-live user listener rows b)

pub is_bound-restore :
    (user listener u x : ℕ) (db : Db) (b : ListenerUser)
    → find_binding user listener db ≡ some b
    → is_bound u x (restore_binding user listener db)
      ≡ (is_bound u x db || is_same user listener u x)
unfolding is_bound restore_binding
is_bound-restore user listener u x db b h = ground (
  arith,
  any?-restore user listener u x db.bindings,
  find?-any? (is_pair user listener) db.bindings b h,
)

pub is_bound-add :
    (user listener u x : ℕ) (db : Db)
    → is_bound u x (add_binding user listener db) ≡ (is_bound u x db || is_same user listener u x)
unfolding is_bound add_binding
is_bound-add user listener u x db =
    rw (any?-append (λ c. not c.deleted && is_pair u x c) db.bindings) (ground arith)

pub is_bound-present :
    (user listener u x : ℕ) (db : Db) (b : ListenerUser)
    → find_binding user listener db ≡ some b
    → b.deleted ≡ false
    → is_bound u x db ≡ (is_bound u x db || is_same user listener u x)
unfolding is_bound
is_bound-present user listener u x db b h live = elim (Bool-cases (is_same user listener u x)) [
  | inl e ↦
      let eu : u ≡ user = ground arith in
      let ex : x ≡ listener = ground arith in
      rw (eu, ex) (ground (arith, find?-live user listener db.bindings b h live))
  | inr e ↦ rw e (ground arith)
]

pub is_bound-remove :
    (user : ℕ) (desired : List ℕ) (u x : ℕ) (db : Db)
    → is_bound u x (remove_bindings user desired db)
      ≡ (is_bound u x db && not (u == user && not (contains desired x)))
unfolding is_bound remove_bindings
is_bound-remove user desired u x db = any?-remove user desired u x db.bindings
