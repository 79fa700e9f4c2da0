-- ===== src/Traffic/Collector/Accounting.antt =====
-- What a cycle credits to an account, and to whom it attributes a connection.
use m_ui.Base.{
  ℕ, ◌+◌, ◌-◌, ◌≤◌, ◌<◌, ◌^◌, Bool, true, false, ◌&&◌, ◌||◌, List, [], ◌∷◌, Option, none, some, ◌≡◌,
  refl, ap, ◌∙◌, ◌≢◌, ◌⊎◌, inl, inr, if◌then◌else◌, ◌==◌, nat_eq, text_eq, text_beq_iff,
  nat_beq_iff, contains, Text, int64_fits, arith, Bool-cases, beq-ne,
}
use m_ui.Base.Int.{ℤ, pos, ◌+ℤ◌, ◌-ℤ◌}
use m_ui.User.Ids.{contains-append}
use m_ui.Base.Dict.{lookup, lookup-insert}
use m_ui.Traffic.Collector.{
  Connection, ConnSample, Tables, Cycle, no_sample, or_zero, delta, attribute, metadata_of,
  listener_of, user_named, add_delta, up_delta, down_delta, collect_one, collect_loop, empty_cycle,
  sole, sole_user,
}

abbrev is_id : Option ℕ → ℕ → Bool
is_id none id = false
is_id (some i) id = i == id

abbrev pub is_user_of : Tables → ℕ → Connection → Bool
is_user_of t id c = is_id (attribute t c) id

-- The sum of the deltas of the connections that are the account's, in `int64` arithmetic.
abbrev pub credited :
    Tables → List (Text × ConnSample) → ℕ → List Connection → ConnSample → ConnSample
credited t prev id [] s = s
credited t prev id (c ∷ cs) s =
    credited t prev id cs
      (if is_user_of t id c then add_delta s (up_delta prev c) (down_delta prev c) else s)

collect_one-delta :
    (t : Tables) (prev : List (Text × ConnSample)) (c : Connection) (s : Cycle) (id : ℕ)
    → or_zero (lookup id (collect_one t prev c s).user_deltas) ≡ (
        if is_user_of t id c
        then add_delta (or_zero (lookup id s.user_deltas)) (up_delta prev c) (down_delta prev c)
        else or_zero (lookup id s.user_deltas))
unfolding collect_one
collect_one-delta t prev c s id = go (attribute t c) refl
  where
    go :
        (o : Option ℕ)
        → attribute t c ≡ o
        → or_zero (lookup id (collect_one t prev c s).user_deltas) ≡ (
            if is_user_of t id c
            then add_delta (or_zero (lookup id s.user_deltas)) (up_delta prev c) (down_delta prev c)
            else or_zero (lookup id s.user_deltas))
    go none e = rw e
    go (some i) e = elim (Bool-cases (i == id)) [
      | inl same ↦ rw (e, lookup-insert i id, same, (nat_beq_iff i id).0 same)
      | inr other ↦ rw (e, lookup-insert i id, other)
    ]

collect_loop-delta :
    (t : Tables) (prev : List (Text × ConnSample)) (cs : List Connection) (s : Cycle) (id : ℕ)
    → or_zero (lookup id (collect_loop t prev cs s).user_deltas)
      ≡ credited t prev id cs (or_zero (lookup id s.user_deltas))
unfolding collect_loop
collect_loop-delta t prev [] s id = refl
collect_loop-delta t prev (c ∷ cs) s id =
    collect_loop-delta t prev cs (collect_one t prev c s) id
    ∙ ap (credited t prev id cs) (collect_one-delta t prev c s id)

-- A cycle credits each account with exactly the deltas of the connections attributed to it.
pub collect_loop-credited :
    (t : Tables) (prev : List (Text × ConnSample)) (cs : List Connection) (id : ℕ)
    → or_zero (lookup id (collect_loop t prev cs empty_cycle).user_deltas)
      ≡ credited t prev id cs no_sample
unfolding empty_cycle
collect_loop-credited t prev cs id = collect_loop-delta t prev cs _ id

-- Some row of the table has this id and this name.
abbrev pub any_pair : ℕ → Text → List (ℕ × Text) → Bool
any_pair id name [] = false
any_pair id name ((i, n) ∷ rest) = (i == id && n == name) || any_pair id name rest

sole_evidence : (o : Option (List ℕ)) (id : ℕ) → sole o ≡ some id → o ≡ some (id ∷ [])
sole_evidence none id h = cc
sole_evidence (some []) id h = cc
sole_evidence (some (i ∷ [])) id h = cc
sole_evidence (some (i ∷ j ∷ is)) id h = cc

sole_user_evidence :
    (t : Tables) (o : Option ℕ) (id : ℕ)
    → sole_user t o ≡ some id
    → (listener : ℕ) × (o ≡ some listener) × (lookup listener t.listener_users ≡ some (id ∷ []))
sole_user_evidence t none id h = cc
sole_user_evidence t (some l) id h = (l, refl, sole_evidence (lookup l t.listener_users) id h)

listed_once :
    (t : Tables) (prev : List (Text × ConnSample)) (c : Connection) (s : Cycle) (id : ℕ)
    → contains (collect_one t prev c s).active id ≡ (contains s.active id || is_user_of t id c)
unfolding collect_one
listed_once t prev c s id = go (attribute t c) refl
  where
    go :
        (o : Option ℕ)
        → attribute t c ≡ o
        → contains (collect_one t prev c s).active id ≡ (contains s.active id || is_user_of t id c)
    go none e = rw e (ground arith)
    go (some i) e =
        rw e
          (ground (arith, contains-append s.active (i ∷ []) id, nat_beq_iff i id, nat_beq_iff id i))

-- Some connection of the list is the account's.
abbrev pub any_of : Tables → ℕ → List Connection → Bool
any_of t id [] = false
any_of t id (c ∷ cs) = is_user_of t id c || any_of t id cs

collect_loop-listed :
    (t : Tables) (prev : List (Text × ConnSample)) (cs : List Connection) (s : Cycle) (id : ℕ)
    → contains (collect_loop t prev cs s).active id ≡ (contains s.active id || any_of t id cs)
unfolding collect_loop
collect_loop-listed t prev [] s id = ground arith
collect_loop-listed t prev (c ∷ cs) s id =
    ground
      (arith, collect_loop-listed t prev cs (collect_one t prev c s) id, listed_once t prev c s id)

-- The accounts that a cycle takes for active are exactly those with a connection.
pub collect_loop-active :
    (t : Tables) (prev : List (Text × ConnSample)) (cs : List Connection) (id : ℕ)
    → contains (collect_loop t prev cs empty_cycle).active id ≡ any_of t id cs
unfolding empty_cycle
collect_loop-active t prev cs id = collect_loop-listed t prev cs _ id

user_named-lookup :
    (name : Text) (users : List (ℕ × Text)) (id : ℕ)
    → user_named name users ≡ some id
    → any_pair id name users ≡ true
unfolding user_named
user_named-lookup name [] id h = cc
user_named-lookup name ((i, n) ∷ users) id h =
    ground (arith, user_named-lookup name users id, nat_beq_iff i id)

-- A connection is attributed only on evidence: the core authenticated a user of that very name, or
-- named none and the listener has that account as its only bound user.
pub attribute_evidence :
    (t : Tables) (c : Connection) (id : ℕ)
    → attribute t c ≡ some id
    → (((metadata_of c.metadata).inbound_user ≢ [])
        × (any_pair id (metadata_of c.metadata).inbound_user t.usernames ≡ true))
      ⊎ (((metadata_of c.metadata).inbound_user ≡ [])
          × ((listener : ℕ) × (listener_of t c.metadata ≡ some listener)
              × (lookup listener t.listener_users ≡ some (id ∷ []))))
unfolding attribute
attribute_evidence t c id h = elim (Bool-cases ((metadata_of c.metadata).inbound_user == [])) [
  | inl e ↦
      inr ((text_beq_iff _ []).0 e, sole_user_evidence t (listener_of t c.metadata) id (rw e at h))
  | inr e ↦ inl (beq-ne _ [] e, user_named-lookup _ t.usernames id (rw e at h))
]

-- The bytes that a counter reports over cycles, from the sample `prev` on.
abbrev pub deltas : ℤ → List ℕ → ℤ → ℤ
deltas prev [] sum = sum
deltas prev (x ∷ xs) sum = deltas (pos x) xs (sum +ℤ delta (pos x) prev)

abbrev Grows : ℕ → List ℕ → Type 0
Grows prev [] = Unit {0}
Grows prev (x ∷ xs) = (prev ≤ x) × (x < 2 ^ 63) × Grows x xs

abbrev last_of : ℕ → List ℕ → ℕ
last_of prev [] = prev
last_of prev (x ∷ xs) = last_of x xs

sub_grown : (x prev : ℕ) → prev ≤ x → pos x -ℤ pos prev ≡ pos (x - prev)
unfolding ◌-ℤ◌
sub_grown x prev h = ground arith

pub add_pos : (a b : ℕ) → pos a +ℤ pos b ≡ pos (a + b)
unfolding ◌+ℤ◌
add_pos a b = ground arith

le-last_of : (prev : ℕ) (xs : List ℕ) → Grows prev xs → prev ≤ last_of prev xs
le-last_of prev [] g = omega arith
le-last_of prev (x ∷ xs) g = omega (arith, le-last_of x xs g.2)

pub delta_grown : (x prev : ℕ) → prev ≤ x → x < 2 ^ 63 → delta (pos x) (pos prev) ≡ pos (x - prev)
unfolding delta
delta_grown x prev h k =
    rw (sub_grown x prev h, int64_fits (pos (x - prev)) (omega arith) (omega arith)) (ground arith)

-- While a connection's counter only grows, the deltas of the cycles add up to what it counted.
pub deltas-sum :
    (prev sum : ℕ) (xs : List ℕ)
    → Grows prev xs
    → deltas (pos prev) xs (pos sum) ≡ pos (sum + (last_of prev xs - prev))
deltas-sum prev sum [] g = ap pos (omega arith)
deltas-sum prev sum (x ∷ xs) g =
    rw (delta_grown x prev g.0 g.1, add_pos sum (x - prev))
      (deltas-sum x (sum + (x - prev)) xs g.2 ∙ ap pos (omega (arith, le-last_of x xs g.2)))
