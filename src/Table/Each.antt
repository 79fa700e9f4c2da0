-- ===== src/Table/Each.antt =====
-- Reading rows and writing each back by its primary key does what one UPDATE of those rows does.
use mathlib.Core.Path.{ap₂}
use m_ui.Base.{
  ℕ, Bool, true, false, not, ◌&&◌, List, [], ◌∷◌, ◌≡◌, refl, ◌∙◌, ap, inl, inr, if◌then◌else◌,
  arith, ◌==◌, nat_eq, nat_beq_iff, contains, map, filter, map_where, Bool-cases,
}
use m_ui.Models.{ProxyUser}
use m_ui.User.Ids.{Distinct}

abbrev pub ids_of : List ProxyUser → List ℕ
ids_of [] = []
ids_of (u ∷ us) = u.id ∷ ids_of us

-- The live row with the primary key of `u`.
abbrev has_id_of : ProxyUser → ProxyUser → Bool
has_id_of u v = not v.deleted && v.id == u.id

-- A loop over rows `u` that were read, each writing `change u` to the row with its key.
abbrev pub write_each :
    (ProxyUser → ProxyUser → ProxyUser) → List ProxyUser → List ProxyUser → List ProxyUser
write_each change [] rows = rows
write_each change (u ∷ us) rows = write_each change us (map_where (has_id_of u) (change u) rows)

-- A write does not touch the key or the mark of a row.
pub record KeepsKey (change : ProxyUser → ProxyUser → ProxyUser) : Type 0 where
  pub same_id : (u v : ProxyUser) → (change u v).id ≡ v.id
  pub same_mark : (u v : ProxyUser) → (change u v).deleted ≡ v.deleted

map-id : (rows : List ProxyUser) → rows ≡ map (λ v. v) rows
map-id [] = refl
map-id (v ∷ rows) = ap (◌∷◌ v) (map-id rows)

contains-ids_of-filter :
    (p : ProxyUser → Bool) (rows : List ProxyUser) (i : ℕ)
    → contains (ids_of rows) i ≡ false
    → contains (ids_of (filter p rows)) i ≡ false
contains-ids_of-filter p [] i h = refl
contains-ids_of-filter p (v ∷ rows) i h = ground (arith, contains-ids_of-filter p rows i)

Distinct-filter :
    (p : ProxyUser → Bool) (rows : List ProxyUser)
    → Distinct (ids_of rows)
    → Distinct (ids_of (filter p rows))
Distinct-filter p [] d = tt
Distinct-filter p (v ∷ rows) d =
    ground (arith, Distinct-filter p rows d.1, contains-ids_of-filter p rows v.id d.0)

filter-true :
    (p : ProxyUser → Bool) (v : ProxyUser) (rows : List ProxyUser)
    → p v ≡ true
    → filter p (v ∷ rows) ≡ v ∷ filter p rows
filter-true p v rows e = rw e

filter-false :
    (p : ProxyUser → Bool) (v : ProxyUser) (rows : List ProxyUser)
    → p v ≡ false
    → filter p (v ∷ rows) ≡ filter p rows
filter-false p v rows e = rw e

-- A second selection among the live rows that were selected.
pub filter-filter :
    (p q : ProxyUser → Bool) (rows : List ProxyUser)
    → filter q (filter (λ v. not v.deleted && p v) rows)
      ≡ filter (λ v. not v.deleted && (p v && q v)) rows
filter-filter p q [] = refl
filter-filter p q (v ∷ rows) = ground (arith, filter-filter p q rows)

module _ (change : ProxyUser → ProxyUser → ProxyUser) (keeps : KeepsKey change) where
  row_after : List ProxyUser → ProxyUser → ProxyUser
  row_after [] v = v
  row_after (u ∷ us) v = if has_id_of u v then change u v else row_after us v

  row_after-absent :
      (us : List ProxyUser) (v : ProxyUser) → contains (ids_of us) v.id ≡ false → row_after us v ≡ v
  unfolding row_after
  row_after-absent [] v h = refl
  row_after-absent (u ∷ us) v h = ground (arith, row_after-absent us v)

  row_after-changed :
      (u : ProxyUser) (us : List ProxyUser) (v : ProxyUser)
      → contains (ids_of us) u.id ≡ false
      → row_after us (if has_id_of u v then change u v else v) ≡ row_after (u ∷ us) v
  unfolding row_after
  row_after-changed u us v h = elim (Bool-cases (has_id_of u v)) [
    | inl e ↦ rw e (
        row_after-absent us (change u v)
          (rw (keeps.same_id u v) (ground (arith, nat_beq_iff v.id u.id))))
    | inr e ↦ rw e
  ]

  write_each-map :
      (us rows : List ProxyUser)
      → Distinct (ids_of us)
      → write_each change us rows ≡ map (row_after us) rows
  unfolding row_after
  write_each-map [] rows d = map-id rows
  write_each-map (u ∷ us) rows d =
      write_each-map us (map_where (has_id_of u) (change u) rows) d.1 ∙ go rows
    where
      go :
          (rs : List ProxyUser)
          → map (row_after us) (map_where (has_id_of u) (change u) rs) ≡ map (row_after (u ∷ us)) rs
      go [] = refl
      go (v ∷ rs) = ap₂ ◌∷◌ (row_after-changed u us v d.0) (go rs)

  -- Over the rows behind `v`, the rows that were read count alone.
  map-row_after :
      (us : List ProxyUser) (u : ProxyUser) (rows : List ProxyUser)
      → contains (ids_of rows) u.id ≡ false
      → map (row_after (u ∷ us)) rows ≡ map (row_after us) rows
  unfolding row_after
  map-row_after us u [] h = refl
  map-row_after us u (v ∷ rows) h =
      ap₂ ◌∷◌ (ground (arith, nat_beq_iff v.id u.id, nat_beq_iff u.id v.id))
        (map-row_after us u rows (ground arith))

  map-row_after-filter :
      (sel : ProxyUser → Bool) (rows : List ProxyUser)
      → Distinct (ids_of rows)
      → map (row_after (filter (λ v. not v.deleted && sel v) rows)) rows
        ≡ map_where (λ v. not v.deleted && sel v) (λ v. change v v) rows
  unfolding row_after
  map-row_after-filter sel [] d = refl
  map-row_after-filter sel (v ∷ rows) d = elim (Bool-cases (not v.deleted && sel v)) [
    | inl e ↦
        ap (λ us. map (row_after us) (v ∷ rows)) (filter-true _ v rows e)
        ∙ ap₂ ◌∷◌ (ground (arith, nat_beq_iff v.id v.id)) (
            map-row_after (filter (λ x. not x.deleted && sel x) rows) v rows d.0
            ∙ map-row_after-filter sel rows d.1)
    | inr e ↦
        ap (λ us. map (row_after us) (v ∷ rows)) (filter-false _ v rows e)
        ∙ ap₂ ◌∷◌ (row_after-absent _ v (contains-ids_of-filter _ rows v.id d.0) ∙ ground arith)
            (map-row_after-filter sel rows d.1)
  ]

  -- Where ids are primary keys, the loop over the selected live rows changes each of them by its
  -- own old contents, and no other row.
  pub write_each-filter :
      (sel : ProxyUser → Bool) (rows : List ProxyUser)
      → Distinct (ids_of rows)
      → write_each change (filter (λ v. not v.deleted && sel v) rows) rows
        ≡ map_where (λ v. not v.deleted && sel v) (λ v. change v v) rows
  write_each-filter sel rows d =
      write_each-map (filter (λ v. not v.deleted && sel v) rows) rows (Distinct-filter _ rows d)
      ∙ map-row_after-filter sel rows d
