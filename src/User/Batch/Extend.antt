-- ===== src/User/Batch/Extend.antt =====
-- The loops of `Batch` that read rows and write them back one by one do what one UPDATE does.
use mathlib.Core.Path.{fun_ext}
use m_ui.Base.{
  ℕ, ◌+◌, ◌≤◌, ◌*◌, Bool, true, false, not, ◌&&◌, List, [], ◌∷◌, none, ◌≡◌, refl, sym, ap, ◌∙◌, ◌⊎◌,
  inl, inr, arith, ◌==◌, nat_eq, contains, length, filter, map_where, Bool-cases, int64,
  if◌then◌else◌,
}
use m_ui.Base.Int.{ℤ, pos, ◌+ℤ◌, leb_ℤ, ◌≤ℤ◌, +ℤ_parts, eqb_ℤ-eq, eq_of_parts}
use m_ui.Clock.{Time, zero_time, is_zero, is_before, days_fits, day_nanos}
use m_ui.Models.{ProxyUser}
use m_ui.Store.{World}
use m_ui.Store.Laws.{select-Post}
use m_ui.Table.{users_where}
use m_ui.Table.Each.{ids_of, write_each, KeepsKey, write_each-filter, filter-filter}
use m_ui.User.Ids.{Distinct, clean_ids, clean_ids_lem}
use m_ui.User.Batch.{
  Report, BatchOpts, batch_extend_days, batch_add_traffic, in_ids, extended, gibibytes, with_ids,
  batch_clean, batch,
}
use m_ui.User.Batch.Loops.{
  Wrote, new_expire, extend_loop-Wrote, new_limit, is_limited, add_traffic_loop-Wrote,
  with_rows-Wrote,
}

-- The rows that a request names.
abbrev pub named : List ℕ → ProxyUser → Bool
named ids u = not (u.id == 0) && contains ids u.id

named_clean : (ids : List ℕ) → in_ids (clean_ids ids) ≡ named ids
named_clean ids = fun_ext (λ u. (clean_ids_lem ids).1 u.id)

new_expire-KeepsKey : (base : Time) (n : ℤ) → KeepsKey (new_expire base n)
new_expire-KeepsKey base n = record { same_id = λ u v. refl; same_mark = λ u v. refl }

new_limit-KeepsKey : (add : ℤ) → KeepsKey (new_limit add)
new_limit-KeepsKey add = record { same_id = λ u v. refl; same_mark = λ u v. refl }

batch_clean-extend :
    (now : Time) (ids : List ℕ) (opts : BatchOpts) (w : World)
    → Wrote
        (new_expire now opts.days)
        (users_where (in_ids ids) w.db)
        0
        w.db.users
        (batch_clean now batch_extend_days ids opts w)
unfolding batch_clean
batch_clean-extend now ids opts w = elim (Bool-cases (leb_ℤ opts.days (pos 0))) [
  | inl e ↦ rw e (λ fine. cc)
  | inr e ↦ rw e (
      with_rows-Wrote (new_expire now opts.days) (λ us. us) (in_ids ids) w.db _ _ (select-Post _ w)
        (λ us v. extend_loop-Wrote now opts.days us 0 v))
]

batch_clean-add_traffic :
    (now : Time) (ids : List ℕ) (opts : BatchOpts) (w : World)
    → Wrote
        (new_limit (gibibytes opts.traffic_gb))
        (filter is_limited (users_where (in_ids ids) w.db))
        0
        w.db.users
        (batch_clean now batch_add_traffic ids opts w)
unfolding batch_clean
batch_clean-add_traffic now ids opts w = elim (Bool-cases (leb_ℤ opts.traffic_gb (pos 0))) [
  | inl e ↦ rw e (λ fine. cc)
  | inr e ↦ rw e (
      with_rows-Wrote (new_limit (gibibytes opts.traffic_gb)) (filter is_limited) (in_ids ids) w.db
        _ _ (select-Post _ w) (λ us v. add_traffic_loop-Wrote (gibibytes opts.traffic_gb) us 0 v))
]

-- A request that gets past the first guard is handled on its cleaned ids.
with_ids-open :
    (ids : List ℕ) (k : List ℕ → World → Report) (w : World)
    → (with_ids ids k w).error ≡ none
    → with_ids ids k w ≡ k ids w
with_ids-open [] k w h = cc
with_ids-open (i ∷ ids) k w h = refl

-- The later of two times.
abbrev pub later_of : Time → Time → Time
later_of t u = if leb_ℤ t u then u else t

extended-later_of :
    (now expire : Time) (n : ℕ)
    → n ≤ 106751
    → pos 0 ≤ℤ now
    → extended now (pos n) expire ≡ later_of now expire +ℤ pos (n * day_nanos)
unfolding extended
extended-later_of now expire n few since =
    rw (days_fits n few) (ap (λ t. t +ℤ pos (n * day_nanos)) start)
  where
    start :
        (if not (is_zero expire) && is_before now expire then expire else now) ≡ later_of now expire
    start = ground (arith, eqb_ℤ-eq expire zero_time, eq_of_parts now expire)

batch-extended :
    (now : Time) (ids : List ℕ) (opts : BatchOpts) (w : World)
    → Distinct (ids_of w.db.users)
    → (batch now batch_extend_days ids opts w).error ≡ none
    → ((batch now batch_extend_days ids opts w).world.db.users
        ≡ map_where
            (λ u. not u.deleted && named ids u)
            (λ u. record u { expire_time = extended now opts.days u.expire_time })
            w.db.users)
      × ((batch now batch_extend_days ids opts w).count ≡ length (users_where (named ids) w.db))
unfolding batch
batch-extended now ids opts w keys fine =
    let handled =
      with_ids-open (clean_ids ids) (λ clean v. batch_clean now batch_extend_days clean opts v) w
        fine in
    let (users, n) =
      batch_clean-extend now (clean_ids ids) opts w (ap (λ r. r.error) (sym handled) ∙ fine) in
    (
      ap (λ r. r.world.db.users) handled
          ∙ users
          ∙ write_each-filter (new_expire now opts.days) (new_expire-KeepsKey now opts.days)
              (in_ids (clean_ids ids)) w.db.users keys
          ∙ ap
              (λ p.
                map_where (λ u. not u.deleted && p u) (λ u. new_expire now opts.days u u)
                  w.db.users)
              (named_clean ids),
      ap (λ r. r.count) handled
          ∙ n
          ∙ ap (λ p. 0 + length (users_where p w.db)) (named_clean ids)
          ∙ omega arith,
    )

nanos : (n : ℕ) → n * day_nanos ≡ n * 86400 * 1000000000
nanos n = omega arith

-- A batch that extends by `n` days and reports no error gives each live account that the request
-- names the expiry `n` times 86400 seconds after its old one, or after now where the old one is unset
-- or past; it changes no other account, and counts the accounts. Ids are primary keys, the clock is
-- not before the zero time, and `n` is at most 106751.
pub batch-extend_days :
    (now : Time) (ids : List ℕ) (opts : BatchOpts) (n : ℕ) (w : World)
    → Distinct (ids_of w.db.users)
    → opts.days ≡ pos n
    → n ≤ 106751
    → pos 0 ≤ℤ now
    → (batch now batch_extend_days ids opts w).error ≡ none
    → ((batch now batch_extend_days ids opts w).world.db.users
        ≡ map_where
            (λ u. not u.deleted && named ids u)
            (λ u. record u {
              expire_time = later_of now u.expire_time +ℤ pos (n * 86400 * 1000000000);
            })
            w.db.users)
      × ((batch now batch_extend_days ids opts w).count ≡ length (users_where (named ids) w.db))
batch-extend_days now ids opts n w keys days_n few since fine =
    let done = batch-extended now ids opts w keys fine in
    (
      done.0
          ∙ ap (λ f. map_where (λ u. not u.deleted && named ids u) f w.db.users)
              (fun_ext (λ u.
                ap (λ t. record u { expire_time = t })
                  (ap (λ d. extended now d u.expire_time) days_n
                    ∙ extended-later_of now u.expire_time n few since
                    ∙ ap (λ d. later_of now u.expire_time +ℤ pos d) (nanos n)))),
      done.1,
    )

-- A batch that adds traffic and reports no error raises the quota of each live account that the
-- request names and that has one, by the requested gibibytes in `int64` arithmetic; an unlimited
-- account stays unlimited, no other account changes, and the accounts that were raised are counted.
pub batch-add_traffic :
    (now : Time) (ids : List ℕ) (opts : BatchOpts) (w : World)
    → Distinct (ids_of w.db.users)
    → (batch now batch_add_traffic ids opts w).error ≡ none
    → ((batch now batch_add_traffic ids opts w).world.db.users
        ≡ map_where
            (λ u. not u.deleted && (named ids u && is_limited u))
            (λ u. record u { traffic_limit = int64 (u.traffic_limit +ℤ gibibytes opts.traffic_gb) })
            w.db.users)
      × ((batch now batch_add_traffic ids opts w).count
          ≡ length (users_where (λ u. named ids u && is_limited u) w.db))
unfolding batch
batch-add_traffic now ids opts w keys fine =
    let handled =
      with_ids-open (clean_ids ids) (λ clean v. batch_clean now batch_add_traffic clean opts v) w
        fine in
    let add = gibibytes opts.traffic_gb in
    let (users, n) =
      batch_clean-add_traffic now (clean_ids ids) opts w (ap (λ r. r.error) (sym handled) ∙ fine) in
    let both = filter-filter (in_ids (clean_ids ids)) is_limited w.db.users in
    (
      ap (λ r. r.world.db.users) handled
          ∙ users
          ∙ ap (λ us. write_each (new_limit add) us w.db.users) both
          ∙ write_each-filter (new_limit add) (new_limit-KeepsKey add)
              (λ u. in_ids (clean_ids ids) u && is_limited u) w.db.users keys
          ∙ ap
              (λ p.
                map_where (λ u. not u.deleted && (p u && is_limited u)) (λ u. new_limit add u u)
                  w.db.users)
              (named_clean ids),
      ap (λ r. r.count) handled
          ∙ n
          ∙ ap (λ us. 0 + length us) both
          ∙ ap (λ p. 0 + length (users_where (λ u. p u && is_limited u) w.db)) (named_clean ids)
          ∙ omega arith,
    )

-- Extending by up to 106751 days never brings an expiry forward, and leaves at least the given
-- number of days from now.
pub extended_bounds :
    (now expire : Time) (n : ℕ)
    → n ≤ 106751
    → (now +ℤ pos (n * day_nanos) ≤ℤ extended now (pos n) expire)
      × ((expire ≡ zero_time) ⊎ (expire ≤ℤ extended now (pos n) expire))
unfolding extended
extended_bounds now expire n few =
    rw (days_fits n few) (elim (Bool-cases (not (is_zero expire) && is_before now expire)) [
      | inl e ↦ rw e (
        ground (arith, +ℤ_parts now (pos (n * day_nanos)), +ℤ_parts expire (pos (n * day_nanos))),
        inr (omega (arith, +ℤ_parts expire (pos (n * day_nanos)))),
      )
      | inr e ↦ rw e (omega arith, unset (is_zero expire) refl e)
    ])
  where
    later : expire ≤ℤ now → expire ≤ℤ now +ℤ pos (n * day_nanos)
    later h = omega (arith, +ℤ_parts now (pos (n * day_nanos)))

    unset :
        (z : Bool)
        → is_zero expire ≡ z
        → (not (is_zero expire) && is_before now expire) ≡ false
        → (expire ≡ zero_time) ⊎ (expire ≤ℤ now +ℤ pos (n * day_nanos))
    unset true h e = inl (eqb_ℤ-eq expire zero_time h)
    unset false h e = inr (later (ground arith))
