-- ===== src/Traffic/Collector/Stored.antt =====
-- What the loop that writes the samples of a cycle adds to the stored counters
-- (backend/internal/traffic/collector.go).
use mathlib.Core.Option
use mathlib.Core.Path.{ap₂}
use m_ui.Base.{
  ℕ, true, false, ◌&&◌, List, [], ◌∷◌, Option, none, ◌≡◌, refl, ap, ◌∙◌, sym, inl, inr,
  if◌then◌else◌, ◌==◌, nat_eq, text_eq, nat_beq_iff, contains, arith, Bool-cases, beq_refl,
}
use m_ui.Base.Int.{pos, eqb_ℤ, eqb_ℤ-eq}
use m_ui.Base.Dict.{lookup}
use m_ui.Clock.{Time}
use m_ui.Store.{World, M, ignore, return}
use m_ui.User.Ids.{Distinct}
use m_ui.Traffic.Samples.{add_sample}
use m_ui.Traffic.Collector.Once.{persist_loop}
use m_ui.Traffic.Collector.{ConnSample, or_zero, no_sample}
use m_ui.Traffic.Collector.Runs.{
  Counters, counters_of, plus, Runs, Runs-bind, map-plus-no_sample, same_counters, add_sample-Runs,
}

abbrev pub keys : List (ℕ × ConnSample) → List ℕ
keys [] = []
keys ((id, s) ∷ rest) = id ∷ keys rest

lookup-absent :
    (j : ℕ) (ds : List (ℕ × ConnSample)) → contains (keys ds) j ≡ false → lookup j ds ≡ none
lookup-absent j [] h = refl
lookup-absent j ((id, s) ∷ rest) h =
    ground (arith, lookup-absent j rest, nat_beq_iff id j, nat_beq_iff j id)

-- The account's counters once the samples are added.
abbrev pub with_samples : ℕ → List (ℕ × ConnSample) → Option Counters → Option Counters
with_samples j ds o = Option.map (plus (or_zero (lookup j ds))) o

absent_sample :
    (j : ℕ) (ds : List (ℕ × ConnSample)) (o : Option Counters)
    → contains (keys ds) j ≡ false
    → with_samples j ds o ≡ o
absent_sample j ds o h =
    ap (λ x. Option.map (plus (or_zero x)) o) (lookup-absent j ds h) ∙ map-plus-no_sample o

one_sample :
    (j id : ℕ) (s : ConnSample) (rest : List (ℕ × ConnSample)) (o : Option Counters)
    → Distinct (id ∷ keys rest)
    → with_samples j rest (Option.map (λ c. if j == id then plus s c else c) o)
      ≡ with_samples j ((id, s) ∷ rest) o
one_sample j id s rest o d = elim (Bool-cases (j == id)) [
  | inl same ↦
      let e : j ≡ id = (nat_beq_iff j id).0 same in
      rw (e, beq_refl id) (absent_sample id rest (Option.map (plus s) o) d.0)
  | inr other ↦ rw (other, sym_beq other) (ap (with_samples j rest) (same_counters o))
]
  where
    sym_beq : (j == id) ≡ false → (id == j) ≡ false
    sym_beq h = ground (arith, h, nat_beq_iff id j, nat_beq_iff j id)

is_zero-sample :
    (s : ConnSample) → (eqb_ℤ s.upload (pos 0) && eqb_ℤ s.download (pos 0)) ≡ true → s ≡ no_sample
is_zero-sample s h =
    ap₂ (λ u d. record { upload = u; download = d }) (eqb_ℤ-eq s.upload (pos 0) (ground (arith, h)))
      (eqb_ℤ-eq s.download (pos 0) (ground (arith, h)))

zero_change :
    (j id : ℕ) (s : ConnSample) (o : Option Counters)
    → s ≡ no_sample
    → Option.map (λ c. if j == id then plus s c else c) o ≡ o
zero_change j id s o e = elim (Bool-cases (j == id)) [
  | inl same ↦ rw (same, e) (map-plus-no_sample o)
  | inr other ↦ rw other (same_counters o)
]

pub persist_loop-Runs :
    (now : Time) (ds : List (ℕ × ConnSample)) (j : ℕ) (w : World)
    → w.faults ≡ []
    → Distinct (keys ds)
    → Runs j (persist_loop now ds w) (with_samples j ds (counters_of j w.db))
unfolding persist_loop
persist_loop-Runs now [] j w clean d = (w, refl, clean, sym (map-plus-no_sample _))
persist_loop-Runs now ((id, s) ∷ rest) j w clean d =
    rw (← one_sample j id s rest (counters_of j w.db) d) (
      Runs-bind j write (persist_loop now rest) w
        (Option.map (λ c. if j == id then plus s c else c) (counters_of j w.db)) _ written
        (λ v c e. rw (← e) (persist_loop-Runs now rest j v c d.1)))
  where
    write : M (Unit {0})
    write =
        if eqb_ℤ s.upload (pos 0) && eqb_ℤ s.download (pos 0)
        then return tt
        else ignore (add_sample now id s.upload s.download true)

    written :
        Runs j (write w) (Option.map (λ c. if j == id then plus s c else c) (counters_of j w.db))
    written = elim (Bool-cases (eqb_ℤ s.upload (pos 0) && eqb_ℤ s.download (pos 0))) [
      | inl zero ↦
          rw zero
            (w, refl, clean, sym (zero_change j id s (counters_of j w.db) (is_zero-sample s zero)))
      | inr some_bytes ↦
          let r = add_sample-Runs now id j s w clean in rw (some_bytes, r.1) (r.0, refl, r.2, r.3)
    ]
