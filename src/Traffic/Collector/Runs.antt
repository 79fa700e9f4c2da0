-- ===== src/Traffic/Collector/Runs.antt =====
-- Which statements of a cycle change the stored counters (backend/internal/traffic/collector.go).
use mathlib.Core.Option
use m_ui.Base.{
  ℕ, Bool, true, false, not, ◌&&◌, List, [], ◌∷◌, Option, none, some, ◌≡◌, refl, ap, ◌∙◌, inl, inr,
  if◌then◌else◌, ◌==◌, nat_eq, text_eq, nat_beq_iff, int64, arith, Bool-cases, find?-true,
}
use m_ui.Base.Int.{ℤ, pos, ◌+ℤ◌, int_laws}
use m_ui.Clock.{Time}
use m_ui.Models.{Db, ProxyUser}
use m_ui.Store.{World, Outcome, done, M, ◌>>◌, exec, or_not_found}
use m_ui.Store.Laws.{exec_ok, first_ok}
use m_ui.Table.{is_user, find_user, update_users, find_user-update}
use m_ui.User.Active.{is_none}
use m_ui.User.FirstUse.{stamp, unstamped, touch_found, touch_first_use}
use m_ui.Traffic.Samples.{append_record, sampled, add_sample, is_unlisted, mark_offline}
use m_ui.Traffic.Collector.Once.{touch_loop}
use m_ui.Traffic.Collector.{ConnSample, no_sample}

abbrev pub Counters : Type 0
Counters = ℤ × ℤ × ℤ

abbrev pub counters : ProxyUser → Counters
counters u = (u.traffic_used, u.upload_bytes, u.download_bytes)

-- The counters of the live account with that id.
abbrev pub counters_of : ℕ → Db → Option Counters
counters_of j db = Option.map counters (find_user j db)

abbrev pub plus : ConnSample → Counters → Counters
plus s c = (c.0 +ℤ int64 (s.upload +ℤ s.download), c.1 +ℤ s.upload, c.2 +ℤ s.download)

-- The call succeeds, no later statement fails, and the account's counters are the given ones.
abbrev pub Runs : ℕ → Outcome (Unit {0}) → Option Counters → Type 0
Runs j o x = (v : World) × (o ≡ done tt v) × (v.faults ≡ []) × (counters_of j v.db ≡ x)

pub Runs-bind :
    (j : ℕ) (m k : M (Unit {0})) (w : World) (x y : Option Counters)
    → Runs j (m w) x
    → ((v : World) → v.faults ≡ [] → counters_of j v.db ≡ x → Runs j (k v) y)
    → Runs j ((m >> k) w) y
Runs-bind j m k w x y r f = rw r.1 (f r.0 r.2 r.3)

counters_of-update :
    (j : ℕ) (p : ProxyUser → Bool) (f : ProxyUser → ProxyUser) (g : Counters → Counters) (db : Db)
    → ((u : ProxyUser) → is_user j (f u) ≡ is_user j u)
    → ((u : ProxyUser)
        → is_user j u ≡ true
        → counters (if not u.deleted && p u then f u else u) ≡ g (counters u))
    → counters_of j (update_users p f db) ≡ Option.map g (counters_of j db)
counters_of-update j p f g db same h =
    ap (Option.map counters) (find_user-update j p f db same) ∙ row (find_user j db) refl
  where
    row :
        (o : Option ProxyUser)
        → find_user j db ≡ o
        → Option.map counters (Option.map (λ u. if not u.deleted && p u then f u else u) o)
          ≡ Option.map g (Option.map counters o)
    row none e = refl
    row (some u) e = ap some (h u (find?-true (is_user j) db.users u e))

zero_right : (a : ℤ) → a +ℤ pos 0 ≡ a
zero_right a = grind int_laws

pub same_counters : (o : Option Counters) → Option.map (λ c. c) o ≡ o
same_counters none = refl
same_counters (some c) = refl

zero_sum : int64 (pos 0 +ℤ pos 0) ≡ pos 0
unfolding int64 ◌+ℤ◌
zero_sum = refl

plus-no_sample : (c : Counters) → plus no_sample c ≡ c
plus-no_sample c =
    triple (ap (λ z. c.0 +ℤ z) zero_sum ∙ zero_right c.0) (zero_right c.1) (zero_right c.2)
  where
    triple :
        {x y z x' y' z' : ℤ} → x ≡ x' → y ≡ y' → z ≡ z' → ◌≡◌ {A = Counters} (x, y, z) (x', y', z')
    triple h k m = cc (h, k, m)

pub map-plus-no_sample : (o : Option Counters) → Option.map (plus no_sample) o ≡ o
map-plus-no_sample none = refl
map-plus-no_sample (some c) = ap some (plus-no_sample c)

-- One statement that leaves the counters alone.
kept :
    (j : ℕ) (p : ProxyUser → Bool) (f : ProxyUser → ProxyUser) (w : World)
    → w.faults ≡ []
    → ((u : ProxyUser) → is_user j (f u) ≡ is_user j u)
    → ((u : ProxyUser) → counters (f u) ≡ counters u)
    → Runs j (exec (update_users p f) w) (counters_of j w.db)
kept j p f w clean same h = (
  record w { db = update_users p f w.db },
  exec_ok (update_users p f) w clean,
  clean,
  counters_of-update j p f (λ c. c) w.db same (λ u _. either u (not u.deleted && p u))
      ∙ same_counters (counters_of j w.db),
)
  where
    either : (u : ProxyUser) (b : Bool) → counters (if b then f u else u) ≡ counters u
    either u true = h u
    either u false = refl

touch-Runs :
    (now : Time) (id j : ℕ) (w : World)
    → w.faults ≡ []
    → Runs j (touch_first_use now id w) (counters_of j w.db)
unfolding touch_first_use stamp
touch-Runs now id j w clean = elim (Bool-cases (id == 0)) [
  | inl e ↦ rw e (w, refl, clean, refl)
  | inr e ↦ rw (e, first_ok (find_user id) w clean) (go (find_user id w.db))
]
  where
    go :
        (o : Option ProxyUser) → Runs j (touch_found now id (or_not_found o w)) (counters_of j w.db)
    go none = (w, refl, clean, refl)
    go (some u) = elim (Bool-cases (is_none u.first_connected_at)) [
      | inl fresh ↦
          let r = kept j (unstamped id) (stamp now u) w clean (λ v. refl) (λ v. refl) in
          rw (fresh, r.1) (r.0, refl, r.2, r.3)
      | inr used ↦ rw used (w, refl, clean, refl)
    ]

pub touch_loop-Runs :
    (now : Time) (ids : List ℕ) (j : ℕ) (w : World)
    → w.faults ≡ []
    → Runs j (touch_loop now ids w) (counters_of j w.db)
unfolding touch_loop
touch_loop-Runs now [] j w clean = (w, refl, clean, refl)
touch_loop-Runs now (id ∷ ids) j w clean =
    Runs-bind j (touch_first_use now id) (touch_loop now ids) w _ _ (touch-Runs now id j w clean)
      (λ v c e. rw (← e) (touch_loop-Runs now ids j v c))

pub mark_offline-Runs :
    (active : List ℕ) (j : ℕ) (w : World)
    → w.faults ≡ []
    → Runs j (mark_offline active w) (counters_of j w.db)
unfolding mark_offline
mark_offline-Runs active j w clean =
    kept j (λ u. u.online && is_unlisted active u) (λ u. record u { online = false }) w clean
      (λ u. refl) (λ u. refl)

-- A sample adds to the counters of its account alone.
pub add_sample-Runs :
    (now : Time) (id j : ℕ) (s : ConnSample) (w : World)
    → w.faults ≡ []
    → Runs j
        (add_sample now id s.upload s.download true w)
        (Option.map (λ c. if j == id then plus s c else c) (counters_of j w.db))
unfolding add_sample append_record sampled
add_sample-Runs now id j s w clean =
    rw (exec_ok (append_record id s.upload s.download true) w clean) (
      record w { db = update_users (λ u. u.id == id) change db },
      exec_ok (update_users (λ u. u.id == id) change) (record w { db = db }) clean,
      clean,
      counters_of-update j (λ u. u.id == id) change (λ c. if j == id then plus s c else c) db
          (λ u. refl) row,
    )
  where
    db : Db
    db = append_record id s.upload s.download true w.db

    change : ProxyUser → ProxyUser
    change = sampled now s.upload s.download true

    row :
        (u : ProxyUser)
        → is_user j u ≡ true
        → counters (if not u.deleted && u.id == id then change u else u)
          ≡ (if j == id then plus s (counters u) else counters u)
    row u its = ap (λ b. counters (if b then change u else u)) same ∙ either (j == id)
      where
        same : (not u.deleted && u.id == id) ≡ (j == id)
        same = ground (arith, its, nat_beq_iff u.id j)

        either :
            (b : Bool)
            → counters (if b then change u else u) ≡ (if b then plus s (counters u) else counters u)
        either true = refl
        either false = refl
