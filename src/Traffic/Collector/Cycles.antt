-- ===== src/Traffic/Collector/Cycles.antt =====
-- A whole cycle of the collector: what it adds to the stored counters, and what it keeps for the next
-- cycle (backend/internal/traffic/collector.go).
use mathlib.Core.Option
use m_ui.Base.{
  ℕ, ◌+◌, ◌<◌, ◌^◌, ◌||◌, List, [], ◌∷◌, Option, none, some, ◌≡◌, refl, ap, ◌∙◌, if◌then◌else◌,
  ◌==◌, nat_eq, text_eq, nat_beq_iff, contains, Text, int64, int64_fits, arith,
}
use m_ui.Base.Int.{ℤ, pos, ◌+ℤ◌}
use m_ui.Base.Dict.{lookup, insert, lookup-insert}
use m_ui.Clock.{Time}
use m_ui.Store.{World, done, ◌>>◌}
use m_ui.Store.Laws.{select_ok}
use m_ui.User.Ids.{Distinct}
use m_ui.Traffic.Samples.{mark_offline}
use m_ui.Traffic.Rate.{Division}
use m_ui.Traffic.Collector.{
  Connection, ConnSample, Tables, Cycle, attribute, or_zero, collect_one, collect_loop, empty_cycle,
  credit, up_delta, down_delta,
}
use m_ui.Traffic.Collector.Accounting.{add_pos}
use m_ui.Traffic.Collector.Once.{
  Answer, Collector, load_tables, tables_of, record_cycle, collect_once, persist_loop, touch_loop,
  live_listeners, live_bindings, live_users,
}
use m_ui.Traffic.Collector.Credit.{AreCounters, uploaded, downloaded, sample, collect_loop-moved}
use m_ui.Traffic.Collector.Runs.{
  Counters, counters_of, plus, Runs, Runs-bind, touch_loop-Runs, mark_offline-Runs,
}
use m_ui.Traffic.Collector.Stored.{keys, with_samples, persist_loop-Runs}

contains-keys-insert :
    (k j : ℕ) (s : ConnSample) (m : List (ℕ × ConnSample))
    → contains (keys (insert k s m)) j ≡ (j == k || contains (keys m) j)
contains-keys-insert k j s [] = ground arith
contains-keys-insert k j s ((i, t) ∷ m) =
    ground (arith, contains-keys-insert k j s m, nat_beq_iff i k)

insert-Distinct :
    (k : ℕ) (s : ConnSample) (m : List (ℕ × ConnSample))
    → Distinct (keys m)
    → Distinct (keys (insert k s m))
insert-Distinct k s [] d = (refl, tt)
insert-Distinct k s ((i, t) ∷ m) d =
    ground (arith, contains-keys-insert k i s m, insert-Distinct k s m d.1, d.0)

collect_one-Distinct :
    (t : Tables) (prev : List (Text × ConnSample)) (c : Connection) (s : Cycle)
    → Distinct (keys s.user_deltas)
    → Distinct (keys (collect_one t prev c s).user_deltas)
unfolding collect_one
collect_one-Distinct t prev c s d = go (attribute t c)
  where
    go :
        (o : Option ℕ)
        → Distinct (keys (credit o (up_delta prev c) (down_delta prev c) s).user_deltas)
    go none = d
    go (some id) = insert-Distinct id _ s.user_deltas d

collect_loop-Distinct :
    (t : Tables) (prev : List (Text × ConnSample)) (cs : List Connection) (s : Cycle)
    → Distinct (keys s.user_deltas)
    → Distinct (keys (collect_loop t prev cs s).user_deltas)
unfolding collect_loop
collect_loop-Distinct t prev [] s d = d
collect_loop-Distinct t prev (c ∷ cs) s d =
    collect_loop-Distinct t prev cs (collect_one t prev c s) (collect_one-Distinct t prev c s d)

-- The counters that the last connection with this id reports.
abbrev pub last_reading : Text → Option ConnSample → List Connection → Option ConnSample
last_reading k old [] = old
last_reading k old (c ∷ cs) =
    last_reading k
      (if c.id == k then some (record { upload = c.upload; download = c.download }) else old) cs

collect_loop-reading :
    (t : Tables) (prev : List (Text × ConnSample)) (cs : List Connection) (s : Cycle) (k : Text)
    → lookup k (collect_loop t prev cs s).next_prev ≡ last_reading k (lookup k s.next_prev) cs
unfolding collect_loop collect_one
collect_loop-reading t prev [] s k = refl
collect_loop-reading t prev (c ∷ cs) s k =
    collect_loop-reading t prev cs (collect_one t prev c s) k
    ∙ ap (λ o. last_reading k o cs)
        (lookup-insert c.id k (record { upload = c.upload; download = c.download }) s.next_prev)

-- The account's counters once `up` and `down` bytes are added.
abbrev pub grown : ℕ → ℕ → Counters → Counters
grown up down c = (c.0 +ℤ pos (up + down), c.1 +ℤ pos up, c.2 +ℤ pos down)

plus-grown :
    (up down : ℕ) (o : Option Counters)
    → up + down < 2 ^ 63
    → Option.map (plus (sample up down)) o ≡ Option.map (grown up down) o
plus-grown up down none h = refl
plus-grown up down (some c) h =
    ap (λ z. some (c.0 +ℤ z, c.1 +ℤ pos up, c.2 +ℤ pos down))
      (ap int64 (add_pos up down) ∙ int64_fits (pos (up + down)) (omega arith) (omega arith))

-- The loops that write the cycle.
written :
    (now : Time) (s : Cycle) (j : ℕ) (w : World)
    → w.faults ≡ []
    → Distinct (keys s.user_deltas)
    → Runs j
        (((persist_loop now s.user_deltas >> touch_loop now s.active) >> mark_offline s.active) w)
        (with_samples j s.user_deltas (counters_of j w.db))
written now s j w clean d =
    Runs-bind j (persist_loop now s.user_deltas >> touch_loop now s.active) (mark_offline s.active)
      w (with_samples j s.user_deltas (counters_of j w.db)) _
      (Runs-bind j (persist_loop now s.user_deltas) (touch_loop now s.active) w
        (with_samples j s.user_deltas (counters_of j w.db)) _
        (persist_loop-Runs now s.user_deltas j w clean d)
        (λ v c e. rw (← e) (touch_loop-Runs now s.active j v c)))
      (λ v c e. rw (← e) (mark_offline-Runs s.active j v c))

-- With no statement failing, a cycle that gets the core's answer succeeds. It adds to the stored
-- counters of each live account the bytes that the connections attributed to it moved since the
-- readings that the collector kept (all the bytes of a connection that is new or whose counter
-- fell), and to no other; and it keeps for the next cycle the reading of each connection of the
-- answer, and no other. The counters are not negative, and the account's bytes of one cycle fit
-- `int64`.
pub collect_once-credits :
    (d : Division) (now : Time) (a : Answer) (rates : Option (ℤ × ℤ)) (c : Collector) (w : World)
    (j : ℕ) (k : Text)
    → w.faults ≡ []
    → AreCounters c.prev_conn a.connections
    → uploaded (tables_of w.db) c.prev_conn j a.connections
        + downloaded (tables_of w.db) c.prev_conn j a.connections
      < 2 ^ 63
    → (c' : Collector) × (v : World) × (collect_once d now (some a) rates c w ≡ done c' v)
      × (counters_of j v.db
          ≡ Option.map
              (grown
                (uploaded (tables_of w.db) c.prev_conn j a.connections)
                (downloaded (tables_of w.db) c.prev_conn j a.connections))
              (counters_of j w.db))
      × (lookup k c'.prev_conn ≡ last_reading k none a.connections)
unfolding collect_once load_tables record_cycle empty_cycle
collect_once-credits d now a rates c w j k clean n h =
    rw
      (
        select_ok live_listeners w clean,
        select_ok live_bindings w clean,
        select_ok live_users w clean,
        r.1,
      )
      (
        _,
        r.0,
        refl,
        r.3
            ∙ ap (λ s. Option.map (plus s) (counters_of j w.db)) moved
            ∙ plus-grown up down (counters_of j w.db) h,
        collect_loop-reading t c.prev_conn a.connections empty_cycle k,
      )
  where
    t : Tables
    t = tables_of w.db

    up : ℕ
    up = uploaded t c.prev_conn j a.connections

    down : ℕ
    down = downloaded t c.prev_conn j a.connections

    s : Cycle
    s = collect_loop t c.prev_conn a.connections empty_cycle

    r :
        Runs j
          (((persist_loop now s.user_deltas >> touch_loop now s.active) >> mark_offline s.active) w)
          (with_samples j s.user_deltas (counters_of j w.db))
    r = written now s j w clean (collect_loop-Distinct t c.prev_conn a.connections empty_cycle tt)

    moved : or_zero (lookup j s.user_deltas) ≡ sample up down
    moved = collect_loop-moved t c.prev_conn a.connections j n (omega (arith, h)) (omega (arith, h))
