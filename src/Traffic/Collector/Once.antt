-- ===== src/Traffic/Collector/Once.antt =====
-- `CollectOnce` and the tables that it loads, around the loop over the connections. The core's two
-- answers are arguments: `none` is an error of the request. A call that fails keeps the collector.
use m_ui.Base.{
  ℕ, true, not, ◌&&◌, List, [], ◌∷◌, ◌++◌, Option, none, some, ◌≡◌, sym, ap, ◌∙◌, if◌then◌else◌,
  nat_eq, text_eq, Text, length, filter, All, All-mono,
}
use m_ui.Base.Int.{ℤ, pos, eqb_ℤ}
use m_ui.Base.Dict.{lookup, insert}
use m_ui.Clock.{Time}
use m_ui.Models.{Db, ProxyUser, ListenerUser, Listener}
use m_ui.Store.{
  World, Outcome, done, failed, M, ◌>>=◌, ◌>>◌, return, fail, select, ignore, Error, fetch_error,
}
use m_ui.Store.Laws.{Post, Post-bind, Post-mono, select-Post}
use m_ui.Table.{users_where}
use m_ui.User.FirstUse.{touch_first_use}
use m_ui.Traffic.Samples.{add_sample, mark_offline, mark_offline-online}
use m_ui.Traffic.Rate.{Service, Division, update, apply_sample}
use m_ui.Traffic.Collector.Accounting.{any_of, collect_loop-active}
use m_ui.Traffic.Collector.{
  Connection, ConnSample, ConnectionView, Tables, collect_loop, empty_cycle,
}

pub record Answer : Type 0 where
  pub upload_total : ℤ
  pub download_total : ℤ
  pub connections : List Connection

pub record Collector : Type 0 where
  pub prev_conn : List (Text × ConnSample)
  pub last_connections : List ConnectionView
  pub last_listener_name : List (ℕ × Text)
  pub svc : Service

abbrev pub live_listeners : Db → List Listener
live_listeners db = filter (λ l. not l.deleted) db.listeners

abbrev pub live_bindings : Db → List ListenerUser
live_bindings db = filter (λ b. not b.deleted) db.bindings

abbrev pub live_users : Db → List ProxyUser
live_users db = filter (λ u. not u.deleted) db.users

-- `loadListeners`: both maps.
unfoldable pub names_to_ids : List Listener → List (Text × ℕ) → List (Text × ℕ)
names_to_ids [] m = m
names_to_ids (l ∷ ls) m = names_to_ids ls (insert l.name l.id m)

unfoldable pub ids_to_names : List Listener → List (ℕ × Text) → List (ℕ × Text)
ids_to_names [] m = m
ids_to_names (l ∷ ls) m = ids_to_names ls (insert l.id l.name m)

abbrev or_nil : Option (List ℕ) → List ℕ
or_nil none = []
or_nil (some ids) = ids

-- `loadListenerUsers`.
unfoldable pub users_by_listener : List ListenerUser → List (ℕ × List ℕ) → List (ℕ × List ℕ)
users_by_listener [] m = m
users_by_listener (b ∷ bs) m =
    users_by_listener bs
      (insert b.listener_id (or_nil (lookup b.listener_id m) ++ b.proxy_user_id ∷ []) m)

-- `loadUsernames`.
unfoldable pub usernames_by_id : List ProxyUser → List (ℕ × Text) → List (ℕ × Text)
usernames_by_id [] m = m
usernames_by_id (u ∷ us) m = usernames_by_id us (insert u.id u.username m)

unfoldable pub load_tables : M (Tables × List (ℕ × Text))
load_tables = do
  listeners ← select live_listeners
  bindings ← select live_bindings
  users ← select live_users
  return (
    record {
      listener_ids = names_to_ids listeners [];
      listener_users = users_by_listener bindings [];
      usernames = usernames_by_id users [];
    },
    ids_to_names listeners [],
  )

-- The samples are written account by account; an error of one is logged and the rest goes on.
unfoldable pub persist_loop : Time → List (ℕ × ConnSample) → M (Unit {0})
persist_loop now [] = return tt
persist_loop now ((id, d) ∷ rest) =
    (if eqb_ℤ d.upload (pos 0) && eqb_ℤ d.download (pos 0)
      then return tt
      else ignore (add_sample now id d.upload d.download true))
    >> persist_loop now rest

unfoldable pub touch_loop : Time → List ℕ → M (Unit {0})
touch_loop now [] = return tt
touch_loop now (id ∷ ids) = touch_first_use now id >> touch_loop now ids

abbrev pub sample_service : Division → Time → Answer → Option (ℤ × ℤ) → Service → Service
sample_service d now a none s =
    update d s now a.upload_total a.download_total (length a.connections)
sample_service d now a (some (up, down)) s =
    apply_sample s now a.upload_total a.download_total (length a.connections) up down

-- From the loaded tables to the end of the cycle.
unfoldable pub record_cycle :
    Division → Time → Answer → Option (ℤ × ℤ) → Collector → Tables × List (ℕ × Text) → M Collector
record_cycle d now a rates c (t, names) =
    let s = collect_loop t c.prev_conn a.connections empty_cycle in
    ((persist_loop now s.user_deltas >> touch_loop now s.active) >> mark_offline s.active)
    >> return (record {
      prev_conn = s.next_prev;
      last_connections = s.views;
      last_listener_name = names;
      svc = sample_service d now a rates c.svc;
    })

unfoldable pub collect_once :
    Division → Time → Option Answer → Option (ℤ × ℤ) → Collector → M Collector
collect_once d now none rates c = fail fetch_error
collect_once d now (some a) rates c = load_tables >>= record_cycle d now a rates c

-- The tables that a cycle loads, where no statement fails.
abbrev pub tables_of : Db → Tables
tables_of db = record {
  listener_ids = names_to_ids (live_listeners db) [];
  listener_users = users_by_listener (live_bindings db) [];
  usernames = usernames_by_id (live_users db) [];
}

load_tables-Post :
    (w : World) → Post (λ p v. p.0 ≡ tables_of w.db) (λ e v. Unit {0}) (load_tables w)
unfolding load_tables
load_tables-Post w =
    Post-bind (λ ls v. (ls ≡ live_listeners w.db) × (v.db ≡ w.db)) _ _ (select live_listeners w) _
      (Post-mono _ _ _ _ (select live_listeners w) (select-Post live_listeners w) (λ _ _ h. h)
        (λ _ _ _. tt))
      (λ ls v h.
        Post-bind (λ bs t. (bs ≡ live_bindings v.db) × (t.db ≡ v.db)) _ _ (select live_bindings v) _
          (Post-mono _ _ _ _ (select live_bindings v) (select-Post live_bindings v) (λ _ _ h. h)
            (λ _ _ _. tt))
          (λ bs t k.
            Post-bind (λ us x. (us ≡ live_users t.db) × (x.db ≡ t.db)) _ _ (select live_users t) _
              (Post-mono _ _ _ _ (select live_users t) (select-Post live_users t) (λ _ _ h. h)
                (λ _ _ _. tt))
              (λ us x m.
                same_tables ls bs us w.db h.0 (k.0 ∙ ap live_bindings h.1)
                  (m.0 ∙ ap live_users (k.1 ∙ h.1)))))
  where
    same_tables :
        (ls : List Listener) (bs : List ListenerUser) (us : List ProxyUser) (db : Db)
        → ls ≡ live_listeners db
        → bs ≡ live_bindings db
        → us ≡ live_users db
        → ◌≡◌ {A = Tables}
            (record {
              listener_ids = names_to_ids ls [];
              listener_users = users_by_listener bs [];
              usernames = usernames_by_id us [];
            })
            (tables_of db)
    same_tables ls bs us db h k m = cc

-- The live accounts that are online have a connection among the given ones.
abbrev pub OnlineOnly : Tables → List Connection → World → Type 0
OnlineOnly t cs v = All (λ u. any_of t u.id cs ≡ true) (users_where (λ u. u.online) v.db)

abbrev Nothing : Error → World → Type 0
Nothing e v = Unit {0}

record_cycle-OnlineOnly :
    (d : Division) (now : Time) (a : Answer) (rates : Option (ℤ × ℤ)) (c : Collector)
    (loaded : Tables × List (ℕ × Text)) (w : World)
    → Post
        (λ _ v. OnlineOnly loaded.0 a.connections v)
        Nothing
        (record_cycle d now a rates c loaded w)
unfolding record_cycle
record_cycle-OnlineOnly d now a rates c (t, names) w =
    let s = collect_loop t c.prev_conn a.connections empty_cycle in
    Post-bind (λ _ v. OnlineOnly t a.connections v) _ _
      (((persist_loop now s.user_deltas >> touch_loop now s.active) >> mark_offline s.active) w) _
      (Post-bind (λ _ v. Unit {0}) _ _
        ((persist_loop now s.user_deltas >> touch_loop now s.active) w) (λ _. mark_offline s.active)
        (always ((persist_loop now s.user_deltas >> touch_loop now s.active) w))
        (λ _ v _.
          Post-mono _ _ _ _ (mark_offline s.active v) (mark_offline-online s.active v)
            (λ _ x h.
              All-mono _ _ (λ u k. sym (collect_loop-active t c.prev_conn a.connections u.id) ∙ k)
                (users_where (λ u. u.online) x.db) h)
            (λ _ _ _. tt)))
      (λ _ v h. h)
  where
    always : (o : Outcome (Unit {0})) → Post (λ _ _. Unit {0}) Nothing o
    always (done a v) = tt
    always (failed e v) = tt

-- After a cycle that succeeds, every live account that is online has a connection in the core's
-- answer that is attributed to it by the tables as they were, whichever statements failed on the way.
pub collect_once-online :
    (d : Division) (now : Time) (a : Answer) (rates : Option (ℤ × ℤ)) (c : Collector) (w : World)
    → Post
        (λ _ v. OnlineOnly (tables_of w.db) a.connections v)
        (λ e v. Unit {0})
        (collect_once d now (some a) rates c w)
unfolding collect_once
collect_once-online d now a rates c w =
    Post-bind (λ p v. p.0 ≡ tables_of w.db) _ _ (load_tables w) (record_cycle d now a rates c)
      (load_tables-Post w)
      (λ p v h.
        Post-mono _ _ _ _ (record_cycle d now a rates c p v)
          (record_cycle-OnlineOnly d now a rates c p v) (λ _ x k. rw (← h) k) (λ _ _ _. tt))
