-- ===== src/Listener/Service/Created.antt =====
-- What `Create` leaves (backend/internal/listener/service.go).
use m_ui.Base.{
  ℕ, true, false, not, ◌&&◌, List, [], ◌∷◌, ◌++◌, Option, none, some, ◌==◌, nat_eq, text_eq,
  if◌then◌else◌, filter, any?, All, ◌≡◌, refl, ap, ◌∙◌, arith, Bool-cases, inl, inr, ◌⊎◌,
}
use m_ui.Models.{Db, Listener}
use m_ui.Store.{
  World, Outcome, done, failed, ◌>>◌, return, fail, select, exec, first, ignore, ignore_outcome,
  Error, name_exists,
}
use m_ui.Store.Laws.{Post, Post-bind, Post-mono, select-Post, exec-Post, first-Post}
use m_ui.Listener.Address.{first_listener_address}
use m_ui.Listener.Endpoint.{is_clash}
use m_ui.Listener.Service.Ports.{
  Outside, on_failure, live_listeners, ensure_unique_name, allocate_free_port,
}
use m_ui.Listener.Service.Create.{
  find_listener, save_version, settle_endpoint, insert_listener, store_listener, create,
  choose_port, wants_port, or_invalid, with_port, is_name_taken, schedule_config_apply,
}
use m_ui.Listener.Service.Steps.{Post-catch, Holds, ensure_unique_name-Holds, moved_to}
use m_ui.Listener.Service.Clash.{Settled, settle_endpoint-Settled, allocate_free_port-Holds}

-- Preparing a row leaves its id and its mark alone.
abbrev pub KeepsRow : (Listener → Option Listener) → Type 0
KeepsRow prepare = (l m : Listener) → prepare l ≡ some m → (m.id ≡ l.id) × (m.deleted ≡ l.deleted)

filter-live_snoc :
    (rows : List Listener) (l : Listener)
    → l.deleted ≡ false
    → filter (λ x. not x.deleted) (rows ++ l ∷ []) ≡ filter (λ x. not x.deleted) rows ++ l ∷ []
filter-live_snoc [] l h = ground (arith, h)
filter-live_snoc (x ∷ rows) l h = ground (arith, filter-live_snoc rows l h)

Post-ignore :
    (Q : World → Type 0) (o : Outcome (Unit {0}))
    → Post (λ _ v. Q v) (λ e v. Q v) o
    → Post (λ _ v. Q v) (λ e v. Q v) (ignore_outcome o)
Post-ignore Q (done a v) h = h
Post-ignore Q (failed e v) h = h

module _ (o : Outside) (us : List Listener) where
  -- The listener comes last among the live ones, and claims the socket of none of the others.
  abbrev Added : Listener → World → Type 0
  Added l v = (live_listeners v.db ≡ us ++ l ∷ []) × (any? (is_clash o.parse_ip l) us ≡ false)

  abbrev SameLive : World → Type 0
  SameLive v = live_listeners v.db ≡ us

  insert_listener-Added :
      (l : Listener) (w : World)
      → any? (is_clash o.parse_ip l) us ≡ false
      → l.deleted ≡ false
      → Holds us w
      → Post Added (λ e v. Holds us v) (insert_listener o l w)
  unfolding insert_listener is_clash first_listener_address
  insert_listener-Added l w free mark h =
      elim (Bool-cases (any? (λ v. v.name == l.name) w.db.listeners)) [
        | inl taken ↦ rw taken h
        | inr fresh ↦ rw fresh (
            Post-bind (λ _ v. v.db ≡ record w.db { listeners = w.db.listeners ++ new ∷ [] }) _ _
              (exec (λ db. record db { listeners = db.listeners ++ new ∷ [] }) w) (λ _. return new)
              (Post-mono _ _ _ _ (exec _ w) (exec-Post _ w) (λ _ v k. k)
                (λ e v k. moved_to o us v w k h))
              (λ _ v k. (
                ap live_listeners k
                    ∙ filter-live_snoc w.db.listeners new mark
                    ∙ ap (λ ls. ls ++ new ∷ []) h.0,
                free,
              )))
      ]
    where
      new : Listener
      new = record l { id = o.new_id w.db }

  store_listener-Added :
      (l : Listener) (w : World)
      → any? (is_clash o.parse_ip l) us ≡ false
      → l.deleted ≡ false
      → Holds us w
      → Post Added (λ e v. Holds us v) (store_listener o l w)
  unfolding store_listener
  store_listener-Added l w free mark h =
      Post-catch Added (λ e v. Holds us v) _ (insert_listener o l w) _
        (insert_listener-Added l w free mark h)
        (λ e v k. again e v k (Bool-cases (is_name_taken e)))
    where
      second :
          (v : World)
          → Holds us v
          → Post Added
              (λ e v. Holds us v)
              (on_failure (insert_listener o l) (λ e. fail name_exists) v)
      second v k =
          Post-catch Added (λ e v. Holds us v) _ (insert_listener o l v) _
            (insert_listener-Added l v free mark k) (λ e x c. c)

      again :
          (e : Error) (v : World)
          → Holds us v
          → (is_name_taken e ≡ true) ⊎ (is_name_taken e ≡ false)
          → Post Added
              (λ e v. Holds us v)
              ((if is_name_taken e
                  then ignore (ensure_unique_name o l)
                    >> on_failure (insert_listener o l) (λ e'. fail name_exists)
                  else fail e)
                v)
      again e v k (inl unique) = rw unique (
          Post-bind (λ _ x. Holds us x) _ _ (ignore (ensure_unique_name o l) v)
            (λ _. on_failure (insert_listener o l) (λ e'. fail name_exists))
            (Post-ignore (Holds us) (ensure_unique_name o l v)
              (ensure_unique_name-Holds o us l v k))
            (λ _ x c. second x c))
      again e v k (inr other) = rw other k

  save_version-listeners :
      (id : ℕ) (w : World)
      → Post
          (λ _ v. v.db.listeners ≡ w.db.listeners)
          (λ e v. v.db.listeners ≡ w.db.listeners)
          (save_version o id w)
  unfolding save_version
  save_version-listeners id w =
      Post-bind (λ _ v. v.db ≡ w.db) _ _ (first (find_listener id) w) _
        (Post-mono _ _ _ _ (first _ w) (first-Post _ w) (λ _ _ k. k.1)
          (λ e v k. ap (λ (db : Db). db.listeners) k))
        (λ l v k.
          Post-bind (λ _ x. x.db ≡ w.db) _ _ (select _ v) _
            (Post-mono _ _ _ _ (select _ v) (select-Post _ v) (λ _ _ c. c.1 ∙ k)
              (λ e x c. ap (λ (db : Db). db.listeners) (c ∙ k)))
            (λ n x c.
              Post-mono _ _ _ _ (exec _ x) (exec-Post _ x)
                (λ _ y d. ap (λ (db : Db). db.listeners) d ∙ ap (λ (db : Db). db.listeners) c)
                (λ e y d. ap (λ (db : Db). db.listeners) (d ∙ c))))

  finished :
      (l : Listener) (w : World)
      → Added l w
      → Post Added
          (λ e v. SameLive v)
          (((ignore (save_version o l.id) >> schedule_config_apply) >> return l) w)
  unfolding schedule_config_apply
  finished l w h =
      Post-bind Saved _ _ ((ignore (save_version o l.id) >> schedule_config_apply) w)
        (λ _. return l)
        (Post-bind Saved _ _ (ignore (save_version o l.id) w) (λ _. schedule_config_apply)
          (settled (save_version o l.id w) (save_version-listeners l.id w)) (λ _ v k. k))
        (λ _ v k. (ap (filter (λ x. not x.deleted)) k ∙ h.0, h.1))
    where
      Saved : Unit {0} → World → Type 0
      Saved t v = v.db.listeners ≡ w.db.listeners

      settled :
          (r : Outcome (Unit {0}))
          → Post (λ _ v. v.db.listeners ≡ w.db.listeners) (λ e v. v.db.listeners ≡ w.db.listeners) r
          → Post (λ _ v. v.db.listeners ≡ w.db.listeners) (λ e v. SameLive v) (ignore_outcome r)
      settled (done a v) k = k
      settled (failed e v) k = k

module _ (o : Outside) (keeps : KeepsRow o.prepare) where
  -- The listeners' rows are live or have ids of their own.
  abbrev pub HasApartRows : Db → Type 0
  HasApartRows db =
      All (λ r. (r.deleted && any? (λ l. l.id == r.id) (live_listeners db)) ≡ false) db.listeners

  choose_port-Holds :
      (us : List Listener) (draw : ℕ → ℕ → Option ℕ) (l : Listener) (w : World)
      → Holds us w
      → Post
          (λ p v. Holds us v × (p.id ≡ l.id) × (p.deleted ≡ l.deleted))
          (λ e v. Holds us v)
          (choose_port o draw l w)
  choose_port-Holds us draw l w h = elim (Bool-cases (wants_port l)) [
    | inl wants ↦ rw wants (
        Post-bind (λ _ v. Holds us v) _ _ (allocate_free_port (draw 0) [] w)
          (λ p. return (with_port (o.decimal p) l)) (allocate_free_port-Holds o us (draw 0) [] w h)
          (λ _ v k. (k, refl, refl)))
    | inr has ↦ rw has (h, refl, refl)
  ]

  prepared :
      (us : List Listener) (l : Listener) (w : World) (r : Option Listener)
      → o.prepare l ≡ r
      → Holds us w
      → Post
          (λ p v. Holds us v × (p.id ≡ l.id) × (p.deleted ≡ l.deleted))
          (λ e v. Holds us v)
          (or_invalid r w)
  prepared us l w none e h = h
  prepared us l w (some m) e h = let k = keeps l m e in (h, k.0, k.1)

  -- Creating a listener adds it to the live ones, and it overlaps with none of them in its ports at a
  -- conflicting address, whether its port was given or drawn; a creation that fails leaves the live
  -- listeners as they were, whichever statement failed. The row is new, and no live listener has the id
  -- of a deleted one.
  pub create-Added :
      (draw : ℕ → ℕ → Option ℕ) (l : Listener) (w : World)
      → l.id ≡ 0
      → l.deleted ≡ false
      → HasApartRows w.db
      → Post
          (λ x v.
            (live_listeners v.db ≡ live_listeners w.db ++ x ∷ [])
            × (any? (is_clash o.parse_ip x) (live_listeners w.db) ≡ false))
          (λ e v. live_listeners v.db ≡ live_listeners w.db)
          (create o draw l w)
  unfolding create
  create-Added draw l w new alive apart =
      Post-bind (λ p v. Holds us v × (p.id ≡ l.id) × (p.deleted ≡ l.deleted)) _ _
        (choose_port o draw l w) _
        (weaken _ (choose_port o draw l w) (choose_port-Holds us draw l w (refl, apart)))
        (λ p v h.
          Post-bind (λ q x. Holds us x × (q.id ≡ p.id) × (q.deleted ≡ p.deleted)) _ _
            (or_invalid (o.prepare p) v) _
            (weaken _ (or_invalid (o.prepare p) v) (prepared us p v (o.prepare p) refl h.0))
            (λ q x k.
              Post-bind (Settled o us q) _ _ (settle_endpoint o draw (wants_port l) q x) _
                (weaken _ (settle_endpoint o draw (wants_port l) q x)
                  (settle_endpoint-Settled o us draw (wants_port l) q x (k.1 ∙ h.1 ∙ new) k.0))
                (λ m y c.
                  Post-bind (Added o us) _ _ (store_listener o m y) _
                    (weaken _ (store_listener o m y)
                      (store_listener-Added o us m y c.1 (c.3 ∙ k.2 ∙ h.2 ∙ alive) c.0))
                    (λ s z d. finished o us s z d))))
    where
      us : List Listener
      us = live_listeners w.db

      weaken :
          (P : Listener → World → Type 0) (r : Outcome Listener)
          → Post P (λ e v. Holds us v) r
          → Post P (λ e v. live_listeners v.db ≡ us) r
      weaken P (done a v) h = h
      weaken P (failed e v) h = h.0
