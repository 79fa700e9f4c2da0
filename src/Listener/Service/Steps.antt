-- ===== src/Listener/Service/Steps.antt =====
-- What the steps of `Create` leave of the live listeners (backend/internal/listener/service.go).
use m_ui.Base.{
  ℕ, Bool, true, false, not, ◌&&◌, List, [], ◌∷◌, ◌++◌, Text, codes, ◌==◌, nat_eq, nat_beq_iff,
  text_eq, if◌then◌else◌, filter, any?, map_where, trim_space, All, All-filter, ◌≡◌, refl, sym,
  subst, ap, ◌∙◌, arith, Bool-cases, inl, inr,
}
use m_ui.Models.{Listener}
use m_ui.Store.{
  World, Outcome, done, failed, M, ◌>>=◌, ◌>>◌, return, fail, select, exec, Error, name_exists,
  endpoint_conflict,
}
use m_ui.Store.Laws.{Post, Post-bind, Post-mono, select-Post, exec-Post}
use m_ui.Listener.Endpoint.{is_clash}
use m_ui.Listener.Service.Ports.{
  Outside, caught, live_listeners, update_listeners, is_other, delete_tombstone, reclaim_name,
  ensure_unique_name, check_clash, ensure_endpoint_available,
}

pub Post-catch :
    {A : Type 0} (P : A → World → Type 0) (R Q : Error → World → Type 0) (o : Outcome A)
    (h : Error → M A)
    → Post P R o
    → ((e : Error) (w : World) → R e w → Post P Q (h e w))
    → Post P Q (caught o h)
Post-catch P R Q (done a w) h p k = p
Post-catch P R Q (failed e w) h p k = k e w p

abbrev has_id : List Listener → ℕ → Bool
has_id us id = any? (λ l. l.id == id) us

-- A deleted row's id is not that of one of the listeners.
abbrev IsApart : List Listener → Listener → Type 0
IsApart us r = (r.deleted && has_id us r.id) ≡ false

-- The live listeners are the ones given, and no deleted row has the id of one of them.
abbrev pub Holds : List Listener → World → Type 0
Holds us w = (live_listeners w.db ≡ us) × All (IsApart us) w.db.listeners

live-filter :
    (j : ℕ) (rows : List Listener)
    → has_id (filter (λ l. not l.deleted) rows) j ≡ false
    → filter (λ l. not l.deleted) (filter (λ v. not (v.id == j)) rows)
      ≡ filter (λ l. not l.deleted) rows
live-filter j [] h = refl
live-filter j (v ∷ rows) h = ground (arith, live-filter j rows, h)

abbrev renamed : Text → Listener → Listener
renamed name v = record v { name = name }

live-renamed :
    (name : Text) (j : ℕ) (rows : List Listener)
    → has_id (filter (λ l. not l.deleted) rows) j ≡ false
    → filter (λ l. not l.deleted) (map_where (λ v. v.id == j) (renamed name) rows)
      ≡ filter (λ l. not l.deleted) rows
live-renamed name j [] h = refl
live-renamed name j (v ∷ rows) h = ground (arith, live-renamed name j rows, h)

IsApart-renamed :
    (us : List Listener) (name : Text) (j : ℕ) (rows : List Listener)
    → All (IsApart us) rows
    → All (IsApart us) (map_where (λ v. v.id == j) (renamed name) rows)
IsApart-renamed us name j [] h = tt
IsApart-renamed us name j (v ∷ rows) h = ground (arith, IsApart-renamed us name j rows)

module _ (o : Outside) (us : List Listener) where
  delete_tombstone-Holds :
      (name : Text) (row : Listener) (w : World)
      → Holds us w
      → has_id us row.id ≡ false
      → Post (λ _ v. Holds us v) (λ e v. Holds us v) (delete_tombstone o name row w)
  unfolding delete_tombstone
  delete_tombstone-Holds name row w h apart =
      Post-catch _ (λ e v. v.db ≡ w.db) _ (exec _ w) _
        (Post-mono _ _ _ _ (exec _ w) (exec-Post _ w) (λ _ v e. gone v e) (λ e v k. k))
        (λ e v k.
          Post-mono _ _ _ _ (exec _ v) (exec-Post _ v) (λ _ x c. moved x v k c)
            (λ _ x c. kept x (c ∙ k)))
    where
      fresh : has_id (live_listeners w.db) row.id ≡ false
      fresh = subst (λ ls. has_id ls row.id ≡ false) (sym h.0) apart

      kept : (x : World) → x.db ≡ w.db → Holds us x
      kept x e =
          (ap live_listeners e ∙ h.0, subst (λ db. All (IsApart us) db.listeners) (sym e) h.1)

      gone :
          (v : World)
          → v.db ≡ record w.db { listeners = filter (λ l. not (l.id == row.id)) w.db.listeners }
          → Holds us v
      gone v e = (
        ap live_listeners e ∙ live-filter row.id w.db.listeners fresh ∙ h.0,
        subst (λ db. All (IsApart us) db.listeners) (sym e)
            (All-filter (IsApart us) (λ l. not (l.id == row.id)) w.db.listeners h.1),
      )

      moved :
          (x v : World)
          → v.db ≡ w.db
          → x.db
            ≡ update_listeners
                (λ l. l.id == row.id)
                (renamed
                  (name ++ (codes "__deleted_" ++ (o.decimal row.id ++ (codes "_" ++ o.stamp)))))
                v.db
          → Holds us x
      moved x v k c = (
        ap live_listeners (c ∙ again) ∙ live-renamed new row.id w.db.listeners fresh ∙ h.0,
        subst (λ db. All (IsApart us) db.listeners) (sym (c ∙ again))
            (IsApart-renamed us new row.id w.db.listeners h.1),
      )
        where
          new : Text
          new = name ++ (codes "__deleted_" ++ (o.decimal row.id ++ (codes "_" ++ o.stamp)))

          again :
              update_listeners (λ l. l.id == row.id) (renamed new) v.db
              ≡ update_listeners (λ l. l.id == row.id) (renamed new) w.db
          again = ap (update_listeners (λ l. l.id == row.id) (renamed new)) k

  dead_fresh : (row : Listener) → IsApart us row → row.deleted ≡ true → has_id us row.id ≡ false
  dead_fresh row h dead = ground (arith, h, dead)

  reclaim_name-Holds :
      (name : Text) (rows : List Listener) (w : World)
      → Holds us w
      → All (IsApart us) rows
      → Post (λ _ v. Holds us v) (λ e v. Holds us v) (reclaim_name o name rows w)
  unfolding reclaim_name
  reclaim_name-Holds name [] w h apart = h
  reclaim_name-Holds name (row ∷ rows) w h apart = elim (Bool-cases row.deleted) [
    | inl dead ↦
        subst
          (λ b.
            Post (λ _ v. Holds us v) (λ e v. Holds us v)
              ((if b
                  then delete_tombstone o name row >> reclaim_name o name rows
                  else fail name_exists)
                w))
          (sym dead)
          (Post-bind (λ _ v. Holds us v) _ _ (delete_tombstone o name row w)
            (λ _. reclaim_name o name rows)
            (delete_tombstone-Holds name row w h (dead_fresh row apart.0 dead))
            (λ _ v k. reclaim_name-Holds name rows v k apart.1))
    | inr alive ↦
        subst
          (λ b.
            Post (λ _ v. Holds us v) (λ e v. Holds us v)
              ((if b
                  then delete_tombstone o name row >> reclaim_name o name rows
                  else fail name_exists)
                w))
          (sym alive) h
  ]

  pub moved_to : (v w : World) → v.db ≡ w.db → Holds us w → Holds us v
  moved_to v w e h =
      (ap live_listeners e ∙ h.0, subst (λ db. All (IsApart us) db.listeners) (sym e) h.1)

  pub ensure_unique_name-Holds :
      (l : Listener) (w : World)
      → Holds us w
      → Post (λ _ v. Holds us v) (λ e v. Holds us v) (ensure_unique_name o l w)
  unfolding ensure_unique_name
  ensure_unique_name-Holds l w h = elim (Bool-cases (trim_space l.name == [])) [
    | inl blank ↦ rw blank h
    | inr given ↦ rw given (
        Post-bind
          (λ rows v.
            (rows ≡ filter (λ x. x.name == trim_space l.name && is_other l x) w.db.listeners)
            × (v.db ≡ w.db))
          _ _ (select _ w) (reclaim_name o (trim_space l.name))
          (Post-mono _ _ _ _ (select _ w) (select-Post _ w) (λ _ _ k. k)
            (λ e v k. moved_to v w k h))
          (λ rows v k. reclaim_name-Holds (trim_space l.name) rows v (moved_to v w k.1 h) (
            subst (All (IsApart us)) (sym k.0) (
              All-filter (IsApart us) (λ x. x.name == trim_space l.name && is_other l x)
                w.db.listeners h.1))))
  ]

  all_others : (l : Listener) (ls : List Listener) → l.id ≡ 0 → filter (is_other l) ls ≡ ls
  all_others l [] h = refl
  all_others l (x ∷ ls) h = ground (arith, h, all_others l ls h, nat_beq_iff l.id 0)

  -- The check of an endpoint says that no live listener claims it.
  pub ensure_endpoint_available-Holds :
      (l : Listener) (w : World)
      → l.id ≡ 0
      → Holds us w
      → Post
          (λ _ v. Holds us v × (any? (is_clash o.parse_ip l) us ≡ false))
          (λ e v. Holds us v)
          (ensure_endpoint_available o l w)
  unfolding ensure_endpoint_available
  ensure_endpoint_available-Holds l w new h =
      Post-bind (λ _ v. Holds us v) _ _ (ensure_unique_name o l w)
        (λ _. select (λ db. filter (is_other l) (live_listeners db)) >>= check_clash o l)
        (ensure_unique_name-Holds l w h)
        (λ _ v k.
          Post-bind (λ ls x. (ls ≡ us) × Holds us x) _ _ (select _ v) (check_clash o l)
            (Post-mono _ _ _ _ (select _ v) (select-Post _ v)
              (λ ls x c.
                (c.0 ∙ ap (filter (is_other l)) k.0 ∙ all_others l us new, moved_to x v c.1 k))
              (λ e x c. moved_to x v c k))
            (λ ls x c. checked ls x c.0 c.1))
    where
      decided :
          (b : Bool) (x : World)
          → any? (is_clash o.parse_ip l) us ≡ b
          → Holds us x
          → Post
              (λ _ v. Holds us v × (any? (is_clash o.parse_ip l) us ≡ false))
              (λ e v. Holds us v)
              ((if b then fail endpoint_conflict else return tt) x)
      decided true x e k = k
      decided false x e k = (k, e)

      checked :
          (ls : List Listener) (x : World)
          → ls ≡ us
          → Holds us x
          → Post
              (λ _ v. Holds us v × (any? (is_clash o.parse_ip l) us ≡ false))
              (λ e v. Holds us v)
              (check_clash o l ls x)
      checked ls x e k = decided _ x (ap (any? (is_clash o.parse_ip l)) (sym e)) k
