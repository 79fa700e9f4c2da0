-- ===== src/User/Creds/Bound.antt =====
-- Where the credentials come from that the core is given for a listener with bindings
-- (backend/internal/user/service_creds.go).
use m_ui.Base.{
  ℕ, Text, Bool, true, false, not, ◌&&◌, List, [], ◌∷◌, ◌++◌, Option, none, some, ◌≡◌, refl, ap,
  sym, ◌∙◌, ◌⊎◌, inl, inr, ◌==◌, nat_eq, text_eq, nat_beq_iff, contains, filter, any?, All,
  All-mono, arith, Bool-cases, if◌then◌else◌, subst,
}
use m_ui.Clock.{Time}
use m_ui.Credentials.{Outside, ensure_listener_credentials}
use m_ui.Models.{Db, Listener, ListenerUser, ProxyUser}
use m_ui.Table.{users_where}
use m_ui.Store.{World, Outcome, done, failed, select, return, ◌>>=◌}
use m_ui.Store.Laws.{Post, Post-bind, Post-mono, select-Post}
use m_ui.User.Active.{is_credential_active, IsActive, is_credential_active_iff}
use m_ui.User.Creds.{
  Credential, bound_users, users_by_id, Result, set_entry, entry_of, add_users, own_credentials,
  listener_entry, listener_entries, load_users, credentials_by_listener, is_nil, add_user, user_ids,
  enabled_listeners, live_bindings, add_password, save_config, credentials_from_listener_config,
}

-- Some element has the property.
abbrev pub Some : {A : Type 0} → (A → Type 0) → List A → Type 0
Some P [] = ⊥
Some P (x ∷ xs) = P x ⊎ Some P xs

Some-filter :
    {A : Type 0} (p : A → Bool) (P : A → Type 0) (xs : List A)
    → Some P (filter p xs)
    → Some (λ x. (p x ≡ true) × P x) xs
Some-filter p P [] h = elim h [ ]
Some-filter p P (x ∷ xs) h = elim (Bool-cases (p x)) [
  | inl kept ↦ split kept (rw kept at h) (Some-filter p P xs)
  | inr left ↦ inr (Some-filter p P xs (rw left at h))
]
  where
    split :
        p x ≡ true
        → P x ⊎ Some P (filter p xs)
        → (Some P (filter p xs) → Some (λ x. (p x ≡ true) × P x) xs)
        → Some (λ x. (p x ≡ true) × P x) (x ∷ xs)
    split e (inl here) f = inl (e, here)
    split e (inr there) f = inr (f there)

All-Some :
    {A : Type 0} (R : A → A → Type 0)
    → ((x : A) → R x x)
    → (xs : List A) → All (λ x. Some (R x) xs) xs
All-Some R r [] = tt
All-Some R r (x ∷ xs) = (
  inl (r x),
  All-mono (λ y. Some (R y) xs) (λ y. Some (R y) (x ∷ xs)) (λ y h. inr h) xs (All-Some R r xs),
)

filter-Some :
    {A : Type 0} (p : A → Bool) (xs : List A)
    → All (λ x. Some (λ y. (p y ≡ true) × (y ≡ x)) xs) (filter p xs)
filter-Some p xs =
    All-mono (λ x. Some (λ y. y ≡ x) (filter p xs)) _ (λ x. Some-filter p (λ y. y ≡ x) xs)
      (filter p xs) (All-Some (λ x y. y ≡ x) (λ x. refl) (filter p xs))

Some-mono :
    {A : Type 0} (P Q : A → Type 0) → ((x : A) → P x → Q x) → (xs : List A) → Some P xs → Some Q xs
Some-mono P Q f [] h = h
Some-mono P Q f (x ∷ xs) (inl h) = inl (f x h)
Some-mono P Q f (x ∷ xs) (inr h) = inr (Some-mono P Q f xs h)

-- A live row of an account, and a live binding of a listener to one.
abbrev pub Stored : Db → ProxyUser → Type 0
Stored db user = Some (λ u. (not u.deleted ≡ true) × (u ≡ user)) db.users

abbrev pub Joined : Db → ℕ → ℕ → Type 0
Joined db l i =
    Some (λ b. (not b.deleted ≡ true) × ((b.listener_id ≡ l) × (b.proxy_user_id ≡ i))) db.bindings

-- The credential is that of a live account which is active now and which a live binding joins to the
-- listener.
pub record FromUser (o : Outside) (now : Time) (db : Db) (l : ℕ) (c : Credential) : Type 0 where
  pub user : ProxyUser
  pub stored : Stored db user
  pub bound : Joined db l user.id
  pub active : IsActive now user
  pub same_name : c.username ≡ user.username
  pub same_uuid : c.uuid ≡ user.uuid
  pub same_password : o.decrypt user.password_encrypted ≡ some c.password

module _ (Bnd : ℕ → ℕ → Type 0) where
  All-snoc : (P : ℕ → Type 0) (is : List ℕ) (i : ℕ) → All P is → P i → All P (is ++ (i ∷ []))
  All-snoc P [] i h p = (p, tt)
  All-snoc P (j ∷ is) i h p = (h.0, All-snoc P is i h.1 p)

  bound_users-All :
      (bs : List ListenerUser) (m : ℕ → List ℕ)
      → All (λ b. Bnd b.listener_id b.proxy_user_id) bs
      → ((l : ℕ) → All (Bnd l) (m l))
      → (l : ℕ) → All (Bnd l) (bound_users bs m l)
  unfolding bound_users
  bound_users-All [] m a h l = h l
  bound_users-All (b ∷ bs) m a h l = bound_users-All bs _ a.1 step l
    where
      step :
          (k : ℕ)
          → All
              (Bnd k)
              (if k == b.listener_id then m b.listener_id ++ (b.proxy_user_id ∷ []) else m k)
      step k = elim (Bool-cases (k == b.listener_id)) [
        | inl same ↦
            rw (same, (nat_beq_iff k b.listener_id).0 same)
              (All-snoc (Bnd b.listener_id) (m b.listener_id) b.proxy_user_id (h b.listener_id) a.0)
        | inr other ↦ rw other (h k)
      ]

users_by_id-Stored :
    (Src : ProxyUser → Type 0) (us : List ProxyUser) (m : ℕ → Option ProxyUser)
    → All Src us
    → ((i : ℕ) (u : ProxyUser) → m i ≡ some u → (u.id ≡ i) × Src u)
    → (i : ℕ) (u : ProxyUser) → users_by_id us m i ≡ some u
    → (u.id ≡ i) × Src u
unfolding users_by_id
users_by_id-Stored Src [] m a h i u e = h i u e
users_by_id-Stored Src (v ∷ us) m a h i u e = users_by_id-Stored Src us _ a.1 step i u e
  where
    step :
        (j : ℕ) (x : ProxyUser) → (if j == v.id then some v else m j) ≡ some x → (x.id ≡ j) × Src x
    step j x g = elim (Bool-cases (j == v.id)) [
      | inl same ↦ found same (rw same at g)
      | inr other ↦ h j x (rw other at g)
    ]
      where
        found : (j == v.id) ≡ true → some v ≡ some x → (x.id ≡ j) × Src x
        found same g =
            let e : v ≡ x = cc g in
            (ap (λ y. y.id) (sym e) ∙ sym ((nat_beq_iff j v.id).0 same), subst Src e a.0)

is_nil-snoc : (is : List ℕ) (i : ℕ) → is_nil (is ++ (i ∷ [])) ≡ false
is_nil-snoc [] i = refl
is_nil-snoc (j ∷ is) i = refl

bound_users-nil :
    (bs : List ListenerUser) (m : ℕ → List ℕ) (l : ℕ)
    → (is_nil (m l) ≡ false) ⊎ (any? (λ b. b.listener_id == l) bs ≡ true)
    → is_nil (bound_users bs m l) ≡ false
unfolding bound_users
bound_users-nil [] m l (inl h) = h
bound_users-nil [] m l (inr h) = cc h
bound_users-nil (b ∷ bs) m l h = bound_users-nil bs _ l (step h)
  where
    step :
        (is_nil (m l) ≡ false) ⊎ (any? (λ b. b.listener_id == l) (b ∷ bs) ≡ true)
        → (is_nil (if l == b.listener_id then m b.listener_id ++ (b.proxy_user_id ∷ []) else m l)
            ≡ false)
          ⊎ (any? (λ b. b.listener_id == l) bs ≡ true)
    step h = ground (
      arith,
      is_nil-snoc (m b.listener_id) b.proxy_user_id,
      nat_beq_iff l b.listener_id,
      nat_beq_iff b.listener_id l,
    )

Post-any : {A : Type 0} (x : Outcome A) → Post (λ a v. Unit {0}) (λ e v. Unit {0}) x
Post-any (done a v) = tt
Post-any (failed e v) = tt

-- What holds of the entries of the listeners with bindings while the loops run.
module _ (o : Outside) (ensure_defaults : Bool) (now : Time) (db : Db) (bound : ℕ → List ℕ)
    (by_id : ℕ → Option ProxyUser) (keys : (l : ℕ) → All (Joined db l) (bound l))
    (rows : (i : ℕ) (u : ProxyUser) → by_id i ≡ some u → (u.id ≡ i) × Stored db u) where
  abbrev Good : Result → Type 0
  Good r = (l : ℕ) → is_nil (bound l) ≡ false → All (FromUser o now db l) (entry_of (r l))

  All-snoc_entry :
      (l : ℕ) (c : Credential) (cs : List Credential)
      → All (FromUser o now db l) cs
      → FromUser o now db l c
      → All (FromUser o now db l) (cs ++ (c ∷ []))
  All-snoc_entry l c [] h g = (g, tt)
  All-snoc_entry l c (d ∷ cs) h g = (h.0, All-snoc_entry l c cs h.1 g)

  set_entry-Good :
      (l : ℕ) (cs : List Credential) (r : Result)
      → Good r
      → (is_nil (bound l) ≡ false → All (FromUser o now db l) cs)
      → Good (set_entry l cs r)
  set_entry-Good l cs r h g j n = elim (Bool-cases (j == l)) [
    | inl same ↦ rw (same, (nat_beq_iff j l).0 same) (g (rw (sym ((nat_beq_iff j l).0 same)) n))
    | inr other ↦ rw other (h j n)
  ]

  add_user-Good :
      (l i : ℕ) (r : Result) → Joined db l i → Good r → Good (add_user o now l (by_id i) r)
  add_user-Good l i r b h = found (by_id i) (rows i)
    where
      decrypted :
          (u : ProxyUser)
          → (u.id ≡ i) × Stored db u
          → IsActive now u
          → (p : Option Text) → o.decrypt u.password_encrypted ≡ p
          → Good (add_password l u p r)
      decrypted u s a none e = h
      decrypted u s a (some p) e = set_entry-Good l _ r h (λ n.
          All-snoc_entry l _ (entry_of (r l)) (h l n) (record {
            user = u;
            stored = s.1;
            bound = subst (Joined db l) (sym s.0) b;
            active = a;
            same_name = refl;
            same_uuid = refl;
            same_password = e;
          }))

      found :
          (u : Option ProxyUser)
          → ((v : ProxyUser) → u ≡ some v → (v.id ≡ i) × Stored db v)
          → Good (add_user o now l u r)
      found none f = h
      found (some u) f = elim (Bool-cases (is_credential_active now u)) [
        | inl active ↦ rw active (
            decrypted u (f u refl) ((is_credential_active_iff now u).0 active)
              (o.decrypt u.password_encrypted) refl)
        | inr not_active ↦ rw not_active h
      ]

  add_users-Good :
      (l : ℕ) (is : List ℕ) (r : Result)
      → All (Joined db l) is
      → Good r
      → Good (add_users o now l by_id is r)
  unfolding add_users
  add_users-Good l [] r a h = h
  add_users-Good l (i ∷ is) r a h =
      add_users-Good l is (add_user o now l (by_id i) r) a.1 (add_user-Good l i r a.0 h)

  own_credentials-Good :
      (l : Listener) (r : Result) (w : World)
      → is_nil (bound l.id) ≡ true
      → Good r
      → Post (λ s v. Good s) (λ e v. Unit {0}) (own_credentials o ensure_defaults l r w)
  unfolding own_credentials
  own_credentials-Good l r w n h =
      Post-bind (λ k v. Unit {0}) _ _
        ((if ensure_defaults then ensure_listener_credentials o l else return l) w) _ (Post-any _)
        (λ k v _.
          Post-bind (λ _ v. Unit {0}) _ _
            ((if k.config == l.config then return tt else save_config k) v) _ (Post-any _)
            (λ _ v _.
              ended (credentials_from_listener_config o k.protocol k.config)
                (is_nil (credentials_from_listener_config o k.protocol k.config))))
    where
      ended : (cs : List Credential) (b : Bool) → Good (if b then r else set_entry l.id cs r)
      ended cs true = h
      ended cs false = set_entry-Good l.id cs r h (λ f. cc (n, f))

  listener_entry-Good :
      (l : Listener) (r : Result) (w : World)
      → Good r
      → Post
          (λ s v. Good s)
          (λ e v. Unit {0})
          (listener_entry o ensure_defaults now bound by_id l r w)
  unfolding listener_entry
  listener_entry-Good l r w h = elim (Bool-cases (is_nil (bound l.id))) [
    | inl unbound ↦ rw unbound (own_credentials-Good l r w unbound h)
    | inr joined ↦
        rw joined (add_users-Good l.id (bound l.id) _ (keys l.id) (started ensure_defaults))
  ]
    where
      started : (b : Bool) → Good (if b then r else set_entry l.id [] r)
      started true = h
      started false = set_entry-Good l.id [] r h (λ _. tt)

  pub listener_entries-Good :
      (ls : List Listener) (r : Result) (w : World)
      → Good r
      → Post
          (λ s v. Good s)
          (λ e v. Unit {0})
          (listener_entries o ensure_defaults now bound by_id ls r w)
  unfolding listener_entries
  listener_entries-Good [] r w h = h
  listener_entries-Good (l ∷ ls) r w h =
      Post-bind (λ s v. Good s) _ _ (listener_entry o ensure_defaults now bound by_id l r w) _
        (listener_entry-Good l r w h) (λ s v g. listener_entries-Good ls s v g)

live_users-Stored : (p : ProxyUser → Bool) (db : Db) → All (Stored db) (users_where p db)
live_users-Stored p db =
    All-mono (λ u. Some (λ v. ((not v.deleted && p v) ≡ true) × (v ≡ u)) db.users) (Stored db)
      (λ u. Some-mono _ _ (λ v h. (ground (arith, h.0), h.1)) db.users) (users_where p db)
      (filter-Some (λ v. not v.deleted && p v) db.users)

live_bindings-Joined :
    (db : Db)
    → All (λ b. Joined db b.listener_id b.proxy_user_id) (filter (λ b. not b.deleted) db.bindings)
live_bindings-Joined db =
    All-mono (λ b. Some (λ c. (not c.deleted ≡ true) × (c ≡ b)) db.bindings) _
      (λ b.
        Some-mono _ _ (λ c h. (h.0, (ap (λ x. x.listener_id) h.1, ap (λ x. x.proxy_user_id) h.1)))
          db.bindings)
      (filter (λ b. not b.deleted) db.bindings) (filter-Some (λ b. not b.deleted) db.bindings)

load_users-Stored :
    (bs : List ListenerUser) (w : World)
    → Post (λ us v. All (Stored w.db) us) (λ e v. Unit {0}) (load_users bs w)
load_users-Stored [] w = tt
load_users-Stored (b ∷ bs) w =
    Post-mono _ _ _ _ (load_users (b ∷ bs) w)
      (select-Post (users_where (λ u. contains (user_ids (b ∷ bs)) u.id)) w)
      (λ us v h. subst (All (Stored w.db)) (sym h.0) (live_users-Stored _ w.db)) (λ e v h. tt)

any?-filter :
    (l : ℕ) (bs : List ListenerUser)
    → any? (λ b. not b.deleted && b.listener_id == l) bs ≡ true
    → any? (λ b. b.listener_id == l) (filter (λ b. not b.deleted) bs) ≡ true
any?-filter l [] h = h
any?-filter l (b ∷ bs) h = ground (arith, any?-filter l bs)

-- The listener has a live binding.
abbrev pub has_binding : ℕ → Db → Bool
has_binding l db = any? (λ b. not b.deleted && b.listener_id == l) db.bindings

select-read :
    {A : Type 0} (f : Db → A) (w : World)
    → Post (λ a v. (a ≡ f w.db) × (v.db ≡ w.db)) (λ e v. Unit {0}) (select f w)
select-read f w = Post-mono _ _ _ _ (select f w) (select-Post f w) (λ a v h. h) (λ e v h. tt)

abbrev Sourced : Outside → Time → Db → Result → World → Type 0
Sourced o now db r v =
    (l : ℕ) → has_binding l db ≡ true → All (FromUser o now db l) (entry_of (r l))

credentials_by_listener-Post :
    (o : Outside) (ensure_defaults : Bool) (now : Time) (w : World)
    → Post (Sourced o now w.db) (λ e v. Unit {0}) (credentials_by_listener o ensure_defaults now w)
unfolding credentials_by_listener
credentials_by_listener-Post o ensure_defaults now w =
    Post-bind (λ ls v. (ls ≡ enabled_listeners w.db) × (v.db ≡ w.db)) _ _
      (select enabled_listeners w) _ (select-read enabled_listeners w)
      (λ ls v h.
        Post-bind (λ bs x. (bs ≡ live_bindings v.db) × (x.db ≡ v.db)) _ _ (select live_bindings v) _
          (select-read live_bindings v)
          (λ bs x k. loaded ls bs x (k.0 ∙ ap live_bindings h.1) (k.1 ∙ h.1)))
  where
    entries :
        (ls : List Listener) (bs : List ListenerUser) (us : List ProxyUser) (x : World)
        → bs ≡ live_bindings w.db
        → All (Stored w.db) us
        → Post
            (Sourced o now w.db)
            (λ e v. Unit {0})
            (listener_entries o ensure_defaults now
              (bound_users bs (λ l. []))
              (users_by_id us (λ i. none))
              ls
              (λ l. none)
              x)
    entries ls bs us x e a =
        Post-mono
          (λ r v.
            (l : ℕ)
            → is_nil (bound_users bs (λ l. []) l) ≡ false
            → All (FromUser o now w.db l) (entry_of (r l)))
          _ (λ e v. Unit {0}) _ _
          (listener_entries-Good o ensure_defaults now w.db (bound_users bs (λ l. []))
            (users_by_id us (λ i. none))
            (bound_users-All (Joined w.db) bs (λ l. [])
              (subst (All (λ b. Joined w.db b.listener_id b.proxy_user_id)) (sym e)
                (live_bindings-Joined w.db))
              (λ l. tt))
            (users_by_id-Stored (Stored w.db) us (λ i. none) a (λ i u f. cc f)) ls (λ l. none) x
            (λ l n. tt))
          (λ r v g l h. g l (
            bound_users-nil bs (λ l. []) l
              (inr (
                subst (λ bs. any? (λ b. b.listener_id == l) bs ≡ true) (sym e)
                  (any?-filter l w.db.bindings h)))))
          (λ e v h. tt)

    loaded :
        (ls : List Listener) (bs : List ListenerUser) (x : World)
        → bs ≡ live_bindings w.db
        → x.db ≡ w.db
        → Post
            (Sourced o now w.db)
            (λ e v. Unit {0})
            ((load_users bs >>= λ us.
                listener_entries o ensure_defaults now
                  (bound_users bs (λ l. []))
                  (users_by_id us (λ i. none))
                  ls
                  (λ l. none))
              x)
    loaded ls bs x e k =
        Post-bind (λ us v. All (Stored w.db) us) _ _ (load_users bs x) _
          (subst (λ db. Post (λ us v. All (Stored db) us) (λ e v. Unit {0}) (load_users bs x)) k
            (load_users-Stored bs x))
          (λ us v a. entries ls bs us v e a)

-- Every credential that the core is given for a listener with a live binding is the name, the UUID
-- and the decrypted password of a live account that is active at that moment and that a live binding
-- joins to this listener, whether or not missing defaults are generated for other listeners.
pub credentials_by_listener-FromUser :
    (o : Outside) (ensure_defaults : Bool) (now : Time) (w v : World) (r : Result) (l : ℕ)
    → credentials_by_listener o ensure_defaults now w ≡ done r v
    → has_binding l w.db ≡ true
    → All (FromUser o now w.db l) (entry_of (r l))
credentials_by_listener-FromUser o ensure_defaults now w v r l e h =
    subst (Post (Sourced o now w.db) (λ e v. Unit {0})) e
      (credentials_by_listener-Post o ensure_defaults now w) l h
