-- ===== src/Store/Laws.antt =====
-- What a statement and a transaction do to the tables, whichever statements fail.
use m_ui.Base.{Bool, true, false, List, [], ◌∷◌, ◌≡◌, refl, Option, none, some, ◌⊎◌, inl, inr}
use m_ui.Models.{Db}
use m_ui.Store.{
  Error, World, Outcome, done, failed, M, bind, select, select_with, exec, exec_with, first,
  or_not_found, transaction, settle, commit_with, ignore, ignore_outcome, after,
}

-- What holds if the call succeeds, and what holds if it fails.
abbrev pub Post :
    {A : Type 0} → (A → World → Type 0) → (Error → World → Type 0) → Outcome A → Type 0
Post P Q (done a w) = P a w
Post P Q (failed e w) = Q e w

module _ {A B : Type 0} where
  pub Post-bind :
      (R : A → World → Type 0) (P : B → World → Type 0) (Q : Error → World → Type 0) (o : Outcome A)
      (f : A → M B)
      → Post R Q o
      → ((a : A) (w : World) → R a w → Post P Q (f a w))
      → Post P Q (bind o f)
  Post-bind R P Q (done a w) f h k = k a w h
  Post-bind R P Q (failed e w) f h k = h

module _ {A : Type 0} where
  pub Post-mono :
      (P P' : A → World → Type 0) (Q Q' : Error → World → Type 0) (o : Outcome A)
      → Post P Q o
      → ((a : A) (w : World) → P a w → P' a w)
      → ((e : Error) (w : World) → Q e w → Q' e w)
      → Post P' Q' o
  Post-mono P P' Q Q' (done a w) h f g = f a w h
  Post-mono P P' Q Q' (failed e w) h f g = g e w h

  select_with-Post :
      (f : Db → A) (w : World) (fs : List Bool)
      → Post (λ a v. (a ≡ f w.db) × (v.db ≡ w.db)) (λ e v. v.db ≡ w.db) (select_with f w fs)
  select_with-Post f w [] = (refl, refl)
  select_with-Post f w (true ∷ fs) = refl
  select_with-Post f w (false ∷ fs) = (refl, refl)

  -- A read returns what the tables say, and leaves them alone.
  pub select-Post :
      (f : Db → A) (w : World)
      → Post (λ a v. (a ≡ f w.db) × (v.db ≡ w.db)) (λ e v. v.db ≡ w.db) (select f w)
  unfolding select
  select-Post f w = select_with-Post f w w.faults

  or_not_found-Post :
      (db : Db) (w : World) (o p : Option A)
      → o ≡ p
      → w.db ≡ db
      → Post (λ a v. (p ≡ some a) × (v.db ≡ db)) (λ e v. v.db ≡ db) (or_not_found o w)
  or_not_found-Post db w none p h k = k
  or_not_found-Post db w (some a) p h k = (cc, k)

  settle-Post :
      (P : A → Db → Type 0) (before : Db) (o : Outcome A)
      → Post (λ a v. P a v.db) (λ e v. Unit {0}) o
      → Post (λ a v. P a v.db) (λ e v. v.db ≡ before) (settle before o)
  settle-Post P before (failed e w) h = refl
  settle-Post P before (done a w) h = commit w.faults
    where
      commit :
          (fs : List Bool)
          → Post (λ a v. P a v.db) (λ e v. v.db ≡ before) (commit_with a before w fs)
      commit [] = h
      commit (true ∷ fs) = refl
      commit (false ∷ fs) = h

  -- A transaction that fails leaves the tables as they were; one that succeeds keeps what its
  -- statements established.
  pub transaction-Post :
      (P : A → Db → Type 0) (m : M A) (w : World)
      → Post (λ a v. P a v.db) (λ e v. Unit {0}) (m w)
      → Post (λ a v. P a v.db) (λ e v. v.db ≡ w.db) (transaction m w)
  unfolding transaction
  transaction-Post P m w h = settle-Post P w.db (m w) h

pub first-Post :
    {A : Type 0} (f : Db → Option A) (w : World)
    → Post (λ a v. (f w.db ≡ some a) × (v.db ≡ w.db)) (λ e v. v.db ≡ w.db) (first f w)
unfolding first
first-Post f w =
    Post-bind (λ a v. (a ≡ f w.db) × (v.db ≡ w.db)) _ _ (select f w) or_not_found (select-Post f w)
      (λ o v h. or_not_found-Post w.db v o (f w.db) h.0 h.1)

exec_with-Post :
    (f : Db → Db) (w : World) (fs : List Bool)
    → Post (λ _ v. v.db ≡ f w.db) (λ e v. v.db ≡ w.db) (exec_with f w fs)
exec_with-Post f w [] = refl
exec_with-Post f w (true ∷ fs) = refl
exec_with-Post f w (false ∷ fs) = refl

-- A write makes its change or none.
pub exec-Post :
    (f : Db → Db) (w : World) → Post (λ _ v. v.db ≡ f w.db) (λ e v. v.db ≡ w.db) (exec f w)
unfolding exec
exec-Post f w = exec_with-Post f w w.faults

-- Without faults ahead the statements are plain functions of the tables.
pub select_ok : {A : Type 0} (f : Db → A) (w : World) → w.faults ≡ [] → select f w ≡ done (f w.db) w
unfolding select
select_ok f w h = rw h

pub exec_ok :
    (f : Db → Db) (w : World) → w.faults ≡ [] → exec f w ≡ done tt (record w { db = f w.db })
unfolding exec
exec_ok f w h = rw h

pub first_ok :
    {A : Type 0} (f : Db → Option A) (w : World)
    → w.faults ≡ []
    → first f w ≡ or_not_found (f w.db) w
unfolding first
first_ok f w h = rw (select_ok f w h)

pub transaction_ok :
    {A : Type 0} (m : M A) (w v : World) (a : A)
    → m w ≡ done a v
    → v.faults ≡ []
    → transaction m w ≡ done a v
unfolding transaction
transaction_ok m w v a h clean = rw (h, clean)

-- A write was made or it was not, whether or not its error is dropped.
pub after-exec :
    (f : Db → Db) (w : World) → ((after (exec f w)).db ≡ f w.db) ⊎ ((after (exec f w)).db ≡ w.db)
unfolding exec
after-exec f w = go w.faults
  where
    go :
        (fs : List Bool)
        → ((after (exec_with f w fs)).db ≡ f w.db) ⊎ ((after (exec_with f w fs)).db ≡ w.db)
    go [] = inl refl
    go (true ∷ fs) = inr refl
    go (false ∷ fs) = inl refl

pub after-ignore : (m : M (Unit {0})) (w : World) → after (ignore m w) ≡ after (m w)
after-ignore m w = go (m w)
  where
    go : (o : Outcome (Unit {0})) → after (ignore_outcome o) ≡ after o
    go (done a v) = refl
    go (failed e v) = refl
