-- ===== src/User/Ids.antt =====
-- The loops that drop repeated ids from a request: in `Batch` and `uniqueUint`, which also drop 0,
-- and in `BindListeners`, which does not. `seen` is the map of ids met so far.
pub mod Sizes
use m_ui.Base.{
  ℕ, false, not, ◌&&◌, ◌||◌, List, [], ◌∷◌, ◌++◌, ◌≡◌, refl, if◌then◌else◌, arith, ◌==◌, nat_eq,
  contains,
}

abbrev clean_loop : List ℕ → List ℕ → List ℕ → List ℕ
clean_loop [] seen clean = clean
clean_loop (id ∷ ids) seen clean =
    let skip = clean_loop ids seen clean in
    let keep = clean_loop ids (id ∷ seen) (clean ++ id ∷ []) in
    if id == 0 then skip else if contains seen id then skip else keep

unfoldable pub clean_ids : List ℕ → List ℕ
clean_ids ids = clean_loop ids [] []

abbrev distinct_loop : List ℕ → List ℕ → List ℕ → List ℕ
distinct_loop [] seen desired = desired
distinct_loop (id ∷ ids) seen desired =
    let skip = distinct_loop ids seen desired in
    let keep = distinct_loop ids (id ∷ seen) (desired ++ id ∷ []) in
    if contains seen id then skip else keep

unfoldable pub distinct_ids : List ℕ → List ℕ
distinct_ids ids = distinct_loop ids [] []

-- No id occurs twice.
abbrev pub Distinct : List ℕ → Type 0
Distinct [] = Unit {0}
Distinct (x ∷ xs) = (contains xs x ≡ false) × Distinct xs

pub contains-append :
    (xs ys : List ℕ) (x : ℕ) → contains (xs ++ ys) x ≡ (contains xs x || contains ys x)
contains-append [] ys x = refl
contains-append (y ∷ xs) ys x = ground (arith, contains-append xs ys x)

pub Distinct-snoc :
    (xs : List ℕ) (x : ℕ) → Distinct xs → contains xs x ≡ false → Distinct (xs ++ x ∷ [])
Distinct-snoc [] x d h = (refl, tt)
Distinct-snoc (y ∷ xs) x d h =
    (ground (arith, contains-append xs (x ∷ []) y), Distinct-snoc xs x d.1 (ground arith))

-- `seen` and the list built so far hold the same ids.
abbrev SameIds : List ℕ → List ℕ → Type 0
SameIds xs ys = (x : ℕ) → contains xs x ≡ contains ys x

SameIds-snoc : (xs ys : List ℕ) (i : ℕ) → SameIds xs ys → SameIds (i ∷ xs) (ys ++ i ∷ [])
SameIds-snoc xs ys i h x = ground (arith, h x, contains-append ys (i ∷ []) x)

clean_loop-contains :
    (ids seen clean : List ℕ) (x : ℕ)
    → SameIds seen clean
    → contains (clean_loop ids seen clean) x
      ≡ (contains clean x || (not (x == 0) && contains ids x))
clean_loop-contains [] seen clean x same = ground arith
clean_loop-contains (id ∷ ids) seen clean x same = ground (
  arith,
  same x,
  same id,
  contains-append clean (id ∷ []) x,
  clean_loop-contains ids seen clean x same,
  clean_loop-contains ids (id ∷ seen) (clean ++ id ∷ []) x (SameIds-snoc seen clean id same),
)

clean_loop-Distinct :
    (ids seen clean : List ℕ)
    → SameIds seen clean
    → Distinct clean
    → Distinct (clean_loop ids seen clean)
clean_loop-Distinct [] seen clean same d = d
clean_loop-Distinct (id ∷ ids) seen clean same d = ground (
  arith,
  same id,
  Distinct-snoc clean id d,
  clean_loop-Distinct ids seen clean same d,
  clean_loop-Distinct ids (id ∷ seen) (clean ++ id ∷ []) (SameIds-snoc seen clean id same),
)

distinct_loop-contains :
    (ids seen desired : List ℕ) (x : ℕ)
    → SameIds seen desired
    → contains (distinct_loop ids seen desired) x ≡ (contains desired x || contains ids x)
distinct_loop-contains [] seen desired x same = ground arith
distinct_loop-contains (id ∷ ids) seen desired x same = ground (
  arith,
  same x,
  same id,
  contains-append desired (id ∷ []) x,
  distinct_loop-contains ids seen desired x same,
  distinct_loop-contains ids (id ∷ seen) (desired ++ id ∷ []) x (SameIds-snoc seen desired id same),
)

distinct_loop-Distinct :
    (ids seen desired : List ℕ)
    → SameIds seen desired
    → Distinct desired
    → Distinct (distinct_loop ids seen desired)
distinct_loop-Distinct [] seen desired same d = d
distinct_loop-Distinct (id ∷ ids) seen desired same d = ground (
  arith,
  same id,
  Distinct-snoc desired id d,
  distinct_loop-Distinct ids seen desired same d,
  distinct_loop-Distinct ids (id ∷ seen) (desired ++ id ∷ []) (SameIds-snoc seen desired id same),
)

-- The cleaned request has no id twice, and holds exactly the ids of the request that are not 0.
pub clean_ids_lem :
    (ids : List ℕ)
    → Distinct (clean_ids ids)
      × ((x : ℕ) → contains (clean_ids ids) x ≡ (not (x == 0) && contains ids x))
unfolding clean_ids
clean_ids_lem ids =
    (clean_loop-Distinct ids [] [] (λ x. refl) tt, λ x. clean_loop-contains ids [] [] x (λ y. refl))

-- The desired bindings have no id twice, and hold exactly the ids of the request.
pub distinct_ids_lem :
    (ids : List ℕ)
    → Distinct (distinct_ids ids) × ((x : ℕ) → contains (distinct_ids ids) x ≡ contains ids x)
unfolding distinct_ids
distinct_ids_lem ids = (
  distinct_loop-Distinct ids [] [] (λ x. refl) tt,
  λ x. distinct_loop-contains ids [] [] x (λ y. refl),
)
