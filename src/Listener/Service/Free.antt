-- ===== src/Listener/Service/Free.antt =====
-- The port that `allocateFreePort` draws (backend/internal/listener/quick.go).
use m_ui.Base.{
  ℕ, zero, suc, ◌+◌, ◌≤◌, false, List, [], ◌∷◌, Option, none, some, if◌then◌else◌, contains, any?,
  nat_eq, All, ◌≡◌, refl, subst, ◌∙◌, arith, Bool-cases, inl, inr,
}
use m_ui.Base.Int.{pos}
use m_ui.Models.{Listener}
use m_ui.Store.{World, Outcome, done, failed, select, random_error}
use m_ui.Store.Laws.{Post, Post-bind, Post-mono, select-Post}
use m_ui.Listener.Ports.{port_ranges}
use m_ui.Listener.Ports.Overlap.{has_port}
use m_ui.Listener.Service.Ports.{
  live_listeners, reserved_ports, is_used, draw_port, allocate_free_port,
}

-- What `rand.Int` promises of a draw: a number below 50001.
abbrev pub IsDraw : Option ℕ → Type 0
IsDraw none = Unit
IsDraw (some n) = n ≤ 50000

-- In the range of the panel's ports, and in no list of used ones.
abbrev pub IsFreePort : List ℕ → List Listener → ℕ → Type 0
IsFreePort exclude ls p =
    (10000 ≤ p)
    × (p ≤ 60000)
    × (contains reserved_ports p ≡ false)
    × (contains exclude p ≡ false)
    × All (λ l. has_port (pos p) (port_ranges l.port) ≡ false) ls

drawn_free :
    (exclude : List ℕ) (ls : List Listener) (n : ℕ)
    → n ≤ 50000
    → is_used exclude ls (10000 + n) ≡ false
    → IsFreePort exclude ls (10000 + n)
unfolding is_used
drawn_free exclude ls n h free = (
  omega arith,
  omega arith,
  ground (arith, free),
  ground (arith, free),
  unlisted ls (ground (arith, free)),
)
  where
    unlisted :
        (ls : List Listener)
        → any? (λ l. has_port (pos (10000 + n)) (port_ranges l.port)) ls ≡ false
        → All (λ l. has_port (pos (10000 + n)) (port_ranges l.port) ≡ false) ls
    unlisted [] e = tt
    unlisted (l ∷ ls) e = (ground (arith, e), unlisted ls (ground (arith, e)))

draw_port-IsFreePort :
    (draw : ℕ → Option ℕ) (exclude : List ℕ) (ls : List Listener)
    → ((i : ℕ) → IsDraw (draw i))
    → (tries i : ℕ) (w : World)
    → Post
        (λ p v. IsFreePort exclude ls p × (v.db ≡ w.db))
        (λ e v. v.db ≡ w.db)
        (draw_port draw (is_used exclude ls) tries i w)
unfolding draw_port
draw_port-IsFreePort draw exclude ls d zero i w = refl
draw_port-IsFreePort draw exclude ls d (suc tries) i w =
    drawn (draw_port-IsFreePort draw exclude ls d tries (suc i) w) (draw i) (d i)
  where
    Good : Outcome ℕ → Type 0
    Good r = Post (λ p v. IsFreePort exclude ls p × (v.db ≡ w.db)) (λ e v. v.db ≡ w.db) r

    drawn :
        Good (draw_port draw (is_used exclude ls) tries (suc i) w)
        → (n : Option ℕ) → IsDraw n
        → Good (elim n [
          | none ↦ failed random_error w
          | some n ↦
              if is_used exclude ls (10000 + n)
              then draw_port draw (is_used exclude ls) tries (suc i) w
              else done (10000 + n) w
        ])
    drawn again none b = refl
    drawn again (some n) b = elim (Bool-cases (is_used exclude ls (10000 + n))) [
      | inl taken ↦ rw taken again
      | inr free ↦ rw free (drawn_free exclude ls n b free, refl)
    ]

-- A port that is drawn lies between 10000 and 60000, is not reserved, is none of those tried before,
-- and is in the port list of no live listener; drawing one changes no table.
pub allocate_free_port-IsFreePort :
    (draw : ℕ → Option ℕ) (exclude : List ℕ) (w : World)
    → ((i : ℕ) → IsDraw (draw i))
    → Post
        (λ p v. IsFreePort exclude (live_listeners w.db) p × (v.db ≡ w.db))
        (λ e v. v.db ≡ w.db)
        (allocate_free_port draw exclude w)
unfolding allocate_free_port
allocate_free_port-IsFreePort draw exclude w d =
    Post-bind (λ ls v. (ls ≡ live_listeners w.db) × (v.db ≡ w.db)) _ _ (select live_listeners w)
      (λ ls. draw_port draw (is_used exclude ls) 300 0) (select-Post live_listeners w)
      (λ ls v h.
        Post-mono _ _ _ _ (draw_port draw (is_used exclude ls) 300 0 v)
          (draw_port-IsFreePort draw exclude ls d 300 0 v)
          (λ p x k. (subst (λ us. IsFreePort exclude us p) h.0 k.0, k.1 ∙ h.1)) (λ e x k. k ∙ h.1))
