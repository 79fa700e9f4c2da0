-- ===== src/Listener/Service/Clash.antt =====
-- A created listener claims no socket of another (backend/internal/listener/service.go).
use m_ui.Base.{
  ℕ, zero, suc, ◌+◌, Bool, true, false, ◌||◌, List, ◌∷◌, ◌++◌, Option, none, some, nat_eq, text_eq,
  if◌then◌else◌, any?, trim_space, ◌≡◌, refl, ◌∙◌, Bool-cases, inl, inr, ◌⊎◌,
}
use m_ui.Models.{Listener}
use m_ui.Store.{
  World, Outcome, done, failed, M, ◌>>=◌, ◌>>◌, return, fail, select, Error, random_error,
}
use m_ui.Store.Laws.{Post, Post-bind, Post-mono, select-Post}
use m_ui.Listener.Ports.{atoi}
use m_ui.Listener.Endpoint.{is_clash}
use m_ui.Listener.Service.Ports.{
  Outside, on_failure, live_listeners, ensure_endpoint_available, allocate_free_port, draw_port,
  is_used,
}
use m_ui.Listener.Service.Create.{
  retry_port, settle_endpoint, with_port, positive_port, is_conflict, drawn_or,
}
use m_ui.Listener.Service.Steps.{Post-catch, Holds, ensure_endpoint_available-Holds, moved_to}

module _ (o : Outside) (us : List Listener) where
  draw_port-Holds :
      (draw : ℕ → Option ℕ) (used : ℕ → Bool) (tries i : ℕ) (w : World)
      → Holds us w
      → Post (λ _ v. Holds us v) (λ e v. Holds us v) (draw_port draw used tries i w)
  unfolding draw_port
  draw_port-Holds draw used zero i w h = h
  draw_port-Holds draw used (suc tries) i w h =
      drawn (draw_port-Holds draw used tries (suc i) w h) (draw i)
    where
      Kept : Outcome ℕ → Type 0
      Kept r = Post (λ _ v. Holds us v) (λ e v. Holds us v) r

      drawn :
          Kept (draw_port draw used tries (suc i) w)
          → (n : Option ℕ)
          → Kept (elim n [
            | none ↦ failed random_error w
            | some n ↦
                if used (10000 + n) then draw_port draw used tries (suc i) w else done (10000 + n) w
          ])
      drawn again none = h
      drawn again (some n) = elim (Bool-cases (used (10000 + n))) [
        | inl taken ↦ rw taken again
        | inr free ↦ rw free h
      ]

  pub allocate_free_port-Holds :
      (draw : ℕ → Option ℕ) (exclude : List ℕ) (w : World)
      → Holds us w
      → Post (λ _ v. Holds us v) (λ e v. Holds us v) (allocate_free_port draw exclude w)
  unfolding allocate_free_port
  allocate_free_port-Holds draw exclude w h =
      Post-bind (λ _ v. Holds us v) _ _ (select live_listeners w)
        (λ ls. draw_port draw (is_used exclude ls) 300 0)
        (Post-mono _ _ _ _ (select live_listeners w) (select-Post _ w)
          (λ _ v k. moved_to o us v w k.1 h) (λ e v k. moved_to o us v w k h))
        (λ ls v k. draw_port-Holds draw (is_used exclude ls) 300 0 v k)

  -- No listener claims the socket of `l`.
  abbrev IsFree : Listener → World → Type 0
  IsFree l v = Holds us v × (any? (is_clash o.parse_ip l) us ≡ false)

  -- The row with its port settled.
  abbrev pub Settled : Listener → Listener → World → Type 0
  Settled l m v =
      Holds us v
      × (any? (is_clash o.parse_ip m) us ≡ false)
      × (m.id ≡ l.id)
      × (m.deleted ≡ l.deleted)

  available :
      (l m : Listener) (w : World)
      → l.id ≡ 0
      → m.id ≡ l.id
      → m.deleted ≡ l.deleted
      → Holds us w
      → Post (Settled l) (λ e v. Holds us v) ((ensure_endpoint_available o m >> return m) w)
  available l m w new same mark h =
      Post-bind (λ _ v. IsFree m v) _ _ (ensure_endpoint_available o m w) (λ _. return m)
        (ensure_endpoint_available-Holds o us m w (same ∙ new) h) (λ _ v k. (k.0, k.1, same, mark))

  retry_port-Settled :
      (draw : ℕ → ℕ → Option ℕ) (attempts k : ℕ) (tried : List ℕ) (last : Error) (l m : Listener)
      (w : World)
      → l.id ≡ 0
      → m.id ≡ l.id
      → m.deleted ≡ l.deleted
      → Holds us w
      → Post (Settled l) (λ e v. Holds us v) (retry_port o draw attempts k tried last m w)
  unfolding retry_port
  retry_port-Settled draw zero k tried last l m w new same mark h = h
  retry_port-Settled draw (suc attempts) k tried last l m w new same mark h =
      Post-bind (λ _ v. Holds us v) _ _
        (on_failure (allocate_free_port (draw k) tried >>= λ p. return (some p)) (λ e. return none)
          w)
        (drawn_or (fail last) (round k tried m))
        (Post-catch _ (λ e v. Holds us v) _
          ((allocate_free_port (draw k) tried >>= λ p. return (some p)) w) _
          (Post-bind (λ _ v. Holds us v) _ _ (allocate_free_port (draw k) tried w)
            (λ p. return (some p)) (allocate_free_port-Holds (draw k) tried w h) (λ _ v c. c))
          (λ e v c. c))
        (λ port v c.
          drawn (λ t e x z. retry_port-Settled draw attempts (suc k) t e l z x new) port v c)
    where
      round : ℕ → List ℕ → Listener → ℕ → M Listener
      round k tried m p =
          let moved = with_port (o.decimal p) m in
          on_failure (ensure_endpoint_available o moved >> return moved) (λ e.
            retry_port o draw attempts (suc k)
              (tried ++ p ∷ positive_port (atoi (trim_space (o.decimal p)))) e moved)

      Again : Type 0
      Again =
          (t : List ℕ) (e : Error) (x : World) (z : Listener)
          → z.id ≡ l.id
          → z.deleted ≡ l.deleted
          → Holds us x
          → Post (Settled l) (λ e v. Holds us v) (retry_port o draw attempts (suc k) t e z x)

      drawn :
          Again
          → (port : Option ℕ) (v : World) → Holds us v
          → Post (Settled l) (λ e v. Holds us v) (drawn_or (fail last) (round k tried m) port v)
      drawn again none v c = c
      drawn again (some p) v c =
          Post-catch (Settled l) (λ e v. Holds us v) _
            ((ensure_endpoint_available o (with_port (o.decimal p) m)
                >> return (with_port (o.decimal p) m))
              v)
            _ (available l (with_port (o.decimal p) m) v new same mark c)
            (λ e x d. again _ e x (with_port (o.decimal p) m) same mark d)

  pub settle_endpoint-Settled :
      (draw : ℕ → ℕ → Option ℕ) (auto : Bool) (l : Listener) (w : World)
      → l.id ≡ 0
      → Holds us w
      → Post (Settled l) (λ e v. Holds us v) (settle_endpoint o draw auto l w)
  unfolding settle_endpoint
  settle_endpoint-Settled draw auto l w new h =
      Post-catch (Settled l) (λ e v. Holds us v) _ ((ensure_endpoint_available o l >> return l) w) _
        (available l l w new refl refl h)
        (λ e v c. retried e v c (Bool-cases (auto || is_conflict e)))
    where
      retried :
          (e : Error) (v : World)
          → Holds us v
          → ((auto || is_conflict e) ≡ true) ⊎ ((auto || is_conflict e) ≡ false)
          → Post
              (Settled l)
              (λ e v. Holds us v)
              ((if auto || is_conflict e
                  then retry_port o draw 8 1 (positive_port (atoi (trim_space l.port))) e l
                  else fail e)
                v)
      retried e v c (inl again) = rw again (retry_port-Settled draw 8 1 _ e l l v new refl refl c)
      retried e v c (inr no') = rw no' c
