-- ===== src/Listener/Service/Ports.antt =====
-- A name and a port for a listener (`ensureUniqueName`, `ensureEndpointAvailable`, `allocateFreePort`).
use m_ui.Base.{
  ℕ, zero, suc, ◌+◌, ltb, Bool, false, not, ◌&&◌, ◌||◌, List, [], ◌∷◌, ◌++◌, Option, none, some,
  Text, codes, ◌==◌, nat_eq, text_eq, if◌then◌else◌, filter, any?, contains, map_where, trim_space,
}
use m_ui.Base.Int.{pos, leb_ℤ}
use m_ui.Models.{Db, Listener}
use m_ui.Net.Ip.{Ip}
use m_ui.Store.{
  Outcome, done, failed, M, ◌>>=◌, ◌>>◌, return, fail, select, exec, Error, name_required,
  name_exists, endpoint_conflict, no_free_port, random_error,
}
use m_ui.Listener.Ports.{Range, port_ranges}
use m_ui.Listener.Endpoint.{is_clash}

pub record Outside : Type 0 where
  pub parse_ip : Text → Option Ip
  pub decimal : ℕ → Text
  pub stamp : Text
  pub new_id : Db → ℕ
  pub prepare : Listener → Option Listener
  pub marshal : Listener → Text
  pub unmarshal : Text → Option Listener

abbrev pub caught {ℓ} : {A : Type ℓ} → Outcome A → (Error → M A) → Outcome A
caught (done a w) h = done a w
caught (failed e w) h = h e w

-- `if err := m; err != nil { return h(err) }`.
abbrev pub on_failure {ℓ} : {A : Type ℓ} → M A → (Error → M A) → M A
on_failure m h w = caught (m w) h

-- `db.Find(&list)`: the listeners that are not deleted.
abbrev pub live_listeners : Db → List Listener
live_listeners db = filter (λ l. not l.deleted) db.listeners

abbrev pub update_listeners : (Listener → Bool) → (Listener → Listener) → Db → Db
update_listeners p f db = record db { listeners = map_where p f db.listeners }

-- `id <> ?`, left out for a row without an id.
abbrev pub is_other : Listener → Listener → Bool
is_other candidate l = candidate.id == 0 || not (l.id == candidate.id)

module _ (o : Outside) where
  unfoldable pub delete_tombstone : Text → Listener → M (Unit {0})
  delete_tombstone name row =
      on_failure
        (exec (λ db. record db { listeners = filter (λ v. not (v.id == row.id)) db.listeners }))
        (λ e. exec (
          update_listeners (λ v. v.id == row.id)
            (λ v. record v {
              name = name ++ (codes "__deleted_" ++ (o.decimal row.id ++ (codes "_" ++ o.stamp)));
            })))

  -- The loop over the rows that have the name.
  unfoldable pub reclaim_name : Text → List Listener → M (Unit {0})
  unfolding delete_tombstone
  reclaim_name name [] = return tt
  reclaim_name name (row ∷ rows) =
      let rest = delete_tombstone name row >> reclaim_name name rows in
      if row.deleted then rest else fail name_exists

  unfoldable pub ensure_unique_name : Listener → M (Unit {0})
  unfolding reclaim_name
  ensure_unique_name candidate =
      let name = trim_space candidate.name in
      if name == []
      then fail name_required
      else select (λ db. filter (λ l. l.name == name && is_other candidate l) db.listeners)
        >>= reclaim_name name

  abbrev pub check_clash : Listener → List Listener → M (Unit {0})
  check_clash candidate ls =
      if any? (is_clash o.parse_ip candidate) ls then fail endpoint_conflict else return tt

  unfoldable pub ensure_endpoint_available : Listener → M (Unit {0})
  unfolding ensure_unique_name
  ensure_endpoint_available candidate =
      ensure_unique_name candidate
      >> (select (λ db. filter (is_other candidate) (live_listeners db)) >>= check_clash candidate)

abbrev in_range : ℕ → Range → Bool
in_range p r = leb_ℤ r.first (pos p) && leb_ℤ (pos p) r.last

abbrev in_ranges : ℕ → Option (List Range) → Bool
in_ranges p none = false
in_ranges p (some rs) = any? (in_range p) rs

abbrev pub reserved_ports : List ℕ
reserved_ports = 22 ∷ 53 ∷ 80 ∷ 443 ∷ 8080 ∷ 8443 ∷ 9090 ∷ []

-- Membership in the map `used`.
unfoldable pub is_used : List ℕ → List Listener → ℕ → Bool
is_used exclude ls p =
    contains reserved_ports p
    || ltb 0 p && contains exclude p
    || any? (λ l. in_ranges p (port_ranges l.port)) ls

-- The rounds of the loop, from the draw `i` on; `none` is an error of `rand.Int`.
unfoldable pub draw_port : (ℕ → Option ℕ) → (ℕ → Bool) → ℕ → ℕ → M ℕ
draw_port draw used zero i w = failed no_free_port w
draw_port draw used (suc tries) i w =
    let again = draw_port draw used tries (suc i) w in
    elim (draw i) [
      | none ↦ failed random_error w
      | some n ↦ if used (10000 + n) then again else done (10000 + n) w
    ]

unfoldable pub allocate_free_port : (ℕ → Option ℕ) → List ℕ → M ℕ
unfolding draw_port is_used
allocate_free_port draw exclude =
    select live_listeners >>= λ ls. draw_port draw (is_used exclude ls) 300 0
