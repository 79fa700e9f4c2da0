-- ===== src/Traffic/IpLimit.antt =====
-- `EnforceIPLimits` (backend/internal/traffic/ip_limit.go): closes the connections of an account that
-- come from more source addresses than its limit. `close` says of a connection whether the core's
-- `CloseConnection` succeeds; the lists are the maps in the order in which Go walks them.
pub mod Order
use m_ui.Base.{
  ℕ, suc, Bool, true, false, not, ◌&&◌, ◌||◌, List, [], ◌∷◌, ◌++◌, Option, none, some,
  if◌then◌else◌, ◌==◌, nat_eq, text_eq, ltb, length, drop, filter, Text, codes,
}
use m_ui.Base.Int.{ℤ, pos, pos_part, ltb_ℤ, leb_ℤ}
use m_ui.Base.Dict.{lookup, insert}
use m_ui.Models.{Db, ProxyUser}
use m_ui.Store.{World, Outcome, done, failed, M, select}
use m_ui.Table.{users_where}
use m_ui.Traffic.Collector.{ConnectionView}

unfoldable pub limit_by_user : List ProxyUser → List (ℕ × ℤ) → List (ℕ × ℤ)
limit_by_user [] m = m
limit_by_user (u ∷ us) m =
    limit_by_user us (if u.enabled && ltb_ℤ (pos 0) u.ip_limit then insert u.id u.ip_limit m else m)

-- The connections of one account, by source address.
abbrev pub Ips : Type 0
Ips = List (Text × List Text)

abbrev or_no_ids : Option (List Text) → List Text
or_no_ids none = []
or_no_ids (some ids) = ids

abbrev or_no_ips : Option Ips → Ips
or_no_ips none = []
or_no_ips (some ips) = ips

abbrev source_of : ConnectionView → Text
source_of v = if v.source_ip == [] then codes "unknown" else v.source_ip

abbrev add_connection : ConnectionView → Ips → Ips
add_connection v ips = insert (source_of v) (or_no_ids (lookup (source_of v) ips) ++ v.id ∷ []) ips

abbrev is_limited : Option ℤ → Bool
is_limited none = false
is_limited (some n) = true

abbrev group_one : List (ℕ × ℤ) → ConnectionView → Option ℕ → List (ℕ × Ips) → List (ℕ × Ips)
group_one limits v none m = m
group_one limits v (some user) m =
    if is_limited (lookup user limits)
    then insert user (add_connection v (or_no_ips (lookup user m))) m
    else m

unfoldable pub by_user : List (ℕ × ℤ) → List ConnectionView → List (ℕ × Ips) → List (ℕ × Ips)
by_user limits [] m = m
by_user limits (v ∷ vs) m = by_user limits vs (group_one limits v v.proxy_user_id m)

-- The order of Go's strings.
abbrev text_ltb : Text → Text → Bool
text_ltb a [] = false
text_ltb [] (y ∷ b) = true
text_ltb (x ∷ a) (y ∷ b) = ltb x y || (x == y && text_ltb a b)

-- The comparison of the sort: more connections first, then the address.
abbrev pub comes_first : Text × List Text → Text × List Text → Bool
comes_first (ip, ids) (jp, jds) =
    if not (length ids == length jds) then ltb (length jds) (length ids) else text_ltb ip jp

abbrev pub insert_ip : Text × List Text → Ips → Ips
insert_ip x [] = x ∷ []
insert_ip x (y ∷ ys) = if comes_first x y then x ∷ y ∷ ys else y ∷ insert_ip x ys

-- The addresses of an account differ, so the comparison leaves one order.
unfoldable pub sort : Ips → Ips
sort [] = []
sort (x ∷ xs) = insert_ip x (sort xs)

-- The addresses of an account beyond its limit.
unfoldable pub excess : ℤ → Ips → Ips
excess limit ips = if leb_ℤ (pos (length ips)) limit then [] else drop (pos_part limit) (sort ips)

abbrev all_ids : Ips → List Text
all_ids [] = []
all_ids ((ip, ids) ∷ rest) = ids ++ all_ids rest

abbrev or_zero_limit : Option ℤ → ℤ
or_zero_limit none = pos 0
or_zero_limit (some n) = n

unfoldable pub to_close : List (ℕ × ℤ) → List (ℕ × Ips) → List Text
to_close limits [] = []
to_close limits ((user, ips) ∷ rest) =
    all_ids (excess (or_zero_limit (lookup user limits)) ips) ++ to_close limits rest

abbrev count_closed : (Text → Bool) → List Text → ℕ
count_closed close [] = 0
count_closed close (id ∷ ids) =
    let rest = count_closed close ids in if close id then suc rest else rest

-- The connections that the core is asked to close, and how many it closed.
abbrev over_users : (Text → Bool) → List ConnectionView → Outcome (List ProxyUser) → List Text × ℕ
over_users close views (failed e w) = ([], 0)
over_users close views (done us w) =
    let limits = limit_by_user us [] in
    let ids = to_close limits (by_user limits views []) in (ids, count_closed close ids)

abbrev with_views : (Text → Bool) → List ConnectionView → World → List Text × ℕ
with_views close [] w = ([], 0)
with_views close (v ∷ vs) w = over_users close (v ∷ vs) (select (users_where (λ _. true)) w)

unfoldable pub enforce_ip_limits : (Text → Bool) → List ConnectionView → World → List Text × ℕ
enforce_ip_limits close views w = with_views close views w
