-- ===== src/Net/Ssrf.antt =====
-- Which destinations a fetch by the server may reach (netutil/ssrf.go). `lookup` stands for
-- `net.LookupIP`, `parse_ip` for `net.ParseIP`; the environment is a function from names to values.
use m_ui.Base.{
  ℕ, Bool, true, not, ◌&&◌, ◌||◌, List, [], ◌∷◌, Option, none, some, Text, codes, ◌==◌, nat_eq,
  text_eq, leb, any?, if◌then◌else◌, to_lower, has_prefix, trim_space,
}
use mathlib.Core.List.{reverse}
use m_ui.Net.Ip.{
  Ip, v4, v6, ip_equal, is_loopback, is_private, is_link_local_unicast, is_link_local_multicast,
  is_unspecified,
}

unfoldable pub metadata_ips : List Ip
metadata_ips =
    v4 169 254 169 254
    ∷ v6 (253 ∷ 0 ∷ 14 ∷ 194 ∷ 0 ∷ 0 ∷ 0 ∷ 0 ∷ 0 ∷ 0 ∷ 0 ∷ 0 ∷ 0 ∷ 0 ∷ 2 ∷ 84 ∷ [])
    ∷ []

unfoldable pub allow_private_targets : (Text → Text) → Bool
allow_private_targets getenv =
    let v = trim_space (getenv (codes "THREE_M_UI_ALLOW_PRIVATE")) in
    if v == []
    then trim_space (getenv (codes "THREE_M_UI_CLUSTER_ALLOW_PRIVATE")) == codes "1"
    else v == codes "1"

unfoldable pub is_metadata_ip : Ip → Bool
unfolding metadata_ips
is_metadata_ip ip = any? (λ m. ip_equal ip m) metadata_ips

unfoldable pub is_blocked_ip : Ip → Bool
unfolding is_metadata_ip
is_blocked_ip ip =
    if is_metadata_ip ip
    then true
    else is_loopback ip
      || is_private ip
      || is_link_local_unicast ip
      || is_link_local_multicast ip
      || is_unspecified ip

-- `strings.HasSuffix`, the suffix first.
abbrev pub has_suffix : Text → Text → Bool
has_suffix p s = has_prefix (reverse p) (reverse s)

pub data Refusal : Type 0 where
  metadata_ip : Ip → Refusal
  private_ip : Ip → Refusal
  empty_host : Refusal
  local_host : Refusal
  bad_address : Refusal
  no_resolution : Refusal
  dial_error : Ip → Refusal
  no_allowed_address : Refusal

-- How a dial ended.
pub data Dialed : Type 0 where
  connected : Ip → Dialed
  refused : Refusal → Dialed

abbrev pub last_error : Option Refusal → Refusal
last_error none = no_allowed_address
last_error (some e) = e

-- `if err != nil { return f(err) }`.
abbrev pub on_error {ℓ} : {A : Type ℓ} → Option Refusal → (Refusal → A) → A → A
on_error (some e) f x = f e
on_error none f x = x

-- `none` is the nil error.
module _ (allow : Bool) where
  unfoldable pub assert_ip_allowed : Ip → Option Refusal
  unfolding is_metadata_ip is_blocked_ip
  assert_ip_allowed ip =
      if is_metadata_ip ip
      then some (metadata_ip ip)
      else if is_blocked_ip ip && not allow
      then some (private_ip ip)
      else none

  abbrev pub assert_all_allowed : List Ip → Option Refusal
  assert_all_allowed [] = none
  assert_all_allowed (ip ∷ ips) =
      let rest = assert_all_allowed ips in on_error (assert_ip_allowed ip) (λ e. some e) rest

  -- A dial gives the addresses to which a connection was tried, in order, and how it ended. In the
  -- loop over the addresses `last` is the last error so far.
  unfoldable pub dial_loop : (Ip → Bool) → List Ip → Option Refusal → List Ip × Dialed
  dial_loop answers [] last = ([], refused (last_error last))
  dial_loop answers (ip ∷ ips) last =
      let skipped = λ (e : Refusal). dial_loop answers ips (some e) in
      let next = dial_loop answers ips (some (dial_error ip)) in
      on_error (assert_ip_allowed ip) skipped
        (if answers ip then (ip ∷ [], connected ip) else (ip ∷ next.0, next.1))

  abbrev pub dial_literal : (Ip → Bool) → Ip → List Ip × Dialed
  dial_literal answers ip =
      on_error (assert_ip_allowed ip) (λ e. ([], refused e))
        (ip ∷ [], if answers ip then connected ip else refused (dial_error ip))

  module _ (parse_ip : Text → Option Ip) (lookup : Text → Option (List Ip)) where
    abbrev resolved : Option (List Ip) → Option Refusal
    resolved none = none
    resolved (some addrs) = assert_all_allowed addrs

    abbrev literal_or : Option Ip → Text → Option Refusal
    literal_or (some ip) host = assert_ip_allowed ip
    literal_or none host = resolved (lookup host)

    unfoldable pub assert_host_allowed : Text → Option Refusal
    unfolding assert_ip_allowed
    assert_host_allowed raw =
        let host = trim_space (to_lower raw) in
        if host == []
        then some empty_host
        else if host == codes "localhost"
            || has_suffix (codes ".localhost") host
            || has_suffix (codes ".local") host
        then (if allow then none else some local_host)
        else literal_or (parse_ip host) host

    abbrev pub dial_resolved : (Ip → Bool) → Option (List Ip) → List Ip × Dialed
    dial_resolved answers none = ([], refused no_resolution)
    dial_resolved answers (some ips) = dial_loop answers ips none

    abbrev pub dial_host : (Ip → Bool) → Option Ip → Text → List Ip × Dialed
    dial_host answers (some ip) host = dial_literal answers ip
    dial_host answers none host = dial_resolved answers (lookup host)

    -- `SafeDialContext`; `host` is the host of the address that `net.SplitHostPort` gives, if any.
    unfoldable pub safe_dial : (Ip → Bool) → Option Text → List Ip × Dialed
    unfolding assert_ip_allowed dial_loop
    safe_dial answers none = ([], refused bad_address)
    safe_dial answers (some host) = dial_host answers (parse_ip host) host

pub data RedirectError : Type 0 where
  too_many_redirects : RedirectError
  no_host : RedirectError
  blocked : Refusal → RedirectError

abbrev redirect_error : Option Refusal → Option RedirectError
redirect_error none = none
redirect_error (some e) = some (blocked e)

module _ (allow : Bool) (parse_ip : Text → Option Ip) (lookup : Text → Option (List Ip)) where
  -- `CheckRedirect`; the host of the target is blank where there is no URL, and `via` is the number of
  -- redirects so far.
  unfoldable pub check_redirect : ℕ → Text → Option RedirectError
  unfolding assert_host_allowed
  check_redirect via host =
      if leb 3 via
      then some too_many_redirects
      else if host == []
      then some no_host
      else redirect_error (assert_host_allowed allow parse_ip lookup host)
