-- ===== src/Net/Host.antt =====
-- Hosts as texts (netutil/host.go). `parse_ip` stands for `net.ParseIP`, `url_hostname` for the host
-- name of a text that `url.Parse` accepts, `split_host` for the host that `net.SplitHostPort` gives.
use m_ui.Base.{
  ℕ, nat_beq, Bool, true, false, ◌||◌, [], ◌∷◌, ◌++◌, Option, none, some, Text, codes, ◌==◌,
  text_eq, if◌then◌else◌, to_lower, has_prefix, trim_space,
}
use mathlib.Core.List.{reverse}
use m_ui.Net.Ip.{Ip, v4, v6, is_loopback, is_unspecified}

-- `strings.Contains`, the part first.
unfoldable pub has_part : Text → Text → Bool
has_part p [] = has_prefix p []
has_part p (c ∷ s) = has_prefix p (c ∷ s) || has_part p s

-- What stands before and after the first `]`.
unfoldable pub cut_bracket : Text → Option (Text × Text)
cut_bracket [] = none
cut_bracket (c ∷ s) =
    let rest = cut_bracket s in
    if nat_beq c b']'
    then some ([], s)
    else elim rest [ none ↦ none | some (a, b) ↦ some (c ∷ a, b) ]

abbrev is_bracket : ℕ → Bool
is_bracket c = nat_beq c b'[' || nat_beq c b']'

abbrev drop_brackets : Text → Text
drop_brackets [] = []
drop_brackets (c ∷ s) = if is_bracket c then drop_brackets s else c ∷ s

-- `strings.Trim(h, "[]")`.
unfoldable pub trim_brackets : Text → Text
trim_brackets s = reverse (drop_brackets (reverse (drop_brackets s)))

-- `net.JoinHostPort`.
abbrev pub net_join_host_port : Text → Text → Text
net_join_host_port host port =
    if has_part (codes ":") host
    then codes "[" ++ (host ++ (codes "]:" ++ port))
    else host ++ (codes ":" ++ port)

module _ (parse_ip : Text → Option Ip) (url_hostname : Text → Option Text)
    (split_host : Text → Option Text) where
  abbrev or_hostname : Text → Option Text → Text
  or_hostname h none = h
  or_hostname h (some []) = h
  or_hostname h (some (c ∷ host)) = c ∷ host

  abbrev without_scheme : Text → Text
  without_scheme h = if has_part (codes "://") h then or_hostname h (url_hostname h) else h

  abbrev without_port : Text → Option Text → Text
  without_port h none = trim_brackets h
  without_port h (some host) = host

  -- The text between the brackets, unless what follows them is no port.
  abbrev pub bracketed : Text → Option (Text × Text) → Text
  bracketed h none = without_port h (split_host h)
  bracketed h (some (inner, [])) = inner
  bracketed h (some (inner, c ∷ rest)) =
      if nat_beq c b':' then inner else without_port h (split_host h)

  abbrev pub bare_host : Text → Text
  bare_host [] = without_port [] (split_host [])
  bare_host (c ∷ h) =
      if nat_beq c b'['
      then bracketed (c ∷ h) (cut_bracket h)
      else without_port (c ∷ h) (split_host (c ∷ h))

  unfoldable pub normalize_host : Text → Text
  unfolding has_part cut_bracket trim_brackets
  normalize_host raw =
      let h = trim_space raw in if h == [] then [] else bare_host (without_scheme h)

  abbrev any_ip : (Ip → Bool) → Option Ip → Bool
  any_ip p none = false
  any_ip p (some ip) = p ip

  abbrev pub is_v6 : Ip → Bool
  is_v6 (v4 a b c d) = false
  is_v6 (v6 xs) = true

  unfoldable pub is_unspecified_bind : Text → Bool
  unfolding normalize_host
  is_unspecified_bind host =
      let h = normalize_host host in
      if h == [] || h == codes "*" then true else any_ip is_unspecified (parse_ip h)

  unfoldable pub is_loopback_host : Text → Bool
  unfolding normalize_host
  is_loopback_host host =
      let h = normalize_host host in
      if h == []
      then false
      else if to_lower h == codes "localhost"
      then true
      else any_ip is_loopback (parse_ip h)

  unfoldable pub is_ip : Text → Bool
  unfolding normalize_host
  is_ip host = any_ip (λ ip. true) (parse_ip (normalize_host host))

  unfoldable pub is_ipv6 : Text → Bool
  unfolding normalize_host
  is_ipv6 host = any_ip is_v6 (parse_ip (normalize_host host))

  unfoldable pub join_host_port : Text → Text → Text
  unfolding normalize_host has_part
  join_host_port host port = net_join_host_port (normalize_host host) (trim_space port)

  unfoldable pub format_url_host : Text → Text → Text
  unfolding normalize_host has_part is_ipv6
  format_url_host host port =
      let h = normalize_host host in
      if port == []
      then (if is_ipv6 h then codes "[" ++ (h ++ codes "]") else h)
      else net_join_host_port h port
