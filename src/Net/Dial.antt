-- ===== src/Net/Dial.antt =====
-- What the server dials (netutil/ssrf.go).
use m_ui.Base.{
  Bool, true, false, not, ◌&&◌, ◌||◌, List, [], ◌∷◌, Option, none, some, Text, find?, if◌then◌else◌,
  ◌≡◌, refl, ◌⊎◌, inl, inr, All, Bool-cases,
}
use m_ui.Net.Ip.{Ip}
use m_ui.Net.Ssrf.{
  is_metadata_ip, is_blocked_ip, assert_ip_allowed, Refusal, dial_error, Dialed, connected, refused,
  dial_loop, dial_literal, dial_resolved, dial_host, safe_dial, metadata_ip, private_ip,
}

-- No metadata address; no private one, unless the operator allows them.
abbrev pub MayDial : Bool → Ip → Type 0
MayDial allow ip = (is_metadata_ip ip ≡ false) × ((is_blocked_ip ip ≡ false) ⊎ (allow ≡ true))

abbrev pub may_dial : Bool → Ip → Bool
may_dial allow ip = not (is_metadata_ip ip) && (not (is_blocked_ip ip) || allow)

-- The address of the connection.
abbrev pub reached : Dialed → Option Ip
reached (connected ip) = some ip
reached (refused e) = none

may_dial-MayDial :
    (m b allow : Bool)
    → (not m && (not b || allow)) ≡ true
    → (m ≡ false) × ((b ≡ false) ⊎ (allow ≡ true))
may_dial-MayDial false false allow h = (refl, inl refl)
may_dial-MayDial false true true h = (refl, inr refl)
may_dial-MayDial false true false h = cc
may_dial-MayDial true b allow h = cc

assert_may :
    (allow : Bool) (ip : Ip)
    → ((e : Refusal) × (assert_ip_allowed allow ip ≡ some e) × (may_dial allow ip ≡ false))
      ⊎ ((assert_ip_allowed allow ip ≡ none) × (may_dial allow ip ≡ true))
unfolding assert_ip_allowed
assert_may allow ip = go (is_metadata_ip ip) (is_blocked_ip ip) allow
  where
    go :
        (m b a : Bool)
        → ((e : Refusal) × ((if m
                then some (metadata_ip ip)
                else if b && not a
                then some (private_ip ip)
                else none)
              ≡ some e)
            × ((not m && (not b || a)) ≡ false))
          ⊎ (((if m
                  then some (metadata_ip ip)
                  else if b && not a
                  then some (private_ip ip)
                  else none)
                ≡ none)
              × ((not m && (not b || a)) ≡ true))
    go true b a = inl (metadata_ip ip, refl, refl)
    go false false a = inr (refl, refl)
    go false true true = inr (refl, refl)
    go false true false = inl (private_ip ip, refl, refl)

module _ (allow : Bool) (answers : Ip → Bool) where
  loop_allowed :
      (ips : List Ip) (last : Option Refusal)
      → All (MayDial allow) (dial_loop allow answers ips last).0
  unfolding dial_loop
  loop_allowed [] last = tt
  loop_allowed (ip ∷ ips) last = elim (assert_may allow ip) [
    | inl (e, h, g) ↦ rw h (loop_allowed ips (some e))
    | inr (h, g) ↦ elim (Bool-cases (answers ip)) [
      | inl yes' ↦ rw (h, yes') (may_dial-MayDial _ _ allow g, tt)
      | inr no' ↦
          rw (h, no') (may_dial-MayDial _ _ allow g, loop_allowed ips (some (dial_error ip)))
    ]
  ]

  loop_reached :
      (ips : List Ip) (last : Option Refusal)
      → reached (dial_loop allow answers ips last).1
        ≡ find? (λ ip. may_dial allow ip && answers ip) ips
  unfolding dial_loop
  loop_reached [] last = refl
  loop_reached (ip ∷ ips) last = elim (assert_may allow ip) [
    | inl (e, h, g) ↦ rw (h, g) (loop_reached ips (some e))
    | inr (h, g) ↦ elim (Bool-cases (answers ip)) [
      | inl yes' ↦ rw (h, g, yes')
      | inr no' ↦ rw (h, g, no') (loop_reached ips (some (dial_error ip)))
    ]
  ]

  literal_allowed : (ip : Ip) → All (MayDial allow) (dial_literal allow answers ip).0
  literal_allowed ip = elim (assert_may allow ip) [
    | inl (e, h, g) ↦ rw h tt
    | inr (h, g) ↦ rw h (may_dial-MayDial _ _ allow g, tt)
  ]

  literal_reached :
      (ip : Ip)
      → reached (dial_literal allow answers ip).1
        ≡ find? (λ ip. may_dial allow ip && answers ip) (ip ∷ [])
  literal_reached ip = elim (assert_may allow ip) [
    | inl (e, h, g) ↦ rw (h, g)
    | inr (h, g) ↦ elim (Bool-cases (answers ip)) [
      | inl yes' ↦ rw (h, g, yes')
      | inr no' ↦ rw (h, g, no')
    ]
  ]

  module _ (parse_ip : Text → Option Ip) (lookup : Text → Option (List Ip)) where
    -- Whatever the name of the host resolves to at the time of the connection, the server tries no
    -- metadata address, and a loopback, private or link-local address only if the operator allows it.
    pub safe_dial-allowed :
        (host : Option Text) → All (MayDial allow) (safe_dial allow parse_ip lookup answers host).0
    unfolding safe_dial
    safe_dial-allowed none = tt
    safe_dial-allowed (some host) = go (parse_ip host) (lookup host)
      where
        resolved :
            (ips : Option (List Ip))
            → All (MayDial allow) (dial_resolved allow parse_ip lookup answers ips).0
        resolved none = tt
        resolved (some ips) = loop_allowed ips none

        go :
            (o : Option Ip) (ips : Option (List Ip))
            → All (MayDial allow) (dial_host allow parse_ip lookup answers o host).0
        go (some ip) ips = literal_allowed ip
        go none ips = resolved (lookup host)

    abbrev pub candidates : Option Ip → Option (List Ip) → List Ip
    candidates (some ip) ips = ip ∷ []
    candidates none none = []
    candidates none (some ips) = ips

    -- The server connects to the first address of the host that it may dial and that answers, and to
    -- none exactly if there is no such address.
    pub safe_dial-first :
        (host : Text)
        → reached (safe_dial allow parse_ip lookup answers (some host)).1
          ≡ find? (λ ip. may_dial allow ip && answers ip) (candidates (parse_ip host) (lookup host))
    unfolding safe_dial
    safe_dial-first host = go (parse_ip host)
      where
        resolved :
            (ips : Option (List Ip))
            → reached (dial_resolved allow parse_ip lookup answers ips).1
              ≡ find? (λ ip. may_dial allow ip && answers ip) (candidates none ips)
        resolved none = refl
        resolved (some ips) = loop_reached ips none

        go :
            (o : Option Ip)
            → reached (dial_host allow parse_ip lookup answers o host).1
              ≡ find? (λ ip. may_dial allow ip && answers ip) (candidates o (lookup host))
        go (some ip) = literal_reached ip
        go none = resolved (lookup host)
