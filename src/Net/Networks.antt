-- ===== src/Net/Networks.antt =====
-- Which IPv4 addresses are blocked (netutil/ssrf.go).
use m_ui.Base.{
  ℕ, ◌+◌, ◌*◌, ◌/◌, ◌≤◌, nat_beq, Bool, true, false, not, ◌&&◌, ◌||◌, List, [], ◌∷◌, nat_eq, leb,
  any?, if◌then◌else◌, ◌≡◌, arith, ◌∙◌,
}
use m_ui.Net.Ip.{
  v4, is_loopback, is_private, is_link_local_unicast, is_link_local_multicast, is_unspecified,
}
use m_ui.Net.Ssrf.{is_metadata_ip, metadata_ips, is_blocked_ip}

-- The first and the last address of a network.
abbrev pub Network : Type 0
Network = ℕ × ℕ

abbrev pub number : ℕ → ℕ → ℕ → ℕ → ℕ
number a b c d = a * 16777216 + b * 65536 + c * 256 + d

-- 0.0.0.0, 10.0.0.0/8, 127.0.0.0/8, 169.254.0.0/16, 172.16.0.0/12, 192.168.0.0/16, 224.0.0.0/24.
abbrev pub blocked_networks : List Network
blocked_networks =
    (0, 0)
    ∷ (167772160, 184549375)
    ∷ (2130706432, 2147483647)
    ∷ (2851995648, 2852061183)
    ∷ (2886729728, 2887778303)
    ∷ (3232235520, 3232301055)
    ∷ (3758096384, 3758096639)
    ∷ []

abbrev pub in_network : ℕ → Network → Bool
in_network n (lo, hi) = leb lo n && leb n hi

-- The order of the tests does not matter, and the metadata address is link-local.
any_order :
    (m u t l k w x c : Bool)
    → (m && not k) ≡ false
    → (if m then true else l || (t || w || x) || k || c || u)
      ≡ (u || (t || (l || (k || (w || (x || (c || false)))))))
any_order true u t l true w x c h = ground arith
any_order true u t l false w x c h = cc
any_order false u t l k w x c h = ground arith

module _ (a b c d : ℕ) (ha : a ≤ 255) (hb : b ≤ 255) (hc : c ≤ 255) (hd : d ≤ 255) where
  unspecified_net :
      (nat_beq a 0 && nat_beq b 0 && nat_beq c 0 && nat_beq d 0)
      ≡ in_network (number a b c d) (0, 0)
  unspecified_net = ground arith

  ten_net : (nat_beq a 10) ≡ in_network (number a b c d) (167772160, 184549375)
  ten_net = ground arith

  loopback_net : (nat_beq a 127) ≡ in_network (number a b c d) (2130706432, 2147483647)
  loopback_net = ground arith

  link_local_net :
      ((nat_beq a 169 && nat_beq b 254)) ≡ in_network (number a b c d) (2851995648, 2852061183)
  link_local_net = ground arith

  twelve_net :
      ((nat_beq a 172 && nat_beq (b / 16) 1)) ≡ in_network (number a b c d) (2886729728, 2887778303)
  twelve_net = ground arith

  sixteen_net :
      ((nat_beq a 192 && nat_beq b 168)) ≡ in_network (number a b c d) (3232235520, 3232301055)
  sixteen_net = ground arith

  multicast_net :
      ((nat_beq a 224 && nat_beq b 0 && nat_beq c 0))
      ≡ in_network (number a b c d) (3758096384, 3758096639)
  multicast_net = ground arith

  metadata_local :
      ((nat_beq a 169 && nat_beq b 254 && nat_beq c 169 && nat_beq d 254 || (false || false))
        && not (nat_beq a 169 && nat_beq b 254))
      ≡ false
  metadata_local = ground arith

  -- An IPv4 address is blocked exactly if it lies in one of these seven networks.
  pub is_blocked_ip_v4 :
      is_blocked_ip (v4 a b c d) ≡ any? (in_network (number a b c d)) blocked_networks
  unfolding is_blocked_ip is_metadata_ip metadata_ips is_loopback is_private is_link_local_unicast
      is_link_local_multicast is_unspecified
  is_blocked_ip_v4 =
      any_order
        (nat_beq a 169 && nat_beq b 254 && nat_beq c 169 && nat_beq d 254 || (false || false))
        (nat_beq a 0 && nat_beq b 0 && nat_beq c 0 && nat_beq d 0) (nat_beq a 10) (nat_beq a 127)
        (nat_beq a 169 && nat_beq b 254) (nat_beq a 172 && nat_beq (b / 16) 1)
        (nat_beq a 192 && nat_beq b 168) (nat_beq a 224 && nat_beq b 0 && nat_beq c 0)
        metadata_local
      ∙ rw (
        unspecified_net, ten_net, loopback_net, link_local_net, twelve_net, sixteen_net,
        multicast_net,
      )
