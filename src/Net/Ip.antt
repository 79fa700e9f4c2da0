-- ===== src/Net/Ip.antt =====
-- Addresses and their classes, as Go's `net.IP` has them: `v6` holds sixteen bytes that are no mapped
-- IPv4 address.
use m_ui.Base.{ℕ, ◌/◌, ◌%◌, Bool, false, ◌&&◌, ◌||◌, List, [], ◌∷◌, ◌==◌, nat_eq, text_eq, nat_beq}

pub data Ip : Type 0 where
  v4 : ℕ → ℕ → ℕ → ℕ → Ip
  v6 : List ℕ → Ip

-- `ip.Equal`.
abbrev pub ip_equal : Ip → Ip → Bool
ip_equal (v4 a b c d) (v4 e f g h) = nat_beq a e && nat_beq b f && nat_beq c g && nat_beq d h
ip_equal (v6 xs) (v6 ys) = xs == ys
ip_equal _ _ = false

-- `ip[0]` and `ip[1]` of the sixteen bytes.
abbrev first_bytes : (ℕ → ℕ → Bool) → List ℕ → Bool
first_bytes p [] = false
first_bytes p (x ∷ []) = false
first_bytes p (x ∷ y ∷ rest) = p x y

abbrev pub zeros : List ℕ
zeros = 0 ∷ 0 ∷ 0 ∷ 0 ∷ 0 ∷ 0 ∷ 0 ∷ 0 ∷ 0 ∷ 0 ∷ 0 ∷ 0 ∷ 0 ∷ 0 ∷ 0 ∷ 0 ∷ []

abbrev pub loopback_v6 : List ℕ
loopback_v6 = 0 ∷ 0 ∷ 0 ∷ 0 ∷ 0 ∷ 0 ∷ 0 ∷ 0 ∷ 0 ∷ 0 ∷ 0 ∷ 0 ∷ 0 ∷ 0 ∷ 0 ∷ 1 ∷ []

unfoldable pub is_loopback : Ip → Bool
is_loopback (v4 a b c d) = nat_beq a 127
is_loopback (v6 xs) = xs == loopback_v6

-- `ip4[1] & 0xf0 == 16`; for IPv6 `ip[0] & 0xfe == 0xfc`.
unfoldable pub is_private : Ip → Bool
is_private (v4 a b c d) =
    nat_beq a 10 || nat_beq a 172 && nat_beq (b / 16) 1 || nat_beq a 192 && nat_beq b 168
is_private (v6 xs) = first_bytes (λ x y. nat_beq (x / 2) 126) xs

-- For IPv6 `ip[0] == 0xfe && ip[1] & 0xc0 == 0x80`.
unfoldable pub is_link_local_unicast : Ip → Bool
is_link_local_unicast (v4 a b c d) = nat_beq a 169 && nat_beq b 254
is_link_local_unicast (v6 xs) = first_bytes (λ x y. nat_beq x 254 && nat_beq (y / 64) 2) xs

-- For IPv6 `ip[0] == 0xff && ip[1] & 0x0f == 0x02`.
unfoldable pub is_link_local_multicast : Ip → Bool
is_link_local_multicast (v4 a b c d) = nat_beq a 224 && nat_beq b 0 && nat_beq c 0
is_link_local_multicast (v6 xs) = first_bytes (λ x y. nat_beq x 255 && nat_beq (y % 16) 2) xs

unfoldable pub is_unspecified : Ip → Bool
is_unspecified (v4 a b c d) = nat_beq a 0 && nat_beq b 0 && nat_beq c 0 && nat_beq d 0
is_unspecified (v6 xs) = xs == zeros
