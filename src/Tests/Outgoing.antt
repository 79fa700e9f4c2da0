-- ===== src/Tests/Outgoing.antt =====
-- Outgoing connections and host names.
use m_ui.Base.{
  Bool, true, false, [], ◌∷◌, List, Option, none, some, Text, codes, ◌≡◌, refl, All, any?, find?,
  ◌&&◌, arith, trim_space, trim_left,
}
use m_ui.Net.Ip.{Ip, v4}
use m_ui.Net.Ssrf.{safe_dial, is_blocked_ip}
use m_ui.Net.Dial.{MayDial, may_dial, reached, safe_dial-allowed, safe_dial-first}
use m_ui.Net.Networks.{blocked_networks, in_network, number, is_blocked_ip_v4}
use m_ui.Net.Host.{normalize_host, net_join_host_port, has_part}
use m_ui.Net.Bracket.{normalize_host-join}

abbrev no_ip : Text → Option Ip
no_ip s = none

-- A name that resolves to the metadata address, to a private one and to a public one.
abbrev resolve : Text → Option (List Ip)
resolve s = some (v4 169 254 169 254 ∷ v4 10 0 0 1 ∷ v4 93 184 216 34 ∷ [])

abbrev answers : Ip → Bool
answers ip = true

safe_dial-allowed_example :
    All (MayDial false) (safe_dial false no_ip resolve answers (some (codes "evil.example"))).0
safe_dial-allowed_example =
    safe_dial-allowed false answers no_ip resolve (some (codes "evil.example"))

safe_dial-first_example :
    reached (safe_dial false no_ip resolve answers (some (codes "evil.example"))).1
    ≡ find?
        (λ ip. may_dial false ip && answers ip)
        (v4 169 254 169 254 ∷ v4 10 0 0 1 ∷ v4 93 184 216 34 ∷ [])
safe_dial-first_example = safe_dial-first false answers no_ip resolve (codes "evil.example")

is_blocked_ip_v4_example :
    is_blocked_ip (v4 172 20 0 1) ≡ any? (in_network (number 172 20 0 1)) blocked_networks
is_blocked_ip_v4_example =
    is_blocked_ip_v4 172 20 0 1 (omega arith) (omega arith) (omega arith) (omega arith)

normalize_host-join_example :
    normalize_host no_ip
      (λ s. none)
      (λ s. none)
      (net_join_host_port (codes "2001:db8::1") (codes "443"))
    ≡ codes "2001:db8::1"
unfolding has_part trim_space trim_left
normalize_host-join_example =
    normalize_host-join no_ip (λ s. none) (λ s. none) (codes "2001:db8::1") (codes "443") refl refl
      refl refl
