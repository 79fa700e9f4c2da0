-- ===== src/Listener/Endpoint.antt =====
-- When two listeners claim the same socket (backend/internal/listener/endpoints.go). `parse_ip` stands
-- for `net.ParseIP`.
use m_ui.Base.{
  Bool, true, ◌&&◌, ◌||◌, [], Option, some, Text, codes, ◌==◌, text_eq, if◌then◌else◌, to_lower,
  trim_space,
}
use m_ui.Models.{Listener}
use m_ui.Net.Ip.{Ip, ip_equal}
use m_ui.Net.Host.{trim_brackets}
use m_ui.Listener.Address.{first_listener_address}
use m_ui.Listener.Ports.{ports_overlap}

unfoldable pub bare_address : Text → Text
bare_address a = let b = trim_brackets (trim_space a) in if b == [] then codes "0.0.0.0" else b

abbrev is_wildcard : Text → Bool
is_wildcard a = a == codes "0.0.0.0" || a == codes "::"

abbrev same_address : Text → Text → Option Ip → Option Ip → Bool
same_address a b (some x) (some y) = ip_equal x y
same_address a b _ _ = to_lower a == to_lower b

module _ (parse_ip : Text → Option Ip) where
  unfoldable pub listener_addresses_conflict : Text → Text → Bool
  unfolding bare_address
  listener_addresses_conflict x y =
      let a = bare_address x in
      let b = bare_address y in
      if is_wildcard a || is_wildcard b then true else same_address a b (parse_ip a) (parse_ip b)

  -- The test of the loop in `ensureEndpointAvailable`.
  unfoldable pub is_clash : Listener → Listener → Bool
  unfolding listener_addresses_conflict
  is_clash candidate existing =
      ports_overlap candidate.port existing.port
      && listener_addresses_conflict (first_listener_address candidate)
          (first_listener_address existing)
