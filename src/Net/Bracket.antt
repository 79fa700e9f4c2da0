-- ===== src/Net/Bracket.antt =====
-- A host in brackets with a port is read back (netutil/host.go).
use m_ui.Base.{
  nat_beq, Bool, true, false, [], ◌∷◌, ◌++◌, Option, some, Text, codes, text_eq, if◌then◌else◌,
  trim_space, ◌≡◌, refl, arith, Bool-cases, inl, inr,
}
use m_ui.Net.Ip.{Ip}
use m_ui.Net.Host.{has_part, cut_bracket, normalize_host, net_join_host_port}

abbrev pub has_bracket : Text → Bool
has_bracket [] = false
has_bracket (c ∷ s) = if nat_beq c b']' then true else has_bracket s

cut_bracket-append :
    (h rest : Text) → has_bracket h ≡ false → cut_bracket (h ++ (b']' ∷ rest)) ≡ some (h, rest)
unfolding cut_bracket
cut_bracket-append [] rest e = refl
cut_bracket-append (c ∷ h) rest e = elim (Bool-cases (nat_beq c b']')) [
  | inl close ↦ absurd (ground (arith, e, close))
  | inr other ↦ rw (other, cut_bracket-append h rest (ground (arith, e, other)))
]

module _ (parse_ip : Text → Option Ip) (url_hostname : Text → Option Text)
    (split_host : Text → Option Text) where
  normalize_bracketed :
      (h rest : Text)
      → has_bracket h ≡ false
      → has_part (codes "://") (b'[' ∷ (h ++ (b']' ∷ (b':' ∷ rest)))) ≡ false
      → trim_space (b'[' ∷ (h ++ (b']' ∷ (b':' ∷ rest)))) ≡ b'[' ∷ (h ++ (b']' ∷ (b':' ∷ rest)))
      → normalize_host parse_ip url_hostname split_host (b'[' ∷ (h ++ (b']' ∷ (b':' ∷ rest)))) ≡ h
  unfolding normalize_host
  normalize_bracketed h rest e g t = rw (t, g, cut_bracket-append h (b':' ∷ rest) e)

  -- A host with a colon in it, such as an IPv6 address, that is joined with a port is read back
  -- from the text: it has no `]`, and the joined text has no `://` and no white space at its ends.
  pub normalize_host-join :
      (host port : Text)
      → has_part (codes ":") host ≡ true
      → has_bracket host ≡ false
      → has_part (codes "://") (net_join_host_port host port) ≡ false
      → trim_space (net_join_host_port host port) ≡ net_join_host_port host port
      → normalize_host parse_ip url_hostname split_host (net_join_host_port host port) ≡ host
  normalize_host-join host port colon e g t =
      rw colon (normalize_bracketed host port e (rw colon at g) (rw colon at t))
