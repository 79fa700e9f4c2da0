-- ===== src/Config/Registry/Quic.antt =====
-- Schemas of listeners, those over QUIC and the short ones (mihomo/config/listener_schema_registry.go).
use m_ui.Base.{[], ◌++◌, codes, words}
use m_ui.Config.Schema.{ListenerSchema, listener_fields, listener_nested}

unfoldable pub hysteria2_schema : ListenerSchema
unfolding listener_fields listener_nested
hysteria2_schema = record {
  protocol = codes "hysteria2";
  fields = listener_fields (
      words "users up down ignore-client-bandwidth obfs obfs-password masquerade realm-opts"
      ++ (words "bbr-profile alpn certificate private-key client-auth-type client-auth-cert ech-key"
          ++ words "mux-option"));
  nested_fields = listener_nested (
      words "realm-opts.enable realm-opts.server-url realm-opts.token realm-opts.realm-id"
      ++ (words "realm-opts.stun-servers realm-opts.proxy realm-opts.sni"
          ++ (words "realm-opts.skip-cert-verify realm-opts.fingerprint realm-opts.certificate"
              ++ (words "realm-opts.private-key realm-opts.alpn realm-opts.name-cert-verify"
                  ++ (words "mux-option.padding mux-option.brutal mux-option.brutal.enabled"
                      ++ words "mux-option.brutal.up mux-option.brutal.down")))));
}

unfoldable pub tuic_schema : ListenerSchema
unfolding listener_fields listener_nested
tuic_schema = record {
  protocol = codes "tuic";
  fields = listener_fields (
      words "users token certificate private-key client-auth-type client-auth-cert ech-key"
      ++ (words "congestion-controller bbr-profile max-idle-time authentication-timeout alpn"
          ++ words "max-udp-relay-packet-size mux-option"));
  nested_fields = listener_nested (
      words "mux-option.padding mux-option.brutal mux-option.brutal.enabled"
      ++ words "mux-option.brutal.up mux-option.brutal.down");
}

unfoldable pub tuic_v4_schema : ListenerSchema
unfolding listener_fields listener_nested
tuic_v4_schema = record {
  protocol = codes "tuic-v4";
  fields = listener_fields (
      words "token certificate private-key client-auth-type client-auth-cert ech-key"
      ++ (words "congestion-controller bbr-profile max-idle-time authentication-timeout alpn"
          ++ words "max-udp-relay-packet-size mux-option"));
  nested_fields = listener_nested (
      words "mux-option.padding mux-option.brutal mux-option.brutal.enabled"
      ++ words "mux-option.brutal.up mux-option.brutal.down");
}

unfoldable pub tuic_v5_schema : ListenerSchema
unfolding listener_fields listener_nested
tuic_v5_schema = record {
  protocol = codes "tuic-v5";
  fields = listener_fields (
      words "users certificate private-key client-auth-type client-auth-cert ech-key"
      ++ (words "congestion-controller bbr-profile max-idle-time authentication-timeout alpn"
          ++ words "max-udp-relay-packet-size mux-option"));
  nested_fields = listener_nested (
      words "mux-option.padding mux-option.brutal mux-option.brutal.enabled"
      ++ words "mux-option.brutal.up mux-option.brutal.down");
}

unfoldable pub shadowquic_schema : ListenerSchema
unfolding listener_fields listener_nested
shadowquic_schema = record {
  protocol = codes "shadowquic";
  fields = listener_fields (
      words "users jls-upstream alpn quic-versions zero-rtt congestion-controller up down"
      ++ (words "ignore-client-bandwidth cwnd bbr-profile max-idle-time max-datagram-frame-size"
          ++ words "recv-window-conn recv-window disable-mtu-discovery"));
  nested_fields =
      listener_nested
        (words "jls-upstream.addr jls-upstream.sni jls-upstream.proxy jls-upstream.rate-limit");
}

unfoldable pub mieru_schema : ListenerSchema
unfolding listener_fields
mieru_schema = record {
  protocol = codes "mieru";
  fields = listener_fields (words "transport users traffic-pattern user-hint-is-mandatory");
  nested_fields = [];
}

unfoldable pub trusttunnel_schema : ListenerSchema
unfolding listener_fields
trusttunnel_schema = record {
  protocol = codes "trusttunnel";
  fields = listener_fields (
      words "users certificate private-key client-auth-type client-auth-cert ech-key network"
      ++ words "congestion-controller bbr-profile");
  nested_fields = [];
}
