-- ===== src/Config/Registry/Wrapped.antt =====
-- Schemas of listeners, those that wrap a plain protocol (mihomo/config/listener_schema_registry.go).
use m_ui.Base.{◌++◌, codes, words}
use m_ui.Config.Schema.{ListenerSchema, listener_fields, listener_nested}

unfoldable pub shadowsocks_schema : ListenerSchema
unfolding listener_fields listener_nested
shadowsocks_schema = record {
  protocol = codes "shadowsocks";
  fields =
      listener_fields
        (words "cipher password udp simple-obfs shadow-tls res-tls jls-config kcp-tun mux-option");
  nested_fields = listener_nested (
      words "simple-obfs.enable simple-obfs.mode shadow-tls.enable shadow-tls.version"
      ++ (words "shadow-tls.password shadow-tls.users shadow-tls.handshake.dest"
          ++ (words "shadow-tls.handshake.proxy res-tls.enable res-tls.dest res-tls.password"
              ++ (words
                    "res-tls.restls-script res-tls.min-record-len res-tls.proxy res-tls.rate-limit"
                  ++ (words
                        "jls-config.enable jls-config.users jls-config.dest jls-config.sni jls-config.alpn"
                      ++ (words
                            "jls-config.proxy jls-config.rate-limit kcp-tun.enable kcp-tun.key kcp-tun.crypt"
                          ++ (words
                                "kcp-tun.mode kcp-tun.conn kcp-tun.autoexpire kcp-tun.scavengettl kcp-tun.ratelimit"
                              ++ (words
                                    "kcp-tun.mtu kcp-tun.sndwnd kcp-tun.rcvwnd kcp-tun.datashard kcp-tun.parityshard"
                                  ++ (words
                                        "kcp-tun.dscp kcp-tun.nocomp kcp-tun.acknodelay kcp-tun.nodelay kcp-tun.interval"
                                      ++ (words
                                            "kcp-tun.resend kcp-tun.sockbuf kcp-tun.smuxver kcp-tun.smuxbuf kcp-tun.framesize"
                                          ++ (words
                                                "kcp-tun.streambuf kcp-tun.keepalive mux-option.padding mux-option.brutal"
                                              ++ words
                                                  "mux-option.brutal.enabled mux-option.brutal.up mux-option.brutal.down")))))))))));
}

unfoldable pub snell_schema : ListenerSchema
unfolding listener_fields listener_nested
snell_schema = record {
  protocol = codes "snell";
  fields = listener_fields (words "psk version udp obfs-opts shadow-tls res-tls jls-config");
  nested_fields = listener_nested (
      words "obfs-opts.mode obfs-opts.host shadow-tls.enable shadow-tls.version"
      ++ (words "shadow-tls.password shadow-tls.users shadow-tls.handshake.dest"
          ++ (words "shadow-tls.handshake.proxy res-tls.enable res-tls.dest res-tls.password"
              ++ (words
                    "res-tls.restls-script res-tls.min-record-len res-tls.proxy res-tls.rate-limit"
                  ++ (words
                        "jls-config.enable jls-config.users jls-config.dest jls-config.sni jls-config.alpn"
                      ++ words "jls-config.proxy jls-config.rate-limit")))));
}

unfoldable pub anytls_schema : ListenerSchema
unfolding listener_fields listener_nested
anytls_schema = record {
  protocol = codes "anytls";
  fields = listener_fields (
      words "users certificate private-key client-auth-type client-auth-cert ech-key shadow-tls"
      ++ words "res-tls jls-config allow-insecure padding-scheme");
  nested_fields = listener_nested (
      words "shadow-tls.enable shadow-tls.version shadow-tls.password shadow-tls.users"
      ++ (words "shadow-tls.handshake.dest shadow-tls.handshake.proxy res-tls.enable res-tls.dest"
          ++ (words "res-tls.password res-tls.restls-script res-tls.min-record-len res-tls.proxy"
              ++ (words "res-tls.rate-limit jls-config.enable jls-config.users jls-config.dest"
                  ++ words
                      "jls-config.sni jls-config.alpn jls-config.proxy jls-config.rate-limit"))));
}

unfoldable pub sudoku_schema : ListenerSchema
unfolding listener_fields listener_nested
sudoku_schema = record {
  protocol = codes "sudoku";
  fields = listener_fields (
      words "key aead-method padding-min padding-max table-type custom-table custom-tables"
      ++ (words "handshake-timeout enable-pure-downlink httpmask fallback disable-http-mask"
          ++ words "http-mask-mode path-root mux-option"));
  nested_fields = listener_nested (
      words "httpmask.disable httpmask.mode httpmask.path-root mux-option.padding"
      ++ (words "mux-option.brutal mux-option.brutal.enabled mux-option.brutal.up"
          ++ words "mux-option.brutal.down"));
}
