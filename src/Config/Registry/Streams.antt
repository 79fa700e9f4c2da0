-- ===== src/Config/Registry/Streams.antt =====
-- Schemas of listeners, those of the stream protocols (mihomo/config/listener_schema_registry.go).
use m_ui.Base.{◌++◌, codes, words}
use m_ui.Config.Schema.{ListenerSchema, listener_fields, listener_nested}

unfoldable pub vmess_schema : ListenerSchema
unfolding listener_fields listener_nested
vmess_schema = record {
  protocol = codes "vmess";
  fields = listener_fields (
      words "users alterId ws-path grpc-service-name grpc-user-agent ping-interval"
      ++ (words "max-connections min-streams max-streams mekya-config mkcp-config shadow-tls"
          ++ (words "res-tls jls-config reality-config tlsmirror-config certificate private-key"
              ++ words "client-auth-type client-auth-cert ech-key mux-option")));
  nested_fields = listener_nested (
      words "mekya-config.enable mekya-config.max-write-size mekya-config.max-write-duration-ms"
      ++ (words "mekya-config.max-simultaneous-write-connection mekya-config.packet-writing-buffer"
          ++ (words "mekya-config.polling-interval-initial mekya-config.h2-pool-size"
              ++ (words "mekya-config.kcp.mtu mekya-config.kcp.tti mekya-config.kcp.uplink-capacity"
                  ++ (words "mekya-config.kcp.downlink-capacity mekya-config.kcp.congestion"
                      ++ (words
                            "mekya-config.kcp.write-buffer mekya-config.kcp.read-buffer mekya-config.kcp.seed"
                          ++ (words
                                "mekya-config.kcp.header mkcp-config.enable mkcp-config.mtu mkcp-config.tti"
                              ++ (words
                                    "mkcp-config.uplink-capacity mkcp-config.downlink-capacity mkcp-config.congestion"
                                  ++ (words
                                        "mkcp-config.write-buffer mkcp-config.read-buffer mkcp-config.seed"
                                      ++ (words
                                            "mkcp-config.header mux-option.padding mux-option.brutal mux-option.brutal.enabled"
                                          ++ (words
                                                "mux-option.brutal.up mux-option.brutal.down shadow-tls.enable shadow-tls.version"
                                              ++ (words
                                                    "shadow-tls.password shadow-tls.users shadow-tls.handshake.dest"
                                                  ++ (words
                                                        "shadow-tls.handshake.proxy res-tls.enable res-tls.dest res-tls.password"
                                                      ++ (words
                                                            "res-tls.restls-script res-tls.min-record-len res-tls.proxy res-tls.rate-limit"
                                                          ++ (words
                                                            "jls-config.enable jls-config.users jls-config.dest jls-config.sni jls-config.alpn"
                                                            ++ (words
                                                            "jls-config.proxy jls-config.rate-limit reality-config.dest"
                                                            ++ (words
                                                            "reality-config.private-key reality-config.short-id reality-config.server-names"
                                                            ++ (words
                                                            "reality-config.max-time-difference reality-config.proxy"
                                                            ++ (words
                                                            "reality-config.limit-fallback-upload.after-bytes"
                                                            ++ (words
                                                            "reality-config.limit-fallback-upload.bytes-per-sec"
                                                            ++ (words
                                                            "reality-config.limit-fallback-upload.burst-bytes-per-sec"
                                                            ++ (words
                                                            "reality-config.limit-fallback-download.after-bytes"
                                                            ++ (words
                                                            "reality-config.limit-fallback-download.bytes-per-sec"
                                                            ++ (words
                                                            "reality-config.limit-fallback-download.burst-bytes-per-sec tlsmirror-config.dest"
                                                            ++ (words
                                                            "tlsmirror-config.primary-key tlsmirror-config.proxy"
                                                            ++ (words
                                                            "tlsmirror-config.explicit-nonce-ciphersuites"
                                                            ++ (words
                                                            "tlsmirror-config.defer-instance-derived-write-time.base-nanoseconds"
                                                            ++ (words
                                                            "tlsmirror-config.defer-instance-derived-write-time.uniform-random-multiplier-nanoseconds"
                                                            ++ (words
                                                            "tlsmirror-config.transport-layer-padding.enabled"
                                                            ++ (words
                                                            "tlsmirror-config.connection-enrolment.primary-ingress-outbound"
                                                            ++ (words
                                                            "tlsmirror-config.sequence-watermarking-enabled"
                                                            ++ (words
                                                            "tlsmirror-config.embedded-traffic-generator.steps.name"
                                                            ++ (words
                                                            "tlsmirror-config.embedded-traffic-generator.steps.host"
                                                            ++ (words
                                                            "tlsmirror-config.embedded-traffic-generator.steps.path"
                                                            ++ (words
                                                            "tlsmirror-config.embedded-traffic-generator.steps.method"
                                                            ++ (words
                                                            "tlsmirror-config.embedded-traffic-generator.steps.headers"
                                                            ++ (words
                                                            "tlsmirror-config.embedded-traffic-generator.steps.connection-ready"
                                                            ++ (words
                                                            "tlsmirror-config.embedded-traffic-generator.steps.connection-recall-exit"
                                                            ++ (words
                                                            "tlsmirror-config.embedded-traffic-generator.steps.h2-do-not-wait-for-download-finish"
                                                            ++ (words
                                                            "tlsmirror-config.embedded-traffic-generator.steps.wait-time.base-nanoseconds"
                                                            ++ (words
                                                            "tlsmirror-config.embedded-traffic-generator.steps.wait-time.uniform-random-multiplier-nanoseconds"
                                                            ++ (words
                                                            "tlsmirror-config.embedded-traffic-generator.steps.next-step.weight"
                                                            ++ words
                                                            "tlsmirror-config.embedded-traffic-generator.steps.next-step.goto-location")
                                                            ))))))))))))))))))))))))))))))))))))))))
                                                            );
}

unfoldable pub vless_schema : ListenerSchema
unfolding listener_fields listener_nested
vless_schema = record {
  protocol = codes "vless";
  fields = listener_fields (
      words "users flow ws-path grpc-service-name grpc-user-agent ping-interval max-connections"
      ++ (words "min-streams max-streams xhttp-config decryption encryption reality-config"
          ++ (words
                "certificate private-key client-auth-type client-auth-cert ech-key allow-insecure"
              ++ words "jls-config shadow-tls res-tls mux-option")));
  nested_fields = listener_nested (
      words "xhttp-config.path xhttp-config.host xhttp-config.mode xhttp-config.no-sse-header"
      ++ (words "xhttp-config.x-padding-bytes xhttp-config.x-padding-obfs-mode"
          ++ (words "xhttp-config.x-padding-key xhttp-config.x-padding-header"
              ++ (words "xhttp-config.x-padding-placement xhttp-config.x-padding-method"
                  ++ (words "xhttp-config.uplink-http-method xhttp-config.session-placement"
                      ++ (words
                            "xhttp-config.session-key xhttp-config.session-table xhttp-config.session-length"
                          ++ (words
                                "xhttp-config.seq-placement xhttp-config.seq-key xhttp-config.uplink-data-placement"
                              ++ (words
                                    "xhttp-config.uplink-data-key xhttp-config.uplink-chunk-size"
                                  ++ (words
                                        "xhttp-config.sc-max-buffered-posts xhttp-config.sc-stream-up-server-secs"
                                      ++ (words
                                            "xhttp-config.sc-max-each-post-bytes reality-config.dest reality-config.private-key"
                                          ++ (words
                                                "reality-config.short-id reality-config.server-names"
                                              ++ (words
                                                    "reality-config.max-time-difference reality-config.proxy"
                                                  ++ (words
                                                        "reality-config.limit-fallback-upload.after-bytes"
                                                      ++ (words
                                                            "reality-config.limit-fallback-upload.bytes-per-sec"
                                                          ++ (words
                                                            "reality-config.limit-fallback-upload.burst-bytes-per-sec"
                                                            ++ (words
                                                            "reality-config.limit-fallback-download.after-bytes"
                                                            ++ (words
                                                            "reality-config.limit-fallback-download.bytes-per-sec"
                                                            ++ (words
                                                            "reality-config.limit-fallback-download.burst-bytes-per-sec jls-config.enable"
                                                            ++ (words
                                                            "jls-config.users jls-config.dest jls-config.sni jls-config.alpn jls-config.proxy"
                                                            ++ (words
                                                            "jls-config.rate-limit shadow-tls.enable shadow-tls.version shadow-tls.password"
                                                            ++ (words
                                                            "shadow-tls.users shadow-tls.handshake.dest shadow-tls.handshake.proxy"
                                                            ++ (words
                                                            "res-tls.enable res-tls.dest res-tls.password res-tls.restls-script"
                                                            ++ (words
                                                            "res-tls.min-record-len res-tls.proxy res-tls.rate-limit mux-option.padding"
                                                            ++ (words
                                                            "mux-option.brutal mux-option.brutal.enabled mux-option.brutal.up"
                                                            ++ words
                                                            "mux-option.brutal.down"))))))))))))))))))))))));
}

unfoldable pub trojan_schema : ListenerSchema
unfolding listener_fields listener_nested
trojan_schema = record {
  protocol = codes "trojan";
  fields = listener_fields (
      words "users ws-path grpc-service-name grpc-user-agent ping-interval max-connections"
      ++ (words "min-streams max-streams reality-config ss-option certificate private-key"
          ++ (words "client-auth-type client-auth-cert ech-key allow-insecure shadow-tls res-tls"
              ++ words "jls-config mux-option")));
  nested_fields = listener_nested (
      words "reality-config.dest reality-config.private-key reality-config.short-id"
      ++ (words "reality-config.server-names reality-config.max-time-difference"
          ++ (words "reality-config.proxy reality-config.limit-fallback-upload.after-bytes"
              ++ (words "reality-config.limit-fallback-upload.bytes-per-sec"
                  ++ (words "reality-config.limit-fallback-upload.burst-bytes-per-sec"
                      ++ (words "reality-config.limit-fallback-download.after-bytes"
                          ++ (words "reality-config.limit-fallback-download.bytes-per-sec"
                              ++ (words
                                    "reality-config.limit-fallback-download.burst-bytes-per-sec ss-option.enabled"
                                  ++ (words
                                        "ss-option.method ss-option.password shadow-tls.enable shadow-tls.version"
                                      ++ (words
                                            "shadow-tls.password shadow-tls.users shadow-tls.handshake.dest"
                                          ++ (words
                                                "shadow-tls.handshake.proxy res-tls.enable res-tls.dest res-tls.password"
                                              ++ (words
                                                    "res-tls.restls-script res-tls.min-record-len res-tls.proxy res-tls.rate-limit"
                                                  ++ (words
                                                        "jls-config.enable jls-config.users jls-config.dest jls-config.sni jls-config.alpn"
                                                      ++ (words
                                                            "jls-config.proxy jls-config.rate-limit mux-option.padding mux-option.brutal"
                                                          ++ words
                                                            "mux-option.brutal.enabled mux-option.brutal.up mux-option.brutal.down"))))))))))))));
}
