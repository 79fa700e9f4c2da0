-- ===== src/Config/Registry.antt =====
-- The table of the protocols' schemas (mihomo/config/listener_schema_registry.go).
mod Wrapped
mod Streams
mod Quic
use m_ui.Base.{List, [], ◌∷◌, Option, Text, codes, text_eq}
use m_ui.Base.Dict.{lookup}
use m_ui.Config.Schema.{ListenerSchema}
unfoldable pub use Wrapped.{shadowsocks_schema, snell_schema, anytls_schema, sudoku_schema}
unfoldable pub use Streams.{vmess_schema, vless_schema, trojan_schema}
unfoldable pub use Quic.{
  hysteria2_schema, tuic_schema, tuic_v4_schema, tuic_v5_schema, shadowquic_schema, mieru_schema,
  trusttunnel_schema,
}

unfoldable pub mihomo_listener_schemas : List (Text × ListenerSchema)
unfolding shadowsocks_schema snell_schema vmess_schema vless_schema trojan_schema hysteria2_schema
    tuic_schema tuic_v4_schema tuic_v5_schema shadowquic_schema anytls_schema mieru_schema
    sudoku_schema trusttunnel_schema
mihomo_listener_schemas =
    (codes "shadowsocks", shadowsocks_schema)
    ∷ (codes "snell", snell_schema)
    ∷ (codes "vmess", vmess_schema)
    ∷ (codes "vless", vless_schema)
    ∷ (codes "trojan", trojan_schema)
    ∷ (codes "hysteria2", hysteria2_schema)
    ∷ (codes "tuic", tuic_schema)
    ∷ (codes "tuic-v4", tuic_v4_schema)
    ∷ (codes "tuic-v5", tuic_v5_schema)
    ∷ (codes "shadowquic", shadowquic_schema)
    ∷ (codes "anytls", anytls_schema)
    ∷ (codes "mieru", mieru_schema)
    ∷ (codes "sudoku", sudoku_schema)
    ∷ (codes "trusttunnel", trusttunnel_schema)
    ∷ []

unfoldable pub get_mihomo_listener_schema : Text → Option ListenerSchema
unfolding mihomo_listener_schemas
get_mihomo_listener_schema protocol = lookup protocol mihomo_listener_schemas
