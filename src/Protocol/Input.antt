-- ===== src/Protocol/Input.antt =====
-- The input of a protocol's compiler, the fields the panel owns, and the keys of `Config` that do not
-- reach the core (protocol/compile.go).
use m_ui.Base.{
  Bool, true, false, ◌||◌, List, [], ◌∷◌, Text, codes, ◌==◌, text_eq, contains, if◌then◌else◌,
  to_lower, has_prefix,
}
use m_ui.Base.Int.{ℤ, pos, ltb_ℤ}
use m_ui.Json.{Value, str, int, Fields, end, field, put}

pub record UserCred : Type 0 where
  pub username : Text
  pub password : Text
  pub uuid : Text
  pub flow : Text

pub record CompileInput : Type 0 where
  pub name : Text
  pub protocol : Text
  pub listen : Text
  pub port : Value
  pub udp : Bool
  pub tls : Bool
  pub proxy : Text
  pub rule : Text
  pub routing_mark : ℤ
  pub config : Fields
  pub users : List UserCred
  pub has_credential_state : Bool

-- `s == ""`.
abbrev pub is_blank : Text → Bool
is_blank [] = true
is_blank (c ∷ s) = false

abbrev pub put_text : Text → Text → Fields → Fields
put_text k s m = if is_blank s then m else put k (str s) m

unfoldable pub base_map : CompileInput → Fields
base_map in' =
    let m = put (codes "listen") (str in'.listen) (
      put (codes "port") in'.port (
        put (codes "type") (str (to_lower in'.protocol))
          (put (codes "name") (str in'.name) end))) in
    let m' = put_text (codes "rule") in'.rule (put_text (codes "proxy") in'.proxy m) in
    if ltb_ℤ (pos 0) in'.routing_mark
    then put (codes "routing-mark") (int in'.routing_mark) m'
    else m'

unfoldable pub client_only_listener_key : Text → Bool
client_only_listener_key k =
    contains
      (codes "sni"
        ∷ codes "servername"
        ∷ codes "skip-cert-verify"
        ∷ codes "name-cert-verify"
        ∷ codes "fingerprint"
        ∷ codes "client-fingerprint"
        ∷ codes "reality-opts"
        ∷ codes "shadow-tls-opts"
        ∷ codes "restls-opts"
        ∷ codes "jls-opts"
        ∷ codes "ss-opts"
        ∷ codes "plugin"
        ∷ codes "plugin-opts"
        ∷ codes "encryption"
        ∷ codes "grpc-user-agent"
        ∷ codes "ping-interval"
        ∷ codes "max-connections"
        ∷ codes "min-streams"
        ∷ codes "max-streams"
        ∷ codes "udp-relay-mode"
        ∷ codes "reduce-rtt"
        ∷ codes "request-timeout"
        ∷ codes "heartbeat-interval"
        ∷ codes "fast-open"
        ∷ codes "max-open-streams"
        ∷ codes "disable-sni"
        ∷ codes "ip"
        ∷ [])
      k

unfoldable pub managed_keys : List Text
managed_keys =
    codes "name"
    ∷ codes "type"
    ∷ codes "port"
    ∷ codes "listen"
    ∷ codes "proxy"
    ∷ codes "rule"
    ∷ codes "routing-mark"
    ∷ codes "udp"
    ∷ codes "tls"
    ∷ codes "users"
    ∷ codes "flow"
    ∷ codes "alterId"
    ∷ []

-- The keys that the loop of `copyConfigPassthrough` steps over.
unfoldable pub is_skipped : List Text → Text → Bool
unfolding client_only_listener_key
is_skipped skip k =
    contains skip k
    || has_prefix (codes "_") k
    || k == codes "access_profile"
    || k == codes "transport_layer"
    || k == codes "security_layer"
    || client_only_listener_key k

-- `copyConfigPassthrough(dst, cfg, skip)`, the map `dst` first.
unfoldable pub copy_config_passthrough : Fields → Fields → List Text → Fields
unfolding is_skipped
copy_config_passthrough dst end skip = dst
copy_config_passthrough dst (field k v cfg) skip =
    copy_config_passthrough (if is_skipped skip k then dst else put k v dst) cfg skip
