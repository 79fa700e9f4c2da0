-- ===== src/Protocol/Node.antt =====
-- A listener's row as its links and subscriptions see it (`DecodeNodeModel` of protocol/decode.go).
-- `unmarshal` stands for `json.Unmarshal` into a map (`none` is an error), `sprint` for `fmt.Sprint`,
-- `truncate` and `scan` for Go's readings of a number, and `skip_verify` for
-- `certutil.ShouldSkipCertVerify`.
use m_ui.Base.{
  Bool, not, ◌&&◌, ◌||◌, List, [], ◌∷◌, Option, none, some, Text, codes, ◌==◌, text_eq,
  if◌then◌else◌, map, to_lower, trim_space,
}
use m_ui.Base.Int.{ℤ}
use m_ui.Json.{Value, str, Fields, end, field, get, as_obj}
use m_ui.Protocol.Input.{UserCred, is_blank}
use m_ui.Protocol.Users.{config_users}
use m_ui.Protocol.Access.{
  first_non_empty, str_from, str_default, str_map, bool_from, int_from, split_csv, string_list_from,
  looks_like_uuid, TransportSpec, RealitySpec, decode_transport, decode_reality,
}

-- The columns of a listener that are read here.
pub record NodeRow : Type 0 where
  pub name : Text
  pub protocol : Text
  pub listen : Text
  pub bind_address : Text
  pub port : Text
  pub public_host : Text
  pub public_port : Text
  pub access_sni : Text
  pub client_fingerprint : Text
  pub access_alpn : Text
  pub enabled : Bool
  pub udp : Bool
  pub tls : Bool
  pub config : Text

pub record StreamSpec : Type 0 where
  pub encryption : Text
  pub flow : Text
  pub cipher : Text
  pub alter_id : Option ℤ
  pub transport : TransportSpec
  pub reality : Option RealitySpec
  pub skip_cert : Bool
  pub sni : Text
  pub fingerprint : Text
  pub alpn : List Text

pub record ShadowsocksSpec : Type 0 where
  pub cipher : Text
  pub password : Text
  pub udp : Bool

pub record Hysteria2Spec : Type 0 where
  pub sni : Text
  pub skip_cert : Bool
  pub obfs : Text
  pub obfs_password : Text
  pub up : Text
  pub down : Text
  pub alpn : List Text

-- Which of the model's specifications is set. VLESS, VMess and Trojan share a record; a field that one
-- of them lacks is blank.
pub data Spec : Type 0 where
  vless : StreamSpec → Spec
  vmess : StreamSpec → Spec
  trojan : StreamSpec → Spec
  shadowsocks : ShadowsocksSpec → Spec
  hysteria2 : Hysteria2Spec → Spec
  generic : Fields → Spec

pub record NodeModel : Type 0 where
  pub name : Text
  pub protocol : Text
  pub listen : Text
  pub port : Text
  pub public_host : Text
  pub public_port : Text
  pub access_sni : Text
  pub fingerprint : Text
  pub access_alpn : Text
  pub enabled : Bool
  pub udp : Bool
  pub tls : Bool
  pub users : List UserCred
  pub spec : Spec

abbrev pub password_only : Text → UserCred
password_only s = record { username = []; password = s; uuid = []; flow = [] }

abbrev pub row_user : Fields → UserCred
row_user row =
    let name = str_map row (codes "username") in
    let uuid = str_map row (codes "uuid") in
    record {
      username = name;
      password = str_map row (codes "password");
      uuid = if is_blank uuid && not (is_blank name) && looks_like_uuid name then name else uuid;
      flow = str_map row (codes "flow");
    }

abbrev pub spec_password : Spec → Text
spec_password (shadowsocks s) = s.password
spec_password _ = []

-- `if len(users) == 0 { users = … }`.
abbrev pub if_none : List UserCred → List UserCred → List UserCred
if_none [] others = others
if_none (u ∷ us) others = u ∷ us

abbrev pub one_if_any : Text → List UserCred
one_if_any s = if is_blank s then [] else password_only s ∷ []

-- The users of a map from UUIDs to passwords.
abbrev map_users : Fields → List UserCred
map_users end = []
map_users (field uuid (str s) m) =
    let rest = map_users m in
    if is_blank (trim_space s)
    then rest
    else record { username = uuid; password = trim_space s; uuid = uuid; flow = [] } ∷ rest
map_users (field uuid _ m) = map_users m

abbrev users_of_map : Option Fields → List UserCred
users_of_map none = []
users_of_map (some m) = map_users m

abbrev pub token_users : Fields → List UserCred
token_users cfg = map password_only (string_list_from cfg (codes "token"))

-- The tail of `DecodeNodeModel` for TUIC.
unfoldable pub tuic_users : Text → Fields → List UserCred → List UserCred
unfolding string_list_from
tuic_users protocol cfg us =
    if protocol == codes "tuic-v4"
    then if_none (token_users cfg) us
    else if protocol == codes "tuic"
    then if_none us (if_none (token_users cfg) (users_of_map (as_obj (get (codes "users") cfg))))
    else if protocol == codes "tuic-v5"
    then if_none us (users_of_map (as_obj (get (codes "users") cfg)))
    else us

-- `if s == "" { s = … }`.
abbrev or_text : Text → Text → Text
or_text s t = if is_blank s then t else s

abbrev or_texts : List Text → List Text → List Text
or_texts [] ts = ts
or_texts (s ∷ ss) ts = s ∷ ss

module _ (sprint : Value → Text) where
  -- The users of the `Config`, where no user is bound.
  unfoldable pub embedded_users : Text → Spec → Fields → List UserCred
  unfolding config_users str_map looks_like_uuid tuic_users str_from
  embedded_users protocol spec cfg =
      let rows = map row_user (config_users sprint (get (codes "users") cfg)) in
      tuic_users protocol cfg (
        if protocol == codes "shadowsocks"
        then if_none rows (one_if_any (spec_password spec))
        else if protocol == codes "snell"
        then if_none rows (one_if_any (str_from cfg (codes "psk" ∷ [])))
        else if protocol == codes "sudoku"
        then if_none rows (one_if_any (str_from cfg (codes "key" ∷ [])))
        else rows)

module _ (unmarshal : Text → Option Fields) (sprint : Value → Text) (truncate scan : Text → ℤ)
    (skip_verify : Fields → Bool) where
  unfoldable pub parse_config_json : Text → Option Fields
  parse_config_json raw = if is_blank (trim_space raw) then some end else unmarshal raw

  unfoldable pub decode_spec : NodeRow → Fields → Text → Spec
  unfolding str_from str_default bool_from int_from split_csv string_list_from decode_transport
      decode_reality
  decode_spec l cfg protocol =
      let sni =
        or_text (trim_space l.access_sni) (str_from cfg (codes "sni" ∷ codes "servername" ∷ [])) in
      let fp =
        or_text (trim_space l.client_fingerprint)
          (str_from cfg (codes "client-fingerprint" ∷ codes "fingerprint" ∷ [])) in
      let alpn =
        or_texts (split_csv (trim_space l.access_alpn)) (string_list_from cfg (codes "alpn")) in
      let stream : StreamSpec = record {
        encryption = [];
        flow = [];
        cipher = [];
        alter_id = none;
        transport = decode_transport cfg;
        reality = decode_reality cfg;
        skip_cert = skip_verify cfg;
        sni = sni;
        fingerprint = fp;
        alpn = alpn;
      } in
      if protocol == codes "vless"
      then vless (record stream {
        encryption = str_default cfg (codes "encryption") (codes "none");
        flow = str_from cfg (codes "flow" ∷ []);
      })
      else if protocol == codes "vmess"
      then vmess (record stream {
        cipher = str_default cfg (codes "cipher") (codes "auto");
        alter_id = some (int_from truncate scan cfg (codes "alterId"));
      })
      else if protocol == codes "trojan"
      then trojan stream
      else if protocol == codes "shadowsocks"
      then shadowsocks (record {
        cipher = str_from cfg (codes "cipher" ∷ []);
        password = str_from cfg (codes "password" ∷ []);
        udp = l.udp || bool_from cfg (codes "udp");
      })
      else if protocol == codes "hysteria2"
      then hysteria2 (record {
        sni = sni;
        skip_cert = skip_verify cfg;
        obfs = str_from cfg (codes "obfs" ∷ []);
        obfs_password = str_from cfg (codes "obfs-password" ∷ []);
        up = str_from cfg (codes "up" ∷ []);
        down = str_from cfg (codes "down" ∷ []);
        alpn = alpn;
      })
      else generic cfg

  abbrev decode_parsed : NodeRow → List UserCred → Option Fields → Option NodeModel
  decode_parsed l us none = none
  decode_parsed l us (some cfg) =
      let protocol = to_lower (trim_space l.protocol) in
      let spec = decode_spec l cfg protocol in
      let port = first_non_empty (trim_space l.public_port ∷ trim_space l.port ∷ []) in
      some (record {
        name = l.name;
        protocol = protocol;
        listen = first_non_empty (l.listen ∷ l.bind_address ∷ codes "0.0.0.0" ∷ []);
        port = or_text port (trim_space l.port);
        public_host = trim_space l.public_host;
        public_port = trim_space l.public_port;
        access_sni = trim_space l.access_sni;
        fingerprint = trim_space l.client_fingerprint;
        access_alpn = trim_space l.access_alpn;
        enabled = l.enabled;
        udp = l.udp;
        tls = l.tls;
        users = if_none us (embedded_users sprint protocol spec cfg);
        spec = spec;
      })

  unfoldable pub decode_node_model : NodeRow → List UserCred → Option NodeModel
  unfolding first_non_empty parse_config_json embedded_users decode_spec
  decode_node_model l us = decode_parsed l us (parse_config_json l.config)
