-- ===== src/Tests/Nodes.antt =====
-- Compiled listeners and their users.
use m_ui.Base.{
  true, false, [], ◌∷◌, none, some, Text, codes, ◌≡◌, ◌⊎◌, refl, text_eq, List, trim_space,
  trim_left,
}
use m_ui.Base.Int.{pos}
use m_ui.Base.Result.{ok}
use m_ui.Json.{Value, str, strs, arr, obj, int, nil, cons, Fields, end, field, get}
use m_ui.Protocol.Input.{UserCred, CompileInput, managed_keys, is_skipped, client_only_listener_key}
use m_ui.Protocol.Users.{as_users_map_uuid}
use m_ui.Protocol.Compile.{
  compile, default_compile_registry, compile_module, stream_compile, tuic_compile, kind,
  new_registry,
}
use m_ui.Protocol.Fixed.{compile-owned, compile-withheld}
use m_ui.Protocol.Passthrough.{compile-passthrough}
use m_ui.Protocol.Passwords.{last_uuid_password, config_password, get-as_users_map_uuid}
use m_ui.Protocol.Auth.{tuic_compile-exclusive}
use m_ui.Protocol.Legacy.{tuic_compile-legacy}
use m_ui.Credentials.{token_non_empty}
use m_ui.Protocol.Tokens.{all_string_tokens}
use m_ui.Protocol.Node.{NodeRow, NodeModel, decode_node_model, parse_config_json}
use m_ui.Protocol.Agree.{item_list, tuic_v4-tokens, passwords}

abbrev sprint : Value → Text
sprint (str s) = s
sprint _ = []

abbrev carol : UserCred
carol = record { username = codes "carol"; password = codes "pw"; uuid = codes "u-1"; flow = [] }

abbrev config : Fields
config = field (codes "name") (str (codes "evil")) (
    field (codes "encryption") (str (codes "none")) (
      field (codes "ws-path") (str (codes "/ws"))
        (field (codes "users") (obj (field (codes "u-9") (str (codes "old")) end)) end)))

abbrev input : CompileInput
input = record {
  name = codes "in";
  protocol = codes " VLESS ";
  listen = codes "0.0.0.0";
  port = int (pos 443);
  udp = true;
  tls = false;
  proxy = [];
  rule = codes "r";
  routing_mark = pos 0;
  config = config;
  users = carol ∷ [];
  has_credential_state = true;
}

abbrev compiled : Fields
compiled = stream_compile sprint (codes "uuid") input

compiles : compile sprint [] default_compile_registry input ≡ ok compiled
unfolding compile default_compile_registry kind trim_space trim_left new_registry compile_module
compiles = refl

compile-owned_example :
    (get (codes "name") compiled ≡ some (str (codes "in")))
    × (get (codes "listen") compiled ≡ some (str (codes "0.0.0.0")))
    × (get (codes "port") compiled ≡ some (int (pos 443)))
    × (get (codes "proxy") compiled ≡ none)
    × (get (codes "rule") compiled ≡ some (str (codes "r")))
compile-owned_example = compile-owned sprint [] default_compile_registry input compiled compiles

compile-withheld_example : get (codes "encryption") compiled ≡ none
unfolding is_skipped client_only_listener_key
compile-withheld_example =
    compile-withheld sprint [] default_compile_registry input compiled (codes "encryption") compiles
      refl

compile-passthrough_example : get (codes "ws-path") compiled ≡ get (codes "ws-path") config
unfolding is_skipped client_only_listener_key managed_keys get
compile-passthrough_example =
    compile-passthrough sprint [] default_compile_registry input compiled (codes "ws-path") compiles
      (refl, (refl, (refl, (refl, tt)))) refl refl

get-as_users_map_uuid_example :
    get (codes "u-9") (as_users_map_uuid sprint config (carol ∷ []) true)
    ≡ last_uuid_password
        (codes "u-9")
        (config_password sprint (codes "u-9") (get (codes "users") config))
        (carol ∷ [])
get-as_users_map_uuid_example = get-as_users_map_uuid sprint config (carol ∷ []) true (codes "u-9")

tuic_compile-exclusive_example :
    (get (codes "token") (tuic_compile sprint [] (codes "tuic-v5") input) ≡ none)
    ⊎ ((t : Text) × (ts : List Text) × (get
            (codes "token")
            (tuic_compile sprint [] (codes "tuic-v5") input)
          ≡ some (strs (t ∷ ts)))
        × (get (codes "users") (tuic_compile sprint [] (codes "tuic-v5") input) ≡ none))
tuic_compile-exclusive_example = tuic_compile-exclusive sprint [] input (codes "tuic-v5")

abbrev both_ways : CompileInput
both_ways = record input { config = field (codes "token") (str (codes "t")) config }

tuic_compile-legacy_example :
    get (codes "users") (tuic_compile sprint [] (codes "tuic") both_ways) ≡ none
unfolding get trim_space trim_left token_non_empty
tuic_compile-legacy_example =
    tuic_compile-legacy sprint [] both_ways (refl, (refl, (refl, (refl, (refl, tt)))))
      (str (codes "t")) refl refl

abbrev listed : CompileInput
listed = record input {
  config =
      field (codes "token") (arr (cons (str (codes "t1")) (cons (str (codes " t2 ")) nil))) end;
}

abbrev row : NodeRow
row = record {
  name = codes "in";
  protocol = codes " TUIC-v4";
  listen = [];
  bind_address = [];
  port = codes "443";
  public_host = [];
  public_port = [];
  access_sni = [];
  client_fingerprint = [];
  access_alpn = [];
  enabled = true;
  udp = true;
  tls = true;
  config = codes "{";
}

tuic_v4-tokens_example :
    (m : NodeModel) × (decode_node_model
        (λ t. some listed.config)
        sprint
        (λ t. pos 0)
        (λ t. pos 0)
        (λ c. false)
        row
        []
      ≡ some m)
    × (get (codes "token") (tuic_compile sprint [] (codes "tuic-v4") listed)
        ≡ some (strs (passwords m.users)))
unfolding get all_string_tokens trim_space trim_left parse_config_json
tuic_v4-tokens_example =
    tuic_v4-tokens (λ t. some listed.config) sprint (λ t. pos 0) (λ t. pos 0) (λ c. false) [] row
      listed (arr (cons (str (codes "t1")) (cons (str (codes " t2 ")) nil))) (codes "t1")
      (codes "t2" ∷ []) refl refl (item_list _) (refl, tt) refl refl
