-- ===== src/Protocol/Compile.antt =====
-- The protocols' compilers and their registry (protocol/compile.go, protocol/compile_modules.go).
-- `sprint` stands for `fmt.Sprint`, `token` for the text that `randomToken` draws.
use m_ui.Base.{
  ℕ, Bool, true, false, not, ◌&&◌, List, [], ◌∷◌, Option, none, some, Text, codes, ◌==◌, text_eq,
  if◌then◌else◌, trim_space, to_lower, length,
}
use m_ui.Base.Dict.{lookup, insert, has_key}
use m_ui.Base.Result.{Result, ok, err}
use m_ui.Json.{
  Value, bool, str, strs, obj, objs, Fields, get, put, remove, has, is_empty, to_maps, as_obj,
  as_str,
}
use m_ui.Protocol.Input.{
  UserCred, CompileInput, is_blank, base_map, managed_keys, copy_config_passthrough,
}
use m_ui.Protocol.Users.{as_users_array, as_users_map, as_users_map_uuid}
use m_ui.Protocol.Tokens.{all_string_tokens}

-- The types that implement `Module`.
pub data Module : Type 0 where
  vless : Module
  vmess : Module
  trojan : Module
  shadowsocks : Module
  hysteria2 : Module
  tuic : Text → Module
  shadowquic : Module
  generic : Text → Module
  anytls : Module
  mieru : Module
  trusttunnel : Module

unfoldable pub kind : Module → Text
kind vless = codes "vless"
kind vmess = codes "vmess"
kind trojan = codes "trojan"
kind shadowsocks = codes "shadowsocks"
kind hysteria2 = codes "hysteria2"
kind (tuic k) = if is_blank k then codes "tuic" else k
kind shadowquic = codes "shadowquic"
kind (generic k) = k
kind anytls = codes "anytls"
kind mieru = codes "mieru"
kind trusttunnel = codes "trusttunnel"

pub data CompileError : Type 0 where
  unsupported_protocol : Text → CompileError
  too_many_credentials : ℕ → CompileError

abbrev pub Compiled : Type 0
Compiled = Result CompileError Fields

-- `baseMap` followed by `copyConfigPassthrough` with the managed keys.
abbrev pub started : CompileInput → Fields
started in' = copy_config_passthrough (base_map in') in'.config managed_keys

-- `if len(users) > 0 { m["users"] = users }`, for a list and for a map.
abbrev pub put_users_array : List Fields → Fields → Fields
put_users_array [] m = m
put_users_array (u ∷ us) m = put (codes "users") (objs (to_maps (u ∷ us))) m

abbrev pub put_users_map : Fields → Fields → Fields
put_users_map us m = if is_empty us then m else put (codes "users") (obj us) m

-- `if flag { m[k] = true }`.
abbrev pub put_flag : Text → Bool → Fields → Fields
put_flag k flag m = if flag then put k (bool true) m else m

-- `if _, ok := m[k]; !ok { m[k] = v }`.
abbrev pub put_default : Text → Value → Fields → Fields
put_default k v m = if has k m then m else put k v m

-- `if s, ok := m[k].(string); ok { m[k] = []string{s} }`.
abbrev pub text_to_strs : Text → Option Text → Fields → Fields
text_to_strs k none m = m
text_to_strs k (some s) m = put k (strs (s ∷ [])) m

unfoldable pub generic_compile : CompileInput → Fields
generic_compile in' = put_flag (codes "tls") in'.tls (put_flag (codes "udp") in'.udp (started in'))

abbrev pub one_password : List UserCred → Fields → Compiled
one_password [] m = ok m
one_password (c ∷ []) m =
    ok (if is_blank c.password then m else put (codes "password") (str c.password) m)
one_password (c ∷ d ∷ cs) m = err (too_many_credentials (length (c ∷ d ∷ cs)))

unfoldable pub shadowsocks_compile : CompileInput → Compiled
shadowsocks_compile in' = one_password in'.users (put (codes "udp") (bool in'.udp) (started in'))

-- `um, ok := m["users"].(map[string]interface{}); ok && len(um) > 0`.
abbrev pub has_users_map : Option Fields → Bool
has_users_map none = false
has_users_map (some um) = not (is_empty um)

abbrev pub has_tokens : List Text → Bool
has_tokens [] = false
has_tokens (t ∷ ts) = true

-- Whether the inbound authenticates by tokens.
unfoldable pub is_v4 : Text → Fields → Bool
unfolding all_string_tokens
is_v4 k m =
    if k == codes "tuic-v5"
    then false
    else if k == codes "tuic"
    then has_tokens (all_string_tokens (get (codes "token") m))
      && not (has_users_map (as_obj (get (codes "users") m)))
    else k == codes "tuic-v4"

-- The modules by their kind, in lower case.
abbrev pub Registry : Type 0
Registry = List (Text × Module)

abbrev add_modules : Registry → List (Option Module) → Registry
add_modules r [] = r
add_modules r (none ∷ ms) = add_modules r ms
add_modules r (some m ∷ ms) = add_modules (insert (to_lower (kind m)) m r) ms

unfoldable pub new_registry : List (Option Module) → Registry
unfolding kind
new_registry ms = add_modules [] ms

unfoldable pub default_compile_registry : Registry
unfolding new_registry
default_compile_registry = new_registry (
    some vless
    ∷ some vmess
    ∷ some trojan
    ∷ some shadowsocks
    ∷ some hysteria2
    ∷ some (tuic (codes "tuic"))
    ∷ some (tuic (codes "tuic-v4"))
    ∷ some (tuic (codes "tuic-v5"))
    ∷ some shadowquic
    ∷ some (generic (codes "snell"))
    ∷ some anytls
    ∷ some mieru
    ∷ some (generic (codes "sudoku"))
    ∷ some trusttunnel
    ∷ [])

module _ (sprint : Value → Text) where
  -- VLESS, VMess and Trojan, by the field of a user that authenticates.
  unfoldable pub stream_compile : Text → CompileInput → Fields
  stream_compile fld in' =
      put_users_array (as_users_array sprint in'.config in'.users fld in'.has_credential_state)
        (remove (codes "tls") (remove (codes "udp") (started in')))

  -- Hysteria2 and Mieru.
  unfoldable pub map_compile : CompileInput → Fields
  map_compile in' =
      put_users_map (as_users_map sprint in'.config in'.users in'.has_credential_state)
        (started in')

  unfoldable pub anytls_compile : CompileInput → Fields
  anytls_compile in' =
      put_users_map (as_users_map sprint in'.config in'.users in'.has_credential_state)
        (put_flag (codes "udp") in'.udp (started in'))

  unfoldable pub shadowquic_compile : CompileInput → Fields
  shadowquic_compile in' = put_default (codes "congestion-controller") (str (codes "cubic")) (
      put_users_array
        (as_users_array sprint in'.config in'.users (codes "password") in'.has_credential_state)
        (started in'))

  unfoldable pub trusttunnel_compile : CompileInput → Fields
  trusttunnel_compile in' =
      let m =
        put_users_array
          (as_users_array sprint in'.config in'.users (codes "password") in'.has_credential_state)
          (started in') in
      text_to_strs (codes "network") (as_str (get (codes "network") m)) m

  module _ (token : Text) where
    unfoldable pub tuic_started : CompileInput → Fields
    tuic_started in' =
        let m =
          copy_config_passthrough (put (codes "type") (str (codes "tuic")) (base_map in'))
            in'.config managed_keys in
        text_to_strs (codes "token") (as_str (get (codes "token") m)) m

    abbrev pub or_token : List Text → List Text
    or_token [] = token ∷ []
    or_token (t ∷ ts) = t ∷ ts

    unfoldable pub tuic_auth : Text → CompileInput → Fields → Fields
    unfolding is_v4
    tuic_auth k in' m =
        if is_v4 k m
        then remove (codes "users")
            (put (codes "token") (strs (or_token (all_string_tokens (get (codes "token") m)))) m)
        else put_users_map (as_users_map_uuid sprint in'.config in'.users in'.has_credential_state)
            (remove (codes "token") m)

    unfoldable pub tuic_compile : Text → CompileInput → Fields
    unfolding tuic_started tuic_auth
    tuic_compile k in' =
        put_default (codes "congestion-controller") (str (codes "bbr"))
          (put_default (codes "alpn") (strs (codes "h3" ∷ [])) (tuic_auth k in' (tuic_started in')))

    unfoldable pub compile_module : Module → CompileInput → Compiled
    unfolding kind stream_compile map_compile anytls_compile shadowquic_compile trusttunnel_compile
        tuic_compile generic_compile shadowsocks_compile
    compile_module vless in' = ok (stream_compile (codes "uuid") in')
    compile_module vmess in' = ok (stream_compile (codes "uuid") in')
    compile_module trojan in' = ok (stream_compile (codes "password") in')
    compile_module shadowsocks in' = shadowsocks_compile in'
    compile_module hysteria2 in' = ok (map_compile in')
    compile_module (tuic k) in' = ok (tuic_compile (kind (tuic k)) in')
    compile_module shadowquic in' = ok (shadowquic_compile in')
    compile_module (generic k) in' = ok (generic_compile in')
    compile_module anytls in' = ok (anytls_compile in')
    compile_module mieru in' = ok (map_compile in')
    compile_module trusttunnel in' = ok (trusttunnel_compile in')

    abbrev pub compile_found : Text → Option Module → CompileInput → Compiled
    compile_found k none in' = err (unsupported_protocol k)
    compile_found k (some m) in' = compile_module m in'

    unfoldable pub compile : Registry → CompileInput → Compiled
    unfolding compile_module
    compile r in' = let k = to_lower (trim_space in'.protocol) in compile_found k (lookup k r) in'

    unfoldable pub has_kind : Registry → Text → Bool
    has_kind r k = has_key (to_lower (trim_space k)) r
