-- ===== src/Protocol/Keep.antt =====
-- A key that no compiler sets by itself has, in the compiled listener, the value that the copying of
-- the `Config` left there (protocol/compile_modules.go).
use m_ui.Base.{
  Bool, true, false, List, [], ◌∷◌, Option, none, some, Text, codes, text_eq, ◌≡◌, refl, ◌∙◌, arith,
  Bool-cases, inl, inr, to_lower, trim_space,
}
use m_ui.Base.Dict.{lookup}
use m_ui.Base.Result.{ok}
use m_ui.Json.{
  Value, str, Fields, end, field, get, put, remove, has, get-put, get-put_other, get-remove_other,
}
use m_ui.Protocol.Input.{
  UserCred, CompileInput, base_map, managed_keys, is_skipped, copy_config_passthrough, is_blank,
}
use m_ui.Protocol.Compile.{
  Module, vless, vmess, trojan, shadowsocks, hysteria2, tuic, shadowquic, generic, anytls, mieru,
  trusttunnel, kind, Registry, started, put_users_array, put_users_map, put_flag, put_default,
  text_to_strs, one_password, generic_compile, shadowsocks_compile, stream_compile, map_compile,
  anytls_compile, shadowquic_compile, trusttunnel_compile, tuic_started, tuic_auth, tuic_compile,
  compile_module, compile, compile_found, is_v4,
}
use m_ui.Protocol.Users.{as_users_array, as_users_map, as_users_map_uuid}

-- A test that fails at the keys which a protocol's compiler sets by itself.
pub record Apart (p : Text → Bool) : Type 0 where
  pub kind_key : p (codes "type") ≡ false
  pub udp : p (codes "udp") ≡ false
  pub tls : p (codes "tls") ≡ false
  pub users : p (codes "users") ≡ false
  pub password : p (codes "password") ≡ false
  pub token : p (codes "token") ≡ false
  pub alpn : p (codes "alpn") ≡ false
  pub controller : p (codes "congestion-controller") ≡ false
  pub network : p (codes "network") ≡ false

-- A key that the loop steps over keeps its value.
pub get-copy_skipped :
    (skip : List Text) (k : Text) (dst cfg : Fields)
    → is_skipped skip k ≡ true
    → get k (copy_config_passthrough dst cfg skip) ≡ get k dst
unfolding copy_config_passthrough
get-copy_skipped skip k dst end h = refl
get-copy_skipped skip k dst (field j v cfg) h = elim (Bool-cases (is_skipped skip j)) [
  | inl skipped ↦ rw skipped (get-copy_skipped skip k dst cfg h)
  | inr kept ↦ rw kept (
      get-copy_skipped skip k (put j v dst) cfg h
      ∙ get-put_other (is_skipped skip) k j v dst h kept)
]

-- What the loop does to a key depends on that key's old value alone.
get-copy_cong :
    (skip : List Text) (k : Text) (d d' cfg : Fields)
    → get k d ≡ get k d'
    → get k (copy_config_passthrough d cfg skip) ≡ get k (copy_config_passthrough d' cfg skip)
unfolding copy_config_passthrough
get-copy_cong skip k d d' end h = h
get-copy_cong skip k d d' (field j v cfg) h = elim (Bool-cases (is_skipped skip j)) [
  | inl skipped ↦ rw skipped (get-copy_cong skip k d d' cfg h)
  | inr kept ↦ rw kept (
      get-copy_cong skip k (put j v d) (put j v d') cfg (rw (get-put j k v d, get-put j k v d', h)))
]

pub put_default_other :
    (p : Text → Bool) (k j : Text) (v : Value) (m : Fields)
    → p k ≡ true
    → p j ≡ false
    → get k (put_default j v m) ≡ get k m
put_default_other p k j v m h g = elim (Bool-cases (has j m)) [
  | inl old ↦ rw old
  | inr new ↦ rw new (get-put_other p k j v m h g)
]

pub text_to_strs_other :
    (p : Text → Bool) (k j : Text) (o : Option Text) (m : Fields)
    → p k ≡ true
    → p j ≡ false
    → get k (text_to_strs j o m) ≡ get k m
text_to_strs_other p k j none m h g = refl
text_to_strs_other p k j (some s) m h g = get-put_other p k j _ m h g

-- A key that passes a test which the touched keys fail.
module _ (p : Text → Bool) (k : Text) (h : p k ≡ true) (a : Apart p) where
  put_keep : (j : Text) (v : Value) (m : Fields) → p j ≡ false → get k (put j v m) ≡ get k m
  put_keep j v m g = get-put_other p k j v m h g

  put_users_array_keep : (us : List Fields) (m : Fields) → get k (put_users_array us m) ≡ get k m
  put_users_array_keep [] m = refl
  put_users_array_keep (u ∷ us) m = put_keep (codes "users") _ m a.users

  put_users_map_keep : (us m : Fields) → get k (put_users_map us m) ≡ get k m
  put_users_map_keep end m = refl
  put_users_map_keep (field j v us) m = put_keep (codes "users") _ m a.users

  put_flag_keep :
      (j : Text) (b : Bool) (m : Fields) → p j ≡ false → get k (put_flag j b m) ≡ get k m
  put_flag_keep j true m g = put_keep j _ m g
  put_flag_keep j false m g = refl

  put_default_keep :
      (j : Text) (v : Value) (m : Fields) → p j ≡ false → get k (put_default j v m) ≡ get k m
  put_default_keep j v m g = put_default_other p k j v m h g

  text_to_strs_keep :
      (j : Text) (o : Option Text) (m : Fields) → p j ≡ false → get k (text_to_strs j o m) ≡ get k m
  text_to_strs_keep j o m g = text_to_strs_other p k j o m h g

  remove_keep : (j : Text) (m : Fields) → p j ≡ false → get k (remove j m) ≡ get k m
  remove_keep j m g = get-remove_other p k j m h g

  one_password_keep :
      (cs : List UserCred) (m m' : Fields) → one_password cs m ≡ ok m' → get k m' ≡ get k m
  one_password_keep [] m m' e = cc
  one_password_keep (c ∷ []) m m' e = elim (Bool-cases (is_blank c.password)) [
    | inl blank ↦ ground (arith, blank)
    | inr given ↦ ground (arith, given, put_keep (codes "password") (str c.password) m a.password)
  ]
  one_password_keep (c ∷ d ∷ cs) m m' e = cc

  generic_compile_keep : (in' : CompileInput) → get k (generic_compile in') ≡ get k (started in')
  unfolding generic_compile
  generic_compile_keep in' =
      put_flag_keep (codes "tls") in'.tls _ a.tls ∙ put_flag_keep (codes "udp") in'.udp _ a.udp

  shadowsocks_compile_keep :
      (in' : CompileInput) (m : Fields)
      → shadowsocks_compile in' ≡ ok m
      → get k m ≡ get k (started in')
  unfolding shadowsocks_compile
  shadowsocks_compile_keep in' m e =
      one_password_keep in'.users _ m e ∙ put_keep (codes "udp") _ (started in') a.udp

  module _ (sprint : Value → Text) where
    stream_compile_keep :
        (fld : Text) (in' : CompileInput)
        → get k (stream_compile sprint fld in') ≡ get k (started in')
    unfolding stream_compile
    stream_compile_keep fld in' =
        put_users_array_keep
          (as_users_array sprint in'.config in'.users fld in'.has_credential_state) _
        ∙ remove_keep (codes "tls") _ a.tls
        ∙ remove_keep (codes "udp") (started in') a.udp

    map_compile_keep : (in' : CompileInput) → get k (map_compile sprint in') ≡ get k (started in')
    unfolding map_compile
    map_compile_keep in' =
        put_users_map_keep (as_users_map sprint in'.config in'.users in'.has_credential_state) _

    anytls_compile_keep :
        (in' : CompileInput) → get k (anytls_compile sprint in') ≡ get k (started in')
    unfolding anytls_compile
    anytls_compile_keep in' =
        put_users_map_keep (as_users_map sprint in'.config in'.users in'.has_credential_state) _
        ∙ put_flag_keep (codes "udp") in'.udp _ a.udp

    shadowquic_compile_keep :
        (in' : CompileInput) → get k (shadowquic_compile sprint in') ≡ get k (started in')
    unfolding shadowquic_compile
    shadowquic_compile_keep in' =
        put_default_keep (codes "congestion-controller") _ _ a.controller
        ∙ put_users_array_keep
            (as_users_array sprint in'.config in'.users (codes "password") in'.has_credential_state)
            _

    trusttunnel_compile_keep :
        (in' : CompileInput) → get k (trusttunnel_compile sprint in') ≡ get k (started in')
    unfolding trusttunnel_compile
    trusttunnel_compile_keep in' =
        text_to_strs_keep (codes "network") _ _ a.network
        ∙ put_users_array_keep
            (as_users_array sprint in'.config in'.users (codes "password") in'.has_credential_state)
            _

    module _ (token : Text) where
      tuic_started_keep :
          (in' : CompileInput) → get k (tuic_started sprint token in') ≡ get k (started in')
      unfolding tuic_started
      tuic_started_keep in' =
          text_to_strs_keep (codes "token") _ _ a.token
          ∙ get-copy_cong managed_keys k _ (base_map in') in'.config
              (put_keep (codes "type") _ (base_map in') a.kind_key)

      tuic_auth_keep :
          (kd : Text) (in' : CompileInput) (m : Fields)
          → get k (tuic_auth sprint token kd in' m) ≡ get k m
      unfolding tuic_auth
      tuic_auth_keep kd in' m = elim (Bool-cases (is_v4 kd m)) [
        | inl v4 ↦
            rw v4 (remove_keep (codes "users") _ a.users ∙ put_keep (codes "token") _ m a.token)
        | inr v5 ↦ rw v5 (
            put_users_map_keep
              (as_users_map_uuid sprint in'.config in'.users in'.has_credential_state) _
            ∙ remove_keep (codes "token") m a.token)
      ]

      tuic_compile_keep :
          (kd : Text) (in' : CompileInput)
          → get k (tuic_compile sprint token kd in') ≡ get k (started in')
      unfolding tuic_compile
      tuic_compile_keep kd in' =
          put_default_keep (codes "congestion-controller") _ _ a.controller
          ∙ put_default_keep (codes "alpn") _ _ a.alpn
          ∙ tuic_auth_keep kd in' (tuic_started sprint token in')
          ∙ tuic_started_keep in'

      compile_module_keep :
          (md : Module) (in' : CompileInput) (m : Fields)
          → compile_module sprint token md in' ≡ ok m
          → get k m ≡ get k (started in')
      unfolding compile_module
      compile_module_keep vless in' m e = cc (stream_compile_keep (codes "uuid") in')
      compile_module_keep vmess in' m e = cc (stream_compile_keep (codes "uuid") in')
      compile_module_keep trojan in' m e = cc (stream_compile_keep (codes "password") in')
      compile_module_keep shadowsocks in' m e = shadowsocks_compile_keep in' m e
      compile_module_keep hysteria2 in' m e = cc (map_compile_keep in')
      compile_module_keep (tuic kd) in' m e = cc (tuic_compile_keep (kind (tuic kd)) in')
      compile_module_keep shadowquic in' m e = cc (shadowquic_compile_keep in')
      compile_module_keep (generic kd) in' m e = cc (generic_compile_keep in')
      compile_module_keep anytls in' m e = cc (anytls_compile_keep in')
      compile_module_keep mieru in' m e = cc (map_compile_keep in')
      compile_module_keep trusttunnel in' m e = cc (trusttunnel_compile_keep in')

      pub compile_keep :
          (r : Registry) (in' : CompileInput) (m : Fields)
          → compile sprint token r in' ≡ ok m
          → get k m ≡ get k (started in')
      unfolding compile
      compile_keep r in' m e = found (lookup (to_lower (trim_space in'.protocol)) r) e
        where
          found :
              (o : Option Module)
              → compile_found sprint token (to_lower (trim_space in'.protocol)) o in' ≡ ok m
              → get k m ≡ get k (started in')
          found none e = cc
          found (some md) e = compile_module_keep md in' m e
