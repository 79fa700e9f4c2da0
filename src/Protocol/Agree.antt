-- ===== src/Protocol/Agree.antt =====
-- Links and listeners agree on TUIC's tokens (protocol/decode.go, protocol/compile_modules.go).
use m_ui.Base.Int.{ℤ}
use m_ui.Base.{
  Bool, Option, to_lower, trim_space, true, List, [], ◌∷◌, some, Text, codes, ◌==◌, text_eq, map,
  ◌≡◌, refl, sym, ap, ◌∙◌,
}
use m_ui.Json.{Value, str, strs, arr, Items, Fields, get, put}
use m_ui.Protocol.Input.{UserCred, CompileInput, base_map, managed_keys, copy_config_passthrough}
use m_ui.Protocol.Tokens.{all_string_tokens}
use m_ui.Protocol.Compile.{tuic_compile, tuic_started, is_v4, or_token}
use m_ui.Protocol.Passthrough.{HasUniqueKeys, get-copy_kept, or_else}
use m_ui.Protocol.Auth.{get-tuic_compile, tuic_auth_v4, keeps_token}
use m_ui.Protocol.Access.{string_list_from}
use m_ui.Protocol.Node.{
  Spec, NodeRow, NodeModel, password_only, tuic_users, embedded_users, parse_config_json,
  decode_spec, decode_node_model,
}

-- A list of tokens, as an array of the JSON or as the panel builds it.
pub data IsList : Value → Type 0 where
  text_list : (ss : List Text) → IsList (strs ss)
  item_list : (items : Items) → IsList (arr items)

abbrev pub passwords : List UserCred → List Text
passwords us = map (λ (u : UserCred). u.password) us

passwords-tokens : (ts : List Text) → passwords (map password_only ts) ≡ ts
passwords-tokens [] = refl
passwords-tokens (t ∷ ts) = ap (λ us. t ∷ us) (passwords-tokens ts)

listed :
    (cfg : Fields) (v : Value)
    → IsList v
    → get (codes "token") cfg ≡ some v
    → string_list_from cfg (codes "token") ≡ all_string_tokens (some v)
unfolding string_list_from all_string_tokens
listed cfg _ (text_list ss) h = rw h
listed cfg _ (item_list items) h = rw h

copied_token :
    (in' : CompileInput)
    → HasUniqueKeys in'.config
    → get (codes "token") (
        copy_config_passthrough
          (put (codes "type") (str (codes "tuic")) (base_map in'))
          in'.config
          managed_keys)
      ≡ or_else
          (get (codes "token") in'.config)
          (get (codes "token") (put (codes "type") (str (codes "tuic")) (base_map in')))
copied_token in' u =
    get-copy_kept managed_keys (codes "token")
      (put (codes "type") (str (codes "tuic")) (base_map in')) in'.config keeps_token u

pub started_list :
    (sprint : Value → Text) (token : Text) (in' : CompileInput) (v : Value)
    → IsList v
    → HasUniqueKeys in'.config
    → get (codes "token") in'.config ≡ some v
    → get (codes "token") (tuic_started sprint token in') ≡ some v
unfolding tuic_started
started_list sprint token in' _ (text_list ss) u h =
    rw (copied_token in' u, h) (copied_token in' u ∙ rw h)
started_list sprint token in' _ (item_list items) u h =
    rw (copied_token in' u, h) (copied_token in' u ∙ rw h)

v4_users :
    (cfg : Fields) (us : List UserCred) (t : Text) (ts : List Text)
    → string_list_from cfg (codes "token") ≡ (t ∷ ts)
    → tuic_users (codes "tuic-v4") cfg us ≡ map password_only (t ∷ ts)
unfolding tuic_users
v4_users cfg us t ts h = rw h

v4_kind : (m : Fields) → is_v4 (codes "tuic-v4") m ≡ true
unfolding is_v4
v4_kind m = refl

tuic_v4-embedded :
    (sprint : Value → Text) (token : Text) (spec : Spec) (in' : CompileInput) (v : Value) (t : Text)
    (ts : List Text)
    → IsList v
    → HasUniqueKeys in'.config
    → get (codes "token") in'.config ≡ some v
    → all_string_tokens (some v) ≡ (t ∷ ts)
    → get (codes "token") (tuic_compile sprint token (codes "tuic-v4") in')
      ≡ some (strs (passwords (embedded_users sprint (codes "tuic-v4") spec in'.config)))
unfolding embedded_users
tuic_v4-embedded sprint token spec in' v t ts l u h given =
    get-tuic_compile sprint token in' (λ k. k == codes "token") _ (codes "tuic-v4") refl refl refl
    ∙ (tuic_auth_v4 sprint token in' (codes "tuic-v4") (tuic_started sprint token in')
        (v4_kind _)).1
    ∙ ap (λ x. some (strs (or_token sprint token (all_string_tokens x))))
        (started_list sprint token in' v l u h)
    ∙ ap (λ ss. some (strs (or_token sprint token ss))) given
    ∙ ap (λ ss. some (strs ss))
        (sym (passwords-tokens (t ∷ ts))
          ∙ ap passwords (sym (v4_users in'.config _ t ts (listed in'.config v l h ∙ given))))

-- A TUIC v4 listener whose `Config` lists tokens, at least one of them not blank, lets in exactly the
-- passwords of the users of the node model that is decoded from the same row and `Config` with no
-- bound user, in the same order, whatever users are bound when it is compiled. The keys of the
-- `Config` are distinct.
pub tuic_v4-tokens :
    (unmarshal : Text → Option Fields) (sprint : Value → Text) (truncate scan : Text → ℤ)
    (skip_verify : Fields → Bool) (token : Text) (row : NodeRow) (in' : CompileInput) (v : Value)
    (t : Text) (ts : List Text)
    → to_lower (trim_space row.protocol) ≡ codes "tuic-v4"
    → parse_config_json unmarshal sprint truncate scan skip_verify row.config ≡ some in'.config
    → IsList v
    → HasUniqueKeys in'.config
    → get (codes "token") in'.config ≡ some v
    → all_string_tokens (some v) ≡ (t ∷ ts)
    → (m : NodeModel) × (decode_node_model unmarshal sprint truncate scan skip_verify row []
        ≡ some m)
      × (get (codes "token") (tuic_compile sprint token (codes "tuic-v4") in')
          ≡ some (strs (passwords m.users)))
unfolding decode_node_model
tuic_v4-tokens unmarshal sprint truncate scan skip_verify token row in' v t ts kd parsed l u h
      given =
    rw parsed (
      _,
      refl,
      tuic_v4-embedded sprint token
            (decode_spec unmarshal sprint truncate scan skip_verify row in'.config
              (to_lower (trim_space row.protocol)))
            in' v t ts l u h given
          ∙ ap
              (λ p. some (
                strs (
                  passwords (
                    embedded_users sprint p
                      (decode_spec unmarshal sprint truncate scan skip_verify row in'.config
                        (to_lower (trim_space row.protocol)))
                      in'.config))))
              (sym kd),
    )
