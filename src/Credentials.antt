-- ===== src/Credentials.antt =====
-- The client credentials that the panel makes for a listener which needs some and has none
-- (backend/internal/credentials/generator.go). `Outside` is `encoding/json` between a text and a map,
-- where `null` reads as the empty map, `fmt.Sprint`, the random texts (a listener draws each of them
-- at most once) and the decryption of a stored password.
use m_ui.Base.{
  Bool, true, false, not, ◌&&◌, ◌||◌, List, [], ◌∷◌, Option, none, some, Text, codes, ◌==◌, text_eq,
  if◌then◌else◌, contains, any?, to_lower, trim_space,
}
use m_ui.Json.{
  Value, null, str, strs, arr, obj, Items, nil, cons, Fields, end, field, get, put, remove,
  is_empty,
}
use m_ui.Models.{Listener}
use m_ui.Protocol.Input.{is_blank}
use m_ui.Store.{M, ◌>>=◌, return, config_error, random_error}
use m_ui.User.Crud.{or_fail}

pub record Outside : Type 0 where
  pub unmarshal : Text → Option Fields
  pub marshal : Fields → Option Text
  pub sprint : Value → Text
  pub random_secret : Listener → Option Text
  pub random_uuid : Listener → Option Text
  pub decrypt : Text → Option Text

unfoldable pub decode_config : Outside → Text → M Fields
decode_config o raw =
    if is_blank (trim_space raw) then return end else or_fail config_error (o.unmarshal raw)

abbrev pub is_set : Text → Bool
is_set s = not (is_blank (trim_space s))

abbrev pub some_set : Items → Bool
some_set nil = false
some_set (cons (str s) rest) = is_set s || some_set rest
some_set (cons _ rest) = some_set rest

unfoldable pub token_non_empty : Option Value → Bool
token_non_empty (some (str s)) = is_set s
token_non_empty (some (strs xs)) = any? is_set xs
token_non_empty (some (arr xs)) = some_set xs
token_non_empty _ = false

unfoldable pub requires_user_credentials : Text → Bool
requires_user_credentials proto =
    contains
      (codes "vless"
        ∷ codes "vmess"
        ∷ codes "trojan"
        ∷ codes "hysteria2"
        ∷ codes "anytls"
        ∷ codes "mieru"
        ∷ codes "shadowquic"
        ∷ codes "tuic"
        ∷ codes "tuic-v4"
        ∷ codes "tuic-v5"
        ∷ [])
      (to_lower proto)

-- The protocols whose `users` are a map.
abbrev pub with_user_map : List Text
with_user_map =
    codes "hysteria2" ∷ codes "anytls" ∷ codes "mieru" ∷ codes "tuic" ∷ codes "tuic-v5" ∷ []

abbrev is_full_map : Value → Bool
is_full_map (obj m) = not (is_empty m)
is_full_map _ = false

abbrev is_full_list : Value → Bool
is_full_list (arr (cons v rest)) = true
is_full_list _ = false

-- The `users` entry, missing or `null` in the first two clauses.
unfoldable pub has_export_users : Text → Fields → Option Value → Bool
unfolding token_non_empty
has_export_users proto cfg none = proto == codes "tuic" && token_non_empty (get (codes "token") cfg)
has_export_users proto cfg (some null) =
    proto == codes "tuic" && token_non_empty (get (codes "token") cfg)
has_export_users proto cfg (some v) =
    if contains with_user_map proto then is_full_map v else is_full_list v

unfoldable pub has_export_credentials : Text → Fields → Bool
unfolding token_non_empty has_export_users
has_export_credentials proto cfg =
    if to_lower proto == codes "tuic-v4"
    then token_non_empty (get (codes "token") cfg)
    else has_export_users (to_lower proto) cfg (get (codes "users") cfg)

abbrev pub one_user : Text → Text → Value
one_user k v =
    arr (cons (obj (field (codes "username") (str (codes "client")) (field k (str v) end))) nil)

abbrev client_name : Outside → Listener → Text → M Text
client_name o l proto =
    if proto == codes "tuic" || proto == codes "tuic-v5"
    then or_fail random_error (o.random_uuid l)
    else return (codes "client")

-- The `switch` of `EnsureListenerCredentials`.
unfoldable pub generated : Outside → Listener → Text → Fields → M Fields
generated o l proto cfg =
    if contains (codes "vless" ∷ codes "vmess" ∷ []) proto
    then (or_fail random_error (o.random_uuid l) >>= λ uuid.
        return (put (codes "users") (one_user (codes "uuid") uuid) cfg))
    else if contains (codes "trojan" ∷ codes "shadowquic" ∷ []) proto
    then (or_fail random_error (o.random_secret l) >>= λ password.
        return (put (codes "users") (one_user (codes "password") password) cfg))
    else if proto == codes "tuic-v4"
    then (or_fail random_error (o.random_secret l) >>= λ password.
        return (put (codes "token") (strs (password ∷ [])) (remove (codes "users") cfg)))
    else if contains with_user_map proto
    then (or_fail random_error (o.random_secret l) >>= λ password.
        client_name o l proto >>= λ username. return (
          put (codes "users") (obj (field username (str password) end))
            (remove (codes "token") cfg)))
    else return cfg

abbrev pub protocol_of : Listener → Text
protocol_of l =
    let proto = to_lower (trim_space l.protocol) in
    if is_blank proto then to_lower (trim_space l.type) else proto

unfoldable pub ensure_listener_credentials : Outside → Listener → M Listener
unfolding decode_config requires_user_credentials has_export_credentials generated
ensure_listener_credentials o l = decode_config o l.config >>= λ cfg.
    if requires_user_credentials (protocol_of l) && not (has_export_credentials (protocol_of l) cfg)
    then (generated o l (protocol_of l) cfg >>= λ made.
        or_fail config_error (o.marshal made) >>= λ encoded. return (record l { config = encoded }))
    else return l
