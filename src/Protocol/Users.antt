-- ===== src/Protocol/Users.antt =====
-- The users of a listener, in the three shapes that the core's protocols want (protocol/compile.go).
-- `sprint` stands for `fmt.Sprint`.
use m_ui.Base.{
  Bool, List, [], ◌∷◌, Option, none, some, Text, codes, ◌==◌, text_eq, if◌then◌else◌, trim_space,
}
use m_ui.Json.{
  Value, null, str, arr, objs, obj, dict, Items, nil, cons, Fields, end, field, Pairs, stop, pair,
  get, put, has, is_empty, of_maps,
}
use m_ui.Protocol.Input.{UserCred, is_blank, put_text}

unfoldable pub array_user : Text → UserCred → Fields
array_user fld c =
    if fld == codes "uuid"
    then put_text (codes "flow") c.flow (put_text (codes "uuid") c.uuid end)
    else if fld == codes "password"
    then (if is_blank c.username
        then put_text (codes "uuid") c.uuid (put (codes "password") (str c.password) end)
        else put (codes "password") (str c.password) (put (codes "username") (str c.username) end))
    else end

unfoldable pub array_users : Text → List UserCred → List Fields
array_users fld [] = []
array_users fld (c ∷ cs) =
    let u = array_user fld c in
    let rest = array_users fld cs in if is_empty u then rest else u ∷ rest

-- The maps among the items, `item.(map[string]interface{})`.
unfoldable pub obj_items : Items → List Fields
obj_items nil = []
obj_items (cons (obj m) rest) = m ∷ obj_items rest
obj_items (cons _ rest) = obj_items rest

-- `if _, exists := user[k]; !exists { user[k] = v }` for each user.
unfoldable pub fill_missing : Text → Value → List Fields → List Fields
fill_missing k v [] = []
fill_missing k v (u ∷ us) = (if has k u then u else put k v u) ∷ fill_missing k v us

abbrev pub fill_flow : Option Value → List Fields → List Fields
fill_flow (some (str flow)) us =
    if is_blank (trim_space flow) then us else fill_missing (codes "flow") (str flow) us
fill_flow _ us = us

abbrev pub fill_alter_id : Option Value → List Fields → List Fields
fill_alter_id none us = us
fill_alter_id (some null) us = us
fill_alter_id (some v) us = fill_missing (codes "alterId") v us

-- `if name == "" { name = "default" }`.
abbrev pub or_default : Text → Text
or_default name = if is_blank name then codes "default" else name

unfoldable pub cred_map : Fields → List UserCred → Fields
cred_map out [] = out
cred_map out (c ∷ cs) = cred_map (put (or_default c.username) (str c.password) out) cs

unfoldable pub uuid_key : UserCred → Text
uuid_key c = let key = trim_space c.uuid in if is_blank key then trim_space c.username else key

unfoldable pub add_uuid_users : Fields → List UserCred → Fields
unfolding uuid_key
add_uuid_users out [] = out
add_uuid_users out (c ∷ cs) =
    let pass = trim_space c.password in
    add_uuid_users
      (if is_blank (uuid_key c)
        then out
        else if is_blank pass
        then out
        else put (uuid_key c) (str pass) out)
      cs

module _ (sprint : Value → Text) where
  unfoldable pub user_rows : Fields → List Fields
  user_rows end = []
  user_rows (field name password m) =
      put (codes "password") (str (sprint password)) (put (codes "username") (str name) end)
      ∷ user_rows m

  unfoldable pub pair_rows : Pairs → List Fields
  pair_rows stop = []
  pair_rows (pair name password m) =
      put (codes "password") (str (sprint password))
        (put (codes "username") (str (sprint name)) end)
      ∷ pair_rows m

  unfoldable pub normalize_users_value : Value → List Fields
  unfolding user_rows pair_rows obj_items
  normalize_users_value (arr items) = obj_items items
  normalize_users_value (objs ms) = of_maps ms
  normalize_users_value (obj m) = user_rows m
  normalize_users_value (dict ps) = pair_rows ps
  normalize_users_value _ = []

  unfoldable pub config_users : Option Value → List Fields
  unfolding normalize_users_value
  config_users none = []
  config_users (some raw) = normalize_users_value raw

  unfoldable pub as_users_array : Fields → List UserCred → Text → Bool → List Fields
  unfolding array_users config_users fill_missing
  as_users_array cfg [] fld has_cred_state =
      fill_alter_id (get (codes "alterId") cfg)
        (fill_flow (get (codes "flow") cfg) (config_users (get (codes "users") cfg)))
  as_users_array cfg (c ∷ cs) fld has_cred_state =
      fill_alter_id (get (codes "alterId") cfg)
        (fill_flow (get (codes "flow") cfg) (array_users fld (c ∷ cs)))

  unfoldable pub sprint_pairs : Fields → Pairs → Fields
  sprint_pairs out stop = out
  sprint_pairs out (pair k v m) = sprint_pairs (put (sprint k) (str (sprint v)) out) m

  abbrev pub config_users_map : Option Value → Fields
  config_users_map (some (obj m)) = m
  config_users_map (some (dict ps)) = sprint_pairs end ps
  config_users_map _ = end

  -- The empty map stands for `nil` too: the callers ask only whether it has entries.
  unfoldable pub as_users_map : Fields → List UserCred → Bool → Fields
  unfolding cred_map sprint_pairs
  as_users_map cfg [] has_cred_state = config_users_map (get (codes "users") cfg)
  as_users_map cfg (c ∷ cs) has_cred_state = cred_map end (c ∷ cs)

  -- `if s := strings.TrimSpace(fmt.Sprint(v)); s != "" { out[k] = s }`.
  abbrev pub put_trimmed : Text → Value → Fields → Fields
  put_trimmed k v out =
      let s = trim_space (sprint v) in if is_blank s then out else put k (str s) out

  unfoldable pub trimmed_fields : Fields → Fields → Fields
  trimmed_fields out end = out
  trimmed_fields out (field k v m) = trimmed_fields (put_trimmed k v out) m

  unfoldable pub trimmed_pairs : Fields → Pairs → Fields
  trimmed_pairs out stop = out
  trimmed_pairs out (pair k v m) = trimmed_pairs (put_trimmed (sprint k) v out) m

  abbrev pub config_uuid_users : Option Value → Fields
  config_uuid_users (some (obj m)) = trimmed_fields end m
  config_uuid_users (some (dict ps)) = trimmed_pairs end ps
  config_uuid_users _ = end

  unfoldable pub as_users_map_uuid : Fields → List UserCred → Bool → Fields
  unfolding add_uuid_users trimmed_fields trimmed_pairs
  as_users_map_uuid cfg creds has_cred_state =
      add_uuid_users (config_uuid_users (get (codes "users") cfg)) creds
