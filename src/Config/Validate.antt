-- ===== src/Config/Validate.antt =====
-- The check of a listener's `Config` (mihomo/config/listener_validation.go): the first fault in the
-- order of the map. `unmarshal` stands for `json.Unmarshal` into a map: `none` is an error, and a
-- JSON `null` gives the nil map, `some none`.
use m_ui.Base.{
  Bool, true, false, List, [], ◌∷◌, ◌++◌, Option, none, some, Text, codes, text_eq, contains,
  if◌then◌else◌, to_lower, trim_space,
}
use m_ui.Base.Dict.{lookup}
use m_ui.Json.{
  Value, null, bool, int, float, str, strs, arr, objs, obj, dict, Items, nil, cons, Maps, empty,
  entry, Fields, end, field,
}
use m_ui.Config.Schema.{ListenerSchema}
use m_ui.Config.Registry.{get_mihomo_listener_schema}

pub data Fault : Type 0 where
  unsupported_protocol : Text → Fault
  not_json : Fault
  not_an_object : Fault
  managed_field : Text → Fault
  unsupported_field : Text → Fault
  element_not_object : Text → Fault
  must_be_object_or_array : Text → Fault

-- The first of two checks that finds a fault decides.
abbrev pub and_then : Option Fault → Option Fault → Option Fault
and_then none o = o
and_then (some f) o = some f

unfoldable pub reserved : List Text
reserved =
    codes "name"
    ∷ codes "type"
    ∷ codes "port"
    ∷ codes "listen"
    ∷ codes "bind_address"
    ∷ codes "proxy"
    ∷ codes "rule"
    ∷ codes "enabled"
    ∷ codes "status"
    ∷ codes "tls"
    ∷ codes "udp"
    ∷ codes "routing-mark"
    ∷ []

abbrev pub path_of : Text → Text → Text
path_of [] key = key
path_of (c ∷ prefix) key = (c ∷ prefix) ++ (codes "." ++ key)

abbrev pub is_parent : Option (List Text) → Bool
is_parent none = false
is_parent (some ns) = true

abbrev pub is_child : Text → Option (List Text) → Bool
is_child key none = false
is_child key (some ns) = contains ns key

-- May the key stand below the prefix? The empty prefix is the top of the `Config`.
unfoldable pub check_key : ListenerSchema → Text → Text → Option Fault
check_key s [] key =
    if contains reserved key
    then some (managed_field key)
    else if contains s.fields key
    then none
    else if is_parent (lookup key s.nested_fields)
    then none
    else some (unsupported_field key)
check_key s (c ∷ prefix) key =
    if is_child key (lookup (c ∷ prefix) s.nested_fields)
    then none
    else some (unsupported_field (path_of (c ∷ prefix) key))

unfoldable mutual
  unfolding check_key

  pub validate_listener_object : ListenerSchema → Text → Fields → Option Fault
  validate_listener_object s prefix end = none
  validate_listener_object s prefix (field key value values) = and_then (check_key s prefix key) (
      and_then
        (validate_value s (path_of prefix key)
          (is_parent (lookup (path_of prefix key) s.nested_fields)) value)
        (validate_listener_object s prefix values))

  -- The value at a path, which may have fields below it.
  pub validate_value : ListenerSchema → Text → Bool → Value → Option Fault
  validate_value s path false value = none
  validate_value s path true (obj children) = validate_listener_object s path children
  validate_value s path true (arr children) = validate_items s path children
  validate_value s path true (objs children) = validate_maps s path children
  validate_value s path true null = some (must_be_object_or_array path)
  validate_value s path true (bool b) = some (must_be_object_or_array path)
  validate_value s path true (int n) = some (must_be_object_or_array path)
  validate_value s path true (float n) = some (must_be_object_or_array path)
  validate_value s path true (str t) = some (must_be_object_or_array path)
  validate_value s path true (strs ts) = some (must_be_object_or_array path)
  validate_value s path true (dict ps) = some (must_be_object_or_array path)

  pub validate_items : ListenerSchema → Text → Items → Option Fault
  validate_items s path nil = none
  validate_items s path (cons (obj child) rest) =
      and_then (validate_listener_object s path child) (validate_items s path rest)
  validate_items s path (cons _ rest) = some (element_not_object path)

  pub validate_maps : ListenerSchema → Text → Maps → Option Fault
  validate_maps s path empty = none
  validate_maps s path (entry child rest) =
      and_then (validate_listener_object s path child) (validate_maps s path rest)

module _ (unmarshal : Text → Option (Option Fields)) where
  abbrev validate_parsed : ListenerSchema → Option (Option Fields) → Option Fault
  validate_parsed s none = some not_json
  validate_parsed s (some none) = some not_an_object
  validate_parsed s (some (some values)) = validate_listener_object s [] values

  abbrev validate_with : Text → Option ListenerSchema → Text → Option Fault
  validate_with protocol none raw = some (unsupported_protocol protocol)
  validate_with protocol (some s) raw = elim (trim_space raw) [
    | [] ↦ none
    | _ ∷ _ ↦ validate_parsed s (unmarshal raw)
  ]

  unfoldable pub validate_listener_config : Text → Text → Option Fault
  validate_listener_config protocol raw =
      let p = to_lower (trim_space protocol) in validate_with p (get_mihomo_listener_schema p) raw
