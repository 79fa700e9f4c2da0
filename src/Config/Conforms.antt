-- ===== src/Config/Conforms.antt =====
-- Which configurations the check accepts (mihomo/config/listener_validation.go).
use m_ui.Base.{
  Bool, true, false, [], ◌∷◌, Option, none, some, Text, text_eq, contains, ◌≡◌, refl, ◌↔◌, ◌⊎◌, inl,
  inr, arith, Bool-cases,
}
use m_ui.Base.Dict.{lookup}
use m_ui.Json.{
  Value, null, bool, int, float, str, strs, arr, objs, obj, dict, Items, nil, cons, Maps, empty,
  entry, Fields, end, field,
}
use m_ui.Config.Schema.{ListenerSchema}
use m_ui.Config.Validate.{
  Fault, and_then, reserved, path_of, is_parent, is_child, check_key, validate_listener_object,
  validate_value, validate_items, validate_maps,
}

-- A key at the top is not the panel's, and the protocol has such a field or parent; a key below a
-- parent is among the parent's fields.
abbrev pub KeyAllowed : ListenerSchema → Text → Text → Type 0
KeyAllowed s [] key =
    (contains reserved key ≡ false)
    × ((contains s.fields key ≡ true) ⊎ (is_parent (lookup key s.nested_fields) ≡ true))
KeyAllowed s (c ∷ prefix) key = is_child key (lookup (c ∷ prefix) s.nested_fields) ≡ true

-- Every key may stand where it does, and what stands at a parent is an object, or an array of objects.
mutual
  pub data FieldsConform (s : ListenerSchema) : Text → Fields → Type 0 where
    no_fields : (prefix : Text) → FieldsConform s prefix end
    with_field :
        {prefix key : Text} {v : Value} {m : Fields}
        → KeyAllowed s prefix key
        → ValueConforms s (path_of prefix key) v
        → FieldsConform s prefix m
        → FieldsConform s prefix (field key v m)

  pub data ValueConforms (s : ListenerSchema) : Text → Value → Type 0 where
    leaf :
        {path : Text} (v : Value)
        → is_parent (lookup path s.nested_fields) ≡ false
        → ValueConforms s path v
    object : {path : Text} {m : Fields} → FieldsConform s path m → ValueConforms s path (obj m)
    array :
        {path : Text} {items : Items} → ItemsConform s path items → ValueConforms s path (arr items)
    maps : {path : Text} {ms : Maps} → MapsConform s path ms → ValueConforms s path (objs ms)

  pub data ItemsConform (s : ListenerSchema) : Text → Items → Type 0 where
    no_items : (path : Text) → ItemsConform s path nil
    with_item :
        {path : Text} {m : Fields} {items : Items}
        → FieldsConform s path m
        → ItemsConform s path items
        → ItemsConform s path (cons (obj m) items)

  pub data MapsConform (s : ListenerSchema) : Text → Maps → Type 0 where
    no_maps : (path : Text) → MapsConform s path empty
    with_map :
        {path : Text} {m : Fields} {ms : Maps}
        → FieldsConform s path m
        → MapsConform s path ms
        → MapsConform s path (entry m ms)

pub and_then-none : (a b : Option Fault) → and_then a b ≡ none → (a ≡ none) × (b ≡ none)
and_then-none none b h = (refl, h)
and_then-none (some f) b h = cc

pub check_key_sound :
    (s : ListenerSchema) (prefix key : Text)
    → check_key s prefix key ≡ none
    → KeyAllowed s prefix key
unfolding check_key
check_key_sound s [] key h = elim (Bool-cases (contains s.fields key)) [
  | inl known ↦ ground (arith, h, known)
  | inr other ↦ ground (arith, h, other)
]
check_key_sound s (c ∷ prefix) key h = ground (arith, h)

check_key_complete :
    (s : ListenerSchema) (prefix key : Text)
    → KeyAllowed s prefix key
    → check_key s prefix key ≡ none
unfolding check_key
check_key_complete s [] key h = ground (arith, h)
check_key_complete s (c ∷ prefix) key h = ground (arith, h)

mutual
  unfolding validate_listener_object validate_value validate_items validate_maps

  fields_sound :
      (s : ListenerSchema) (prefix : Text) (m : Fields)
      → validate_listener_object s prefix m ≡ none
      → FieldsConform s prefix m
  fields_sound s prefix end h = no_fields prefix
  fields_sound s prefix (field key v m) h =
      let a = and_then-none (check_key s prefix key) _ h in
      let b =
        and_then-none
          (validate_value s (path_of prefix key)
            (is_parent (lookup (path_of prefix key) s.nested_fields)) v)
          _ a.1 in
      with_field (check_key_sound s prefix key a.0)
        (value_sound s (path_of prefix key) _ refl v b.0) (fields_sound s prefix m b.1)

  value_sound :
      (s : ListenerSchema) (path : Text) (b : Bool)
      → is_parent (lookup path s.nested_fields) ≡ b
      → (v : Value) → validate_value s path b v ≡ none
      → ValueConforms s path v
  value_sound s path false e v h = leaf v e
  value_sound s path true e (obj m) h = object (fields_sound s path m h)
  value_sound s path true e (arr items) h = array (items_sound s path items h)
  value_sound s path true e (objs ms) h = maps (maps_sound s path ms h)
  value_sound s path true e null h = absurd (cc)
  value_sound s path true e (bool _) h = absurd (cc)
  value_sound s path true e (int _) h = absurd (cc)
  value_sound s path true e (float _) h = absurd (cc)
  value_sound s path true e (str _) h = absurd (cc)
  value_sound s path true e (strs _) h = absurd (cc)
  value_sound s path true e (dict _) h = absurd (cc)

  items_sound :
      (s : ListenerSchema) (path : Text) (items : Items)
      → validate_items s path items ≡ none
      → ItemsConform s path items
  items_sound s path nil h = no_items path
  items_sound s path (cons (obj m) items) h =
      let a = and_then-none (validate_listener_object s path m) _ h in
      with_item (fields_sound s path m a.0) (items_sound s path items a.1)
  items_sound s path (cons (arr _) items) h = absurd (cc)
  items_sound s path (cons (objs _) items) h = absurd (cc)
  items_sound s path (cons null items) h = absurd (cc)
  items_sound s path (cons (bool _) items) h = absurd (cc)
  items_sound s path (cons (int _) items) h = absurd (cc)
  items_sound s path (cons (float _) items) h = absurd (cc)
  items_sound s path (cons (str _) items) h = absurd (cc)
  items_sound s path (cons (strs _) items) h = absurd (cc)
  items_sound s path (cons (dict _) items) h = absurd (cc)

  maps_sound :
      (s : ListenerSchema) (path : Text) (ms : Maps)
      → validate_maps s path ms ≡ none
      → MapsConform s path ms
  maps_sound s path empty h = no_maps path
  maps_sound s path (entry m ms) h =
      let a = and_then-none (validate_listener_object s path m) _ h in
      with_map (fields_sound s path m a.0) (maps_sound s path ms a.1)

and_then-both : (a b : Option Fault) → a ≡ none → b ≡ none → and_then a b ≡ none
and_then-both a b h g = rw (h, g)

-- At a path that has no fields below it nothing is asked.
at_parent :
    (s : ListenerSchema) (path : Text) (v : Value)
    → validate_value s path true v ≡ none
    → (b : Bool) → validate_value s path b v ≡ none
unfolding validate_value
at_parent s path v h true = h
at_parent s path v h false = refl

mutual
  unfolding validate_listener_object validate_value validate_items validate_maps

  fields_complete :
      {s : ListenerSchema} {prefix : Text} {m : Fields}
      → FieldsConform s prefix m
      → validate_listener_object s prefix m ≡ none
  fields_complete (no_fields prefix) = refl
  fields_complete {s} (with_field {prefix} {key} {v} {m} a b c) =
      and_then-both (check_key s prefix key) _ (check_key_complete s prefix key a) (
        and_then-both
          (validate_value s (path_of prefix key)
            (is_parent (lookup (path_of prefix key) s.nested_fields)) v)
          _ (value_complete b) (fields_complete c))

  value_complete :
      {s : ListenerSchema} {path : Text} {v : Value}
      → ValueConforms s path v
      → validate_value s path (is_parent (lookup path s.nested_fields)) v ≡ none
  value_complete (leaf v h) = rw h
  value_complete {s} (object {path} {m} d) = at_parent s path (obj m) (fields_complete d) _
  value_complete {s} (array {path} {items} d) = at_parent s path (arr items) (items_complete d) _
  value_complete {s} (maps {path} {ms} d) = at_parent s path (objs ms) (maps_complete d) _

  items_complete :
      {s : ListenerSchema} {path : Text} {items : Items}
      → ItemsConform s path items
      → validate_items s path items ≡ none
  items_complete (no_items path) = refl
  items_complete {s} (with_item {path} {m} {items} d e) =
      and_then-both (validate_listener_object s path m) _ (fields_complete d) (items_complete e)

  maps_complete :
      {s : ListenerSchema} {path : Text} {ms : Maps}
      → MapsConform s path ms
      → validate_maps s path ms ≡ none
  maps_complete (no_maps path) = refl
  maps_complete {s} (with_map {path} {m} {ms} d e) =
      and_then-both (validate_listener_object s path m) _ (fields_complete d) (maps_complete e)

-- The check finds no fault exactly in the configurations that conform to the schema, at every depth.
pub validate_listener_object_iff :
    (s : ListenerSchema) (m : Fields)
    → (validate_listener_object s [] m ≡ none) ↔ FieldsConform s [] m
validate_listener_object_iff s m = (fields_sound s [] m, λ d. fields_complete d)
