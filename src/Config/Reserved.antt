-- ===== src/Config/Reserved.antt =====
-- The fields that a `Config` cannot set (mihomo/config/listener_validation.go).
use m_ui.Base.{true, false, [], none, Text, text_eq, contains, ◌≡◌, refl}
use m_ui.Base.Dict.{lookup}
use m_ui.Json.{Value, Fields, end, field, get, beq_apart}
use m_ui.Config.Schema.{ListenerSchema}
use m_ui.Config.Validate.{reserved, is_parent, check_key, validate_listener_object, validate_value}
use m_ui.Config.Conforms.{and_then-none, check_key_sound}

absent_field :
    (k key : Text) (v : Value) (m : Fields)
    → contains reserved k ≡ true
    → contains reserved key ≡ false
    → get k m ≡ none
    → get k (field key v m) ≡ none
unfolding get
absent_field k key v m h g e = rw (beq_apart (contains reserved) k key h g) e

-- An accepted configuration sets none of the fields that the panel manages (`name`, `port`,
-- `listen`, `proxy`, …), whatever the schema of its protocol allows.
pub validate-reserved :
    (s : ListenerSchema) (m : Fields) (k : Text)
    → validate_listener_object s [] m ≡ none
    → contains reserved k ≡ true
    → get k m ≡ none
unfolding validate_listener_object get
validate-reserved s end k h g = refl
validate-reserved s (field key v m) k h g =
    let a = and_then-none (check_key s [] key) _ h in
    let b = and_then-none (validate_value s key (is_parent (lookup key s.nested_fields)) v) _ a.1 in
    absent_field k key v m g (check_key_sound s [] key a.0).0 (validate-reserved s m k b.1 g)
