-- ===== src/Tests/Schemas.antt =====
-- The check of a `Config`.
use m_ui.Base.{[], ◌∷◌, none, codes, ◌≡◌, ◌↔◌, refl}
use m_ui.Base.Int.{pos}
use m_ui.Json.{int, str, obj, Fields, end, field}
use m_ui.Config.Schema.{split_path, join_path}
use m_ui.Config.Registry.{shadowsocks_schema}
use m_ui.Config.Validate.{validate_listener_object}
use m_ui.Config.Conforms.{FieldsConform, validate_listener_object_iff}
use m_ui.Config.Paths.{split_path-join_path}

abbrev config : Fields
config = field (codes "cipher") (str (codes "aes-128-gcm")) (
    field (codes "shadow-tls")
      (obj (
        field (codes "enable") (int (pos 1))
          (field (codes "handshake") (obj (field (codes "dest") (str (codes "a:443")) end)) end)))
      end)

validate_listener_object_iff_example :
    (validate_listener_object shadowsocks_schema [] config ≡ none)
    ↔ FieldsConform shadowsocks_schema [] config
validate_listener_object_iff_example = validate_listener_object_iff shadowsocks_schema config

split_path-join_path_example :
    split_path (join_path (codes "mux-option" ∷ codes "brutal" ∷ codes "up" ∷ []))
    ≡ (codes "mux-option" ∷ codes "brutal" ∷ codes "up" ∷ [])
split_path-join_path_example =
    split_path-join_path (codes "mux-option" ∷ codes "brutal" ∷ codes "up" ∷ [])
      ((refl, (λ e. cc)), ((refl, (λ e. cc)), ((refl, (λ e. cc)), tt)))
