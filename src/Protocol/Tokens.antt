-- ===== src/Protocol/Tokens.antt =====
-- The tokens of TUIC v4 (protocol/compile_modules.go).
use m_ui.Base.{List, [], ◌∷◌, Option, some, Text, if◌then◌else◌, trim_space}
use m_ui.Json.{Value, str, strs, arr, Items, nil, cons}
use m_ui.Protocol.Input.{is_blank}

unfoldable pub trimmed : List Text → List Text
trimmed [] = []
trimmed (s ∷ ss) =
    let rest = trimmed ss in if is_blank (trim_space s) then rest else trim_space s ∷ rest

unfoldable pub trimmed_items : Items → List Text
trimmed_items nil = []
trimmed_items (cons (str s) items) =
    let rest = trimmed_items items in if is_blank (trim_space s) then rest else trim_space s ∷ rest
trimmed_items (cons _ items) = trimmed_items items

unfoldable pub all_string_tokens : Option Value → List Text
unfolding trimmed trimmed_items
all_string_tokens (some (str s)) = if is_blank (trim_space s) then [] else trim_space s ∷ []
all_string_tokens (some (strs ss)) = trimmed ss
all_string_tokens (some (arr items)) = trimmed_items items
all_string_tokens _ = []

unfoldable pub first_token : List Text → Text
first_token [] = []
first_token (s ∷ ss) =
    let rest = first_token ss in if is_blank (trim_space s) then rest else trim_space s

unfoldable pub first_token_item : Items → Text
first_token_item nil = []
first_token_item (cons (str s) items) =
    let rest = first_token_item items in if is_blank (trim_space s) then rest else trim_space s
first_token_item (cons _ items) = first_token_item items

unfoldable pub first_string_token : Option Value → Text
unfolding first_token first_token_item
first_string_token (some (str s)) = trim_space s
first_string_token (some (strs ss)) = first_token ss
first_string_token (some (arr items)) = first_token_item items
first_string_token _ = []
