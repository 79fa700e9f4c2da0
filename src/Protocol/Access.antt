-- ===== src/Protocol/Access.antt =====
-- Reading texts, lists and sub-objects from a listener's `Config` (protocol/decode.go).
use m_ui.Base.{
  ℕ, suc, leb, nat_beq, Bool, true, false, not, ◌&&◌, ◌||◌, List, [], ◌∷◌, Option, none, some, Text,
  codes, nat_eq, text_eq, if◌then◌else◌, contains, length, trim_space,
}
use m_ui.Base.Int.{ℤ, pos}
use m_ui.Json.{
  Value, bool, int, float, str, strs, arr, Items, nil, cons, Fields, get, as_obj, as_str,
}
use m_ui.Protocol.Input.{is_blank}
use m_ui.Protocol.Tokens.{trimmed, trimmed_items}
use m_ui.Listener.Ports.{split}

unfoldable pub first_non_empty : List Text → Text
first_non_empty [] = []
first_non_empty (v ∷ vals) =
    let rest = first_non_empty vals in if is_blank (trim_space v) then rest else trim_space v

-- The trimmed text, blank where there is none.
abbrev pub text_or_blank : Option Text → Text
text_or_blank none = []
text_or_blank (some s) = trim_space s

unfoldable pub str_from : Fields → List Text → Text
str_from cfg [] = []
str_from cfg (k ∷ keys) =
    let v = text_or_blank (as_str (get k cfg)) in
    let rest = str_from cfg keys in if is_blank v then rest else v

unfoldable pub str_default : Fields → Text → Text → Text
unfolding str_from
str_default cfg key default = let v = str_from cfg (key ∷ []) in if is_blank v then default else v

unfoldable pub str_map : Fields → Text → Text
str_map m key = text_or_blank (as_str (get key m))

unfoldable pub bool_from : Fields → Text → Bool
bool_from cfg key = elim (get key cfg) [ some (bool b) ↦ b | _ ↦ false ]

-- `truncate` stands for the conversion of a `float64` to `int`, `scan` for `fmt.Sscanf` with `%d`.
abbrev int_of : (Text → ℤ) → (Text → ℤ) → Option Value → ℤ
int_of truncate scan (some (float v)) = truncate v
int_of truncate scan (some (int v)) = v
int_of truncate scan (some (str v)) = scan v
int_of truncate scan _ = pos 0

unfoldable pub int_from : (Text → ℤ) → (Text → ℤ) → Fields → Text → ℤ
int_from truncate scan cfg key = int_of truncate scan (get key cfg)

-- The text, and whether it is not blank.
abbrev told : Text → Text × Bool
told s = (s, not (is_blank s))

abbrev first_item : Items → Text × Bool
first_item nil = ([], false)
first_item (cons (str s) items) = told s
first_item (cons _ items) = ([], false)

unfoldable pub first_string : Option Value → Text × Bool
first_string (some (str s)) = told s
first_string (some (arr items)) = first_item items
first_string (some (strs (s ∷ ss))) = told s
first_string _ = ([], false)

unfoldable pub split_csv : Text → List Text
unfolding trimmed
split_csv value = trimmed (split b',' value)

abbrev string_list : Option Value → List Text
string_list (some (arr items)) = trimmed_items items
string_list (some (strs ss)) = trimmed ss
string_list (some (str s)) = split_csv s
string_list _ = []

unfoldable pub string_list_from : Fields → Text → List Text
unfolding split_csv trimmed trimmed_items
string_list_from cfg key = string_list (get key cfg)

abbrev is_hex_char : ℕ → Bool
is_hex_char c = leb b'0' c && leb c b'9' || leb b'a' c && leb c b'f' || leb b'A' c && leb c b'F'

-- The loop, from the place `i` on.
abbrev is_uuid_from : ℕ → Text → Bool
is_uuid_from i [] = true
is_uuid_from i (c ∷ s) =
    (if contains (8 ∷ 13 ∷ 18 ∷ 23 ∷ []) i then nat_beq c b'-' else is_hex_char c)
    && is_uuid_from (suc i) s

unfoldable pub looks_like_uuid : Text → Bool
looks_like_uuid raw =
    let s = trim_space raw in if nat_beq (length s) 36 then is_uuid_from 0 s else false

pub record TransportSpec : Type 0 where
  pub network : Text
  pub ws_path : Text
  pub ws_host : Text
  pub grpc_service : Text
  pub xhttp_path : Text

pub record RealitySpec : Type 0 where
  pub public_key : Text
  pub private_key : Text
  pub short_id : Text
  pub server_name : Text

abbrev host_header : Option Fields → Text
host_header none = []
host_header (some headers) = str_map headers (codes "Host")

abbrev with_ws : Fields → TransportSpec → TransportSpec
with_ws cfg t =
    let v = str_from cfg (codes "ws-path" ∷ []) in
    if is_blank v then t else record t {
      network = codes "ws";
      ws_path = v;
      ws_host = host_header (as_obj (get (codes "ws-headers") cfg));
    }

abbrev with_grpc : Fields → TransportSpec → TransportSpec
with_grpc cfg t =
    let v = str_from cfg (codes "grpc-service-name" ∷ []) in
    if is_blank v then t else record t { network = codes "grpc"; grpc_service = v }

abbrev with_xhttp : Option Fields → TransportSpec → TransportSpec
with_xhttp none t = t
with_xhttp (some xhttp) t = record t {
  network = codes "xhttp";
  xhttp_path = str_map xhttp (codes "path");
}

unfoldable pub decode_transport : Fields → TransportSpec
unfolding str_from str_map
decode_transport cfg = with_xhttp (as_obj (get (codes "xhttp-config") cfg)) (
    with_grpc cfg (
      with_ws cfg (record {
        network = codes "tcp";
        ws_path = [];
        ws_host = [];
        grpc_service = [];
        xhttp_path = [];
      })))

abbrev reality_of : Option Fields → Option RealitySpec
reality_of none = none
reality_of (some raw) = some (record {
  public_key = str_map raw (codes "public-key");
  private_key = str_map raw (codes "private-key");
  short_id = (first_string (get (codes "short-id") raw)).0;
  server_name = (first_string (get (codes "server-names") raw)).0;
})

unfoldable pub decode_reality : Fields → Option RealitySpec
unfolding str_map first_string
decode_reality cfg = reality_of (as_obj (get (codes "reality-config") cfg))
