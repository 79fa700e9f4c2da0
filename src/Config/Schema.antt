-- ===== src/Config/Schema.antt =====
-- Schemas of listeners: the fields at the top and, by the dotted path of a parent, those below it
-- (mihomo/config/listener_schema_registry.go).
use m_ui.Base.{
  nat_beq, List, [], ◌∷◌, ◌++◌, Option, none, some, Text, codes, text_eq, contains, if◌then◌else◌,
}
use m_ui.Base.Dict.{lookup, insert}

pub record ListenerSchema : Type 0 where
  pub protocol : Text
  pub fields : List Text
  pub nested_fields : List (Text × List Text)

-- A set of texts, each of them once.
abbrev pub add_name : Text → List Text → List Text
add_name v m = if contains m v then m else m ++ v ∷ []

unfoldable pub listener_fields : List Text → List Text
listener_fields vs = vs

-- The parts between the dots; an empty part is dropped. `part` is the part read so far.
abbrev pub keep_part : Text → List Text → List Text
keep_part [] out = out
keep_part (c ∷ part) out = (c ∷ part) ∷ out

abbrev pub split_from : Text → Text → List Text
split_from part [] = keep_part part []
split_from part (c ∷ v) =
    if nat_beq c b'.' then keep_part part (split_from [] v) else split_from (part ++ c ∷ []) v

unfoldable pub split_path : Text → List Text
split_path v = split_from [] v

unfoldable pub join_path : List Text → Text
join_path [] = []
join_path (v ∷ []) = v
join_path (v ∷ w ∷ p) = v ++ (codes "." ++ join_path (w ∷ p))

abbrev names_of : Option (List Text) → List Text
names_of none = []
names_of (some ns) = ns

-- `before` holds the parts that the loop has passed: each part is put below the path of these.
abbrev pub nest : List Text → List Text → List (Text × List Text) → List (Text × List Text)
nest before [] m = m
nest [] (v ∷ p) m = nest (v ∷ []) p m
nest (u ∷ before) (v ∷ p) m =
    let parent = join_path (u ∷ before) in
    nest (u ∷ (before ++ v ∷ [])) p (insert parent (add_name v (names_of (lookup parent m))) m)

abbrev pub nest_all : List Text → List (Text × List Text) → List (Text × List Text)
nest_all [] m = m
nest_all (v ∷ vs) m = nest_all vs (nest [] (split_path v) m)

unfoldable pub listener_nested : List Text → List (Text × List Text)
unfolding split_path join_path
listener_nested vs = nest_all vs []
