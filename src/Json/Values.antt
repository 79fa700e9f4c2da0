-- ===== src/Json/Values.antt =====
-- Dynamic values and the operations on Go's maps of them.
use m_ui.Base.{
  Bool, true, false, List, [], ◌∷◌, Option, none, some, Text, ◌==◌, text_eq, if◌then◌else◌,
}
use m_ui.Base.Int.{ℤ}

-- `float` holds the text of a number as JSON writes it; `strs` is a Go `[]string`, `arr` a
-- `[]interface{}`, `objs` a `[]map[string]interface{}`, `obj` a `map[string]interface{}` and `dict` a
-- `map[interface{}]interface{}`.
mutual
  pub data Value : Type 0 where
    null : Value
    bool : Bool → Value
    int : ℤ → Value
    float : Text → Value
    str : Text → Value
    strs : List Text → Value
    arr : Items → Value
    objs : Maps → Value
    obj : Fields → Value
    dict : Pairs → Value

  pub data Items : Type 0 where
    nil : Items
    cons : Value → Items → Items

  pub data Maps : Type 0 where
    empty : Maps
    entry : Fields → Maps → Maps

  pub data Fields : Type 0 where
    end : Fields
    field : Text → Value → Fields → Fields

  pub data Pairs : Type 0 where
    stop : Pairs
    pair : Value → Value → Pairs → Pairs

-- `v, ok := m[k]`.
unfoldable pub get : Text → Fields → Option Value
get k end = none
get k (field j v m) = if j == k then some v else get k m

-- `m[k] = v`.
unfoldable pub put : Text → Value → Fields → Fields
put k v end = field k v end
put k v (field j w m) = if j == k then field j v m else field j w (put k v m)

-- `delete(m, k)`.
unfoldable pub remove : Text → Fields → Fields
remove k end = end
remove k (field j w m) = if j == k then remove k m else field j w (remove k m)

abbrev pub has : Text → Fields → Bool
has k m = elim (get k m) [ none ↦ false | some v ↦ true ]

-- `len(m) == 0`.
abbrev pub is_empty : Fields → Bool
is_empty end = true
is_empty (field k v m) = false

-- A list of maps as a value.
abbrev pub to_maps : List Fields → Maps
to_maps [] = empty
to_maps (m ∷ ms) = entry m (to_maps ms)

abbrev pub of_maps : Maps → List Fields
of_maps empty = []
of_maps (entry m ms) = m ∷ of_maps ms

-- `v, ok := x.(map[string]interface{})`.
abbrev pub as_obj : Option Value → Option Fields
as_obj (some (obj m)) = some m
as_obj _ = none

-- `s, ok := x.(string)`.
abbrev pub as_str : Option Value → Option Text
as_str (some (str s)) = some s
as_str _ = none
