-- ===== src/Json/Laws.antt =====
-- Lookups after the changes of a map.
use m_ui.Base.{
  Bool, true, false, none, some, Text, ◌==◌, if◌then◌else◌, ◌≡◌, refl, arith, text_beq_iff, text_eq,
  beq-eq, Bool-cases, inl, inr, ap,
}
use m_ui.Json.Values.{Value, Fields, end, field, get, put, remove}

pub get-put :
    (k j : Text) (v : Value) (m : Fields) → get j (put k v m) ≡ (if k == j then some v else get j m)
unfolding get put
get-put k j v end = refl
get-put k j v (field i w m) =
    ground (arith, text_beq_iff k j, text_beq_iff i k, text_beq_iff i j, get-put k j v m)

pub get-remove : (k j : Text) (m : Fields) → get j (remove k m) ≡ (if k == j then none else get j m)
unfolding get remove
get-remove k j end = ground arith
get-remove k j (field i w m) =
    ground (arith, text_beq_iff k j, text_beq_iff i k, text_beq_iff i j, get-remove k j m)

-- A key that passes a test is not one that fails it.
pub beq_apart : (p : Text → Bool) (k j : Text) → p k ≡ true → p j ≡ false → (j == k) ≡ false
beq_apart p k j h g = elim (Bool-cases (j == k)) [
  | inl same ↦ ground (arith, ap p (beq-eq j k same))
  | inr other ↦ other
]

pub get-put_other :
    (p : Text → Bool) (k j : Text) (v : Value) (m : Fields)
    → p k ≡ true
    → p j ≡ false
    → get k (put j v m) ≡ get k m
get-put_other p k j v m h g = rw (get-put j k v m, beq_apart p k j h g)

pub get-remove_other :
    (p : Text → Bool) (k j : Text) (m : Fields)
    → p k ≡ true
    → p j ≡ false
    → get k (remove j m) ≡ get k m
get-remove_other p k j m h g = rw (get-remove j k m, beq_apart p k j h g)
