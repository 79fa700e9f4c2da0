-- ===== src/Config/Paths.antt =====
-- Dotted paths: joining and splitting are inverse (mihomo/config/listener_schema_registry.go).
use m_ui.Base.{
  nat_beq, Bool, true, false, List, [], ◌∷◌, ◌++◌, Text, ◌≡◌, ◌≢◌, refl, ap, ◌∙◌, arith, All,
  if◌then◌else◌, Bool-cases, inl, inr,
}
use mathlib.Core.List.{append_assoc, append-nil}
use m_ui.Config.Schema.{split_from, keep_part, split_path, join_path}

abbrev pub has_dot : Text → Bool
has_dot [] = false
has_dot (c ∷ s) = if nat_beq c b'.' then true else has_dot s

-- A part of a path.
abbrev pub IsPart : Text → Type 0
IsPart v = (has_dot v ≡ false) × (v ≢ [])

split_from_part :
    (part v rest : Text)
    → has_dot v ≡ false
    → split_from part (v ++ (b'.' ∷ rest)) ≡ keep_part (part ++ v) (split_from [] rest)
split_from_part part [] rest h = rw (append-nil part)
split_from_part part (c ∷ v) rest h = elim (Bool-cases (nat_beq c b'.')) [
  | inl dot ↦ absurd (ground (arith, h, dot))
  | inr plain ↦ rw plain (
      split_from_part (part ++ c ∷ []) v rest (ground (arith, h, plain))
      ∙ rw (append_assoc part (c ∷ []) v))
]

split_from_last : (part v : Text) → has_dot v ≡ false → split_from part v ≡ keep_part (part ++ v) []
split_from_last part [] h = rw (append-nil part)
split_from_last part (c ∷ v) h = elim (Bool-cases (nat_beq c b'.')) [
  | inl dot ↦ absurd (ground (arith, h, dot))
  | inr plain ↦ rw plain (
      split_from_last (part ++ c ∷ []) v (ground (arith, h, plain))
      ∙ rw (append_assoc part (c ∷ []) v))
]

keep_part-ne : (v : Text) (out : List Text) → v ≢ [] → keep_part v out ≡ v ∷ out
keep_part-ne [] out h = absurd (h refl)
keep_part-ne (c ∷ v) out h = refl

-- A path that is joined from parts, none of them empty and none with a dot in it, splits into the
-- same parts.
pub split_path-join_path : (p : List Text) → All IsPart p → split_path (join_path p) ≡ p
unfolding split_path join_path
split_path-join_path [] h = refl
split_path-join_path (v ∷ []) h = split_from_last [] v h.0.0 ∙ keep_part-ne v [] h.0.1
split_path-join_path (v ∷ w ∷ p) h =
    split_from_part [] v (join_path (w ∷ p)) h.0.0
    ∙ keep_part-ne v _ h.0.1
    ∙ ap (λ ps. v ∷ ps) (split_path-join_path (w ∷ p) h.1)
