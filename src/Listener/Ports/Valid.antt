-- ===== src/Listener/Ports/Valid.antt =====
-- What the validator guarantees to the parser.
use m_ui.Base.{
  ℕ, suc, true, false, List, [], ◌∷◌, ◌++◌, Option, none, some, ◌≡◌, refl, ◌==◌, text_eq, Text,
  trim_space, length, All, arith, Bool-cases, inl, inr,
}
use m_ui.Base.Int.{ℤ, pos, ◌≤ℤ◌}
use m_ui.Listener.Ports.{
  Range, split, cut, atoi, top_port, both_valid, valid_sole, valid_cut, valid_part, valid_parts,
  valid_port, both_bounds, sole_port, cut_ranges, part_ranges, parts_ranges, parse_port_ranges,
}

-- The range has ports, and no other numbers.
abbrev pub IsPorts : Range → Type 0
IsPorts r = (pos 1 ≤ℤ r.first) × (r.first ≤ℤ r.last) × (r.last ≤ℤ top_port)

abbrev OneRange : List Range → Type 0
OneRange (r ∷ []) = IsPorts r
OneRange _ = true ≡ false

both_OneRange : (a b : Option ℤ) → both_valid a b ≡ true → OneRange (both_bounds a b)
both_OneRange none b h = cc
both_OneRange (some a) none h = cc
both_OneRange (some a) (some b) h = ground arith

sole_OneRange : (a : Option ℤ) → valid_sole a ≡ true → OneRange (sole_port a)
sole_OneRange none h = cc
sole_OneRange (some p) h = ground arith

cut_OneRange :
    (part : Text) (o : Option (Text × Text))
    → valid_cut part o ≡ true
    → OneRange (cut_ranges part o)
cut_OneRange part none h = sole_OneRange (atoi part) h
cut_OneRange part (some (a, b)) h = both_OneRange (atoi (trim_space a)) (atoi (trim_space b)) h

part_OneRange : (part : Text) → valid_part part ≡ true → OneRange (part_ranges part)
part_OneRange part h = elim (Bool-cases (part == [])) [
  | inl e ↦ absurd (clash (rw e at h))
  | inr e ↦ rw e (cut_OneRange part (cut b'-' part) (rw e at h))
]
  where
    clash : false ≡ true → ⊥
    clash h = cc

add_range :
    (rs : List Range) (ps : List Range) (n : ℕ)
    → OneRange rs
    → All IsPorts ps × (length ps ≡ n)
    → All IsPorts (rs ++ ps) × (length (rs ++ ps) ≡ suc n)
add_range [] ps n h k = cc
add_range (r ∷ []) ps n h (a, e) = ((h, a), omega (arith, e))
add_range (r ∷ s ∷ rs) ps n h k = cc

parts_ranges-IsPorts :
    (parts : List Text)
    → valid_parts parts ≡ true
    → All IsPorts (parts_ranges parts) × (length (parts_ranges parts) ≡ length parts)
parts_ranges-IsPorts [] h = (tt, refl)
parts_ranges-IsPorts (raw ∷ parts) h = elim (Bool-cases (valid_part (trim_space raw))) [
  | inl e ↦
      add_range (part_ranges (trim_space raw)) (parts_ranges parts) (length parts)
        (part_OneRange (trim_space raw) e) (parts_ranges-IsPorts parts (rw e at h))
  | inr e ↦ absurd (clash (rw e at h))
]
  where
    clash : false ≡ true → ⊥
    clash h = cc

-- In a specification that is valid the parser passes over no part, and every range that it yields
-- runs upwards within the ports 1 to 65535.
pub parse_port_ranges-valid :
    (raw : Text)
    → valid_port raw ≡ true
    → All IsPorts (parse_port_ranges raw)
      × (length (parse_port_ranges raw) ≡ length (split b',' (trim_space raw)))
unfolding valid_port parse_port_ranges
parse_port_ranges-valid raw h = elim (Bool-cases (trim_space raw == [])) [
  | inl e ↦ absurd (clash (rw e at h))
  | inr e ↦ parts_ranges-IsPorts (split b',' (trim_space raw)) (rw e at h)
]
  where
    clash : false ≡ true → ⊥
    clash h = cc
