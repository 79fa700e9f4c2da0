-- ===== src/Listener/Ports/Overlap.antt =====
-- What the endpoint check finds out about two port specifications.
use m_ui.Base.{
  Bool, true, false, ◌&&◌, List, [], ◌∷◌, Option, none, some, ◌≡◌, ◌↔◌, refl, if◌then◌else◌, ◌==◌,
  text_eq, Text, trim_space, any?, All, arith, Bool-cases, inl, inr,
}
use m_ui.Base.Int.{ℤ, leb_ℤ, ◌≤ℤ◌}
use m_ui.Listener.Ports.{
  Range, split, atoi, is_meeting, meets_any, in_ports, up_to, from_port, range_of, cons_range,
  ranges_of_parts, port_ranges, overlap, ports_overlap,
}

-- A range of the specification holds the port.
abbrev is_within : ℤ → Range → Bool
is_within p r = leb_ℤ r.first p && leb_ℤ p r.last

abbrev pub has_port : ℤ → Option (List Range) → Bool
has_port p none = false
has_port p (some rs) = any? (is_within p) rs

-- A range is not empty.
abbrev Proper : Range → Type 0
Proper r = r.first ≤ℤ r.last

abbrev AllProper : Option (List Range) → Type 0
AllProper none = Unit {0}
AllProper (some rs) = All Proper rs

abbrev IsProper : Option Range → Type 0
IsProper none = Unit {0}
IsProper (some r) = Proper r

up_to-IsProper : (o : Option ℤ) (start : ℤ) → IsProper (up_to o start)
up_to-IsProper none start = tt
up_to-IsProper (some end) start = ground arith

from_port-IsProper : (o : Option ℤ) (rest : List Text) → IsProper (from_port o rest)
from_port-IsProper none rest = tt
from_port-IsProper (some start) [] = omega arith
from_port-IsProper (some start) (e ∷ []) = up_to-IsProper (atoi (trim_space e)) start
from_port-IsProper (some start) (e ∷ f ∷ rest) = tt

range_of-IsProper : (ts : List Text) → IsProper (range_of ts)
range_of-IsProper [] = tt
range_of-IsProper (s ∷ rest) = from_port-IsProper (in_ports (atoi (trim_space s))) rest

cons_range-AllProper :
    (r : Option Range) (rs : Option (List Range))
    → IsProper r
    → AllProper rs
    → AllProper (cons_range r rs)
cons_range-AllProper none rs h k = tt
cons_range-AllProper (some r) none h k = tt
cons_range-AllProper (some r) (some rs) h k = (h, k)

ranges_of_parts-AllProper : (parts : List Text) → AllProper (ranges_of_parts parts)
unfolding ranges_of_parts
ranges_of_parts-AllProper [] = tt
ranges_of_parts-AllProper (raw ∷ parts) = elim (Bool-cases (trim_space raw == [])) [
  | inl e ↦ rw e tt
  | inr e ↦ rw e (
      cons_range-AllProper (range_of (split b'-' (trim_space raw))) (ranges_of_parts parts)
        (range_of-IsProper (split b'-' (trim_space raw))) (ranges_of_parts-AllProper parts))
]

-- Two ranges that meet have a port in common: the later of their beginnings.
abbrev later : ℤ → ℤ → ℤ
later a b = if leb_ℤ a b then b else a

meet_port :
    (x y : Range)
    → Proper x
    → Proper y
    → is_meeting x y ≡ true
    → (is_within (later x.first y.first) x ≡ true) × (is_within (later x.first y.first) y ≡ true)
meet_port x y px py h = (ground arith, ground arith)

port_meets :
    (p : ℤ) (x y : Range) → is_within p x ≡ true → is_within p y ≡ true → is_meeting x y ≡ true
port_meets p x y h k = ground arith

one_found :
    (x : Range) (ys : List Range)
    → Proper x
    → All Proper ys
    → any? (is_meeting x) ys ≡ true
    → (p : ℤ) × (is_within p x ≡ true) × (any? (is_within p) ys ≡ true)
one_found x [] px pys h = cc
one_found x (y ∷ ys) px pys h = elim (Bool-cases (is_meeting x y)) [
  | inl e ↦
      let (inside, also) = meet_port x y px pys.0 e in (later x.first y.first, inside, rw also refl)
  | inr e ↦ let (p, inside, rest) = one_found x ys px pys.1 (rw e at h) in (p, inside, ground arith)
]

found :
    (xs ys : List Range)
    → All Proper xs
    → All Proper ys
    → meets_any xs ys ≡ true
    → (p : ℤ) × (any? (is_within p) xs ≡ true) × (any? (is_within p) ys ≡ true)
found [] ys pxs pys h = cc
found (x ∷ xs) ys pxs pys h = elim (Bool-cases (any? (is_meeting x) ys)) [
  | inl e ↦ let (p, inside, rest) = one_found x ys pxs.0 pys e in (p, rw inside refl, rest)
  | inr e ↦ let (p, inside, rest) = found xs ys pxs.1 pys (rw e at h) in (p, ground arith, rest)
]

one_meets :
    (p : ℤ) (x : Range) (ys : List Range)
    → is_within p x ≡ true
    → any? (is_within p) ys ≡ true
    → any? (is_meeting x) ys ≡ true
one_meets p x [] h k = k
one_meets p x (y ∷ ys) h k = elim (Bool-cases (is_within p y)) [
  | inl e ↦ rw (port_meets p x y h e) refl
  | inr e ↦ rw (one_meets p x ys h (rw e at k)) (ground arith)
]

all_meet :
    (p : ℤ) (xs ys : List Range)
    → any? (is_within p) xs ≡ true
    → any? (is_within p) ys ≡ true
    → meets_any xs ys ≡ true
all_meet p [] ys h k = h
all_meet p (x ∷ xs) ys h k = elim (Bool-cases (is_within p x)) [
  | inl e ↦ rw (one_meets p x ys e k) refl
  | inr e ↦ rw (all_meet p xs ys (rw e at h) k) (ground arith)
]

overlap_iff :
    (a b : Option (List Range))
    → AllProper a
    → AllProper b
    → (overlap a b ≡ true) ↔ ((p : ℤ) × (has_port p a ≡ true) × (has_port p b ≡ true))
overlap_iff none b pa pb = (λ h. cc, λ h. cc (h.1))
overlap_iff (some xs) none pa pb = (λ h. cc, λ h. cc (h.2))
overlap_iff (some xs) (some ys) pa pb = (found xs ys pa pb, λ h. all_meet h.0 xs ys h.1 h.2)

-- Two specifications overlap exactly when both are accepted and some port is in a range of each.
pub ports_overlap_iff :
    (a b : Text)
    → (ports_overlap a b ≡ true)
      ↔ ((p : ℤ) × (has_port p (port_ranges a) ≡ true) × (has_port p (port_ranges b) ≡ true))
unfolding ports_overlap port_ranges
ports_overlap_iff a b =
    overlap_iff (port_ranges a) (port_ranges b) (ranges_of_parts-AllProper (split b',' a))
      (ranges_of_parts-AllProper (split b',' b))
