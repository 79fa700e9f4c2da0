-- ===== src/Listener/Ports.antt =====
-- Port specifications of listeners: the validator and the parser of backend/internal/listener/
-- validation.go, and the stricter parser of endpoints.go that the endpoint check uses.
pub mod Overlap
pub mod Valid
use m_ui.Base.{
  ℕ, ◌+◌, ◌-◌, ◌*◌, ◌^◌, Bool, true, false, not, ◌&&◌, ◌||◌, List, [], ◌∷◌, ◌++◌, Option, none,
  some, if◌then◌else◌, ◌==◌, nat_eq, text_eq, ltb, leb, Text, trim_space, any?,
}
use m_ui.Base.Int.{ℤ, pos, ◌-ℤ◌, leb_ℤ, ltb_ℤ}

abbrev push : ℕ → List Text → List Text
push c [] = (c ∷ []) ∷ []
push c (s ∷ rest) = (c ∷ s) ∷ rest

-- `strings.Split` at a one-byte separator.
unfoldable pub split : ℕ → Text → List Text
split sep [] = [] ∷ []
split sep (c ∷ s) = let rest = split sep s in if c == sep then [] ∷ rest else push c rest

-- `strings.SplitN(s, "-", 2)`, where the text has the separator.
unfoldable pub cut : ℕ → Text → Option (Text × Text)
cut sep [] = none
cut sep (c ∷ s) = if c == sep then some ([], s) else cut_rest c (cut sep s)
  where
    cut_rest : ℕ → Option (Text × Text) → Option (Text × Text)
    cut_rest c none = none
    cut_rest c (some (a, b)) = some (c ∷ a, b)

unfoldable pub digits : Text → ℕ → Option ℕ
digits [] n = some n
digits (c ∷ s) n =
    let rest = digits s (n * 10 + (c - b'0')) in if leb b'0' c && leb c b'9' then rest else none

abbrev bounded : (ℕ → ℤ) → ℕ → Option ℕ → Option ℤ
bounded f bound none = none
bounded f bound (some n) = if leb n bound then some (f n) else none

abbrev unsigned : Text → Option ℕ
unsigned [] = none
unsigned (c ∷ s) = digits (c ∷ s) 0

-- `strconv.Atoi`: an optional sign, digits, and the range of `int64`.
unfoldable pub atoi : Text → Option ℤ
unfolding digits
atoi [] = none
atoi (c ∷ s) =
    if c == b'-'
    then bounded (λ n. pos 0 -ℤ pos n) (2 ^ 63) (unsigned s)
    else if c == b'+'
    then bounded pos (2 ^ 63 - 1) (unsigned s)
    else bounded pos (2 ^ 63 - 1) (unsigned (c ∷ s))

pub record Range : Type 0 where
  pub first : ℤ
  pub last : ℤ

abbrev pub top_port : ℤ
top_port = pos 65535

-- Ports from `a` on, up to `b` and to the largest port.
abbrev is_range : ℤ → ℤ → Bool
is_range a b = not (ltb_ℤ a (pos 1)) && (not (ltb_ℤ top_port b) && not (ltb_ℤ b a))

abbrev both_valid : Option ℤ → Option ℤ → Bool
both_valid (some a) (some b) = is_range a b
both_valid _ _ = false

abbrev valid_sole : Option ℤ → Bool
valid_sole none = false
valid_sole (some p) = not (ltb_ℤ p (pos 1)) && not (ltb_ℤ top_port p)

abbrev valid_cut : Text → Option (Text × Text) → Bool
valid_cut part none = valid_sole (atoi part)
valid_cut part (some (a, b)) = both_valid (atoi (trim_space a)) (atoi (trim_space b))

abbrev valid_part : Text → Bool
valid_part part = if part == [] then false else valid_cut part (cut b'-' part)

abbrev valid_parts : List Text → Bool
valid_parts [] = true
valid_parts (raw ∷ parts) = if valid_part (trim_space raw) then valid_parts parts else false

unfoldable pub valid_port : Text → Bool
valid_port raw = if trim_space raw == [] then false else valid_parts (split b',' (trim_space raw))

abbrev both_bounds : Option ℤ → Option ℤ → List Range
both_bounds (some a) (some b) = record { first = a; last = b } ∷ []
both_bounds _ _ = []

abbrev sole_port : Option ℤ → List Range
sole_port none = []
sole_port (some p) = record { first = p; last = p } ∷ []

abbrev cut_ranges : Text → Option (Text × Text) → List Range
cut_ranges part none = sole_port (atoi part)
cut_ranges part (some (a, b)) = both_bounds (atoi (trim_space a)) (atoi (trim_space b))

abbrev part_ranges : Text → List Range
part_ranges part = if part == [] then [] else cut_ranges part (cut b'-' part)

abbrev parts_ranges : List Text → List Range
parts_ranges [] = []
parts_ranges (raw ∷ parts) = part_ranges (trim_space raw) ++ parts_ranges parts

-- What does not parse is passed over.
unfoldable pub parse_port_ranges : Text → List Range
parse_port_ranges raw = parts_ranges (split b',' (trim_space raw))

abbrev pub is_meeting : Range → Range → Bool
is_meeting x y = leb_ℤ x.first y.last && leb_ℤ y.first x.last

abbrev pub meets_any : List Range → List Range → Bool
meets_any xs ys = any? (λ x. any? (is_meeting x) ys) xs

unfoldable pub port_ranges_overlap : Text → Text → Bool
port_ranges_overlap a b = meets_any (parse_port_ranges a) (parse_port_ranges b)

-- One part of a specification in the endpoint check; `none` refuses the specification.
abbrev in_ports : Option ℤ → Option ℤ
in_ports none = none
in_ports (some p) = if ltb_ℤ p (pos 1) || ltb_ℤ top_port p then none else some p

abbrev up_to : Option ℤ → ℤ → Option Range
up_to none start = none
up_to (some end) start =
    if ltb_ℤ end start || ltb_ℤ top_port end
    then none
    else some (record { first = start; last = end })

abbrev from_port : Option ℤ → List Text → Option Range
from_port none rest = none
from_port (some start) [] = some (record { first = start; last = start })
from_port (some start) (e ∷ []) = up_to (atoi (trim_space e)) start
from_port (some start) (e ∷ f ∷ rest) = none

abbrev range_of : List Text → Option Range
range_of [] = none
range_of (s ∷ rest) = from_port (in_ports (atoi (trim_space s))) rest

abbrev cons_range : Option Range → Option (List Range) → Option (List Range)
cons_range (some r) (some rs) = some (r ∷ rs)
cons_range _ _ = none

unfoldable pub ranges_of_parts : List Text → Option (List Range)
ranges_of_parts [] = some []
ranges_of_parts (raw ∷ parts) =
    let rest = ranges_of_parts parts in
    if trim_space raw == [] then none else cons_range (range_of (split b'-' (trim_space raw))) rest

unfoldable pub port_ranges : Text → Option (List Range)
port_ranges value = ranges_of_parts (split b',' value)

abbrev overlap : Option (List Range) → Option (List Range) → Bool
overlap (some xs) (some ys) = meets_any xs ys
overlap _ _ = false

unfoldable pub ports_overlap : Text → Text → Bool
ports_overlap a b = overlap (port_ranges a) (port_ranges b)
