-- ===== src/Auth/Totp.antt =====
-- One-time passwords (backend/internal/totp/totp.go). HMAC-SHA1, base 32, upper case and `%06d` are
-- parameters; a text is the list of its bytes, and `skew` is not negative, as in every call.
pub mod Bytes
pub mod Steps
use m_ui.Base.{
  ℕ, zero, suc, ◌+◌, ◌*◌, ◌-◌, ◌/◌, ◌%◌, ◌^◌, ◌<◌, Bool, true, false, not, ◌||◌, List, [], ◌∷◌,
  ◌++◌, Option, none, some, Text, ◌==◌, nat_eq, text_eq, if◌then◌else◌, length, drop, ltb, All,
  trim_space, to_word, arith, ◌≡◌, ◌≢◌, ◌↔◌, ◌⊎◌, ◌≤◌, ◌∙◌, sym, refl, ap, Bool-cases, inl, inr,
  nat_beq_iff, text_beq_iff, subst,
}
use m_ui.Base.Int.{ℤ, pos, negsuc, ◌+ℤ◌, ◌-ℤ◌, int_laws}

-- Go's division rounds towards zero.
abbrev pub div_30 : ℤ → ℤ
div_30 (pos n) = pos (n / 30)
div_30 (negsuc n) = pos 0 -ℤ pos (suc n / 30)

-- `a ^ b` and `a | b` on words of that many bits.
unfoldable pub xor : ℕ → ℕ → ℕ → ℕ
xor zero a b = 0
xor (suc n) a b = let rest = xor n (a / 2) (b / 2) in (a % 2 + b % 2) % 2 + 2 * rest

unfoldable pub or : ℕ → ℕ → ℕ → ℕ
or zero a b = 0
or (suc n) a b = let rest = or n (a / 2) (b / 2) in (if a % 2 == 0 then b % 2 else 1) + 2 * rest

-- The loop over the bytes of two texts of one length.
unfoldable pub differences : Text → Text → ℕ → ℕ
unfolding xor or
differences (x ∷ a) (y ∷ b) v = differences a b (or 8 v (xor 8 x y))
differences _ _ v = v

unfoldable pub subtle_constant_time_equal : Text → Text → Bool
unfolding differences
subtle_constant_time_equal a b =
    if not (length a == length b) then false else differences a b 0 == 0

-- `now` is the time in seconds.
pub record Outside : Type 0 where
  pub decode : Text → Option Text
  pub decode_padded : Text → Option Text
  pub to_upper : Text → Text
  pub hmac_sha1 : Text → Text → Text
  pub print_6 : ℕ → Text
  pub now : ℤ

-- `binary.BigEndian.PutUint64` and `Uint32`.
abbrev big_endian : ℕ → ℕ → Text
big_endian zero w = []
big_endian (suc n) w = big_endian n (w / 256) ++ (w % 256 ∷ [])

abbrev from_big_endian : ℕ → ℕ → Text → ℕ
from_big_endian zero v s = v
from_big_endian (suc n) v [] = v
from_big_endian (suc n) v (x ∷ s) = from_big_endian n (256 * v + x) s

abbrev last : Text → ℕ
last [] = 0
last (x ∷ []) = x
last (x ∷ y ∷ s) = last (y ∷ s)

unfoldable pub hotp : Outside → Text → ℤ → ℕ
hotp o key counter =
    let sum = o.hmac_sha1 key (big_endian 8 (to_word counter)) in
    from_big_endian 4 0 (drop (last sum % 16) sum) % 2 ^ 31 % 1000000

-- The loop over the steps from `d` on, that many of them.
unfoldable pub try_steps : (ℤ → Bool) → ℕ → ℤ → Bool
try_steps test zero d = false
try_steps test (suc n) d = let rest = try_steps test n (d +ℤ pos 1) in if test d then true else rest

unfoldable pub matches : Outside → Text → Text → ℤ → Bool
unfolding hotp subtle_constant_time_equal
matches o key code counter = subtle_constant_time_equal (o.print_6 (hotp o key counter)) code

-- Without padding, and else with it.
unfoldable pub decode_key : Outside → Text → Option Text
decode_key o secret = elim (o.decode (o.to_upper secret)) [
  | none ↦ o.decode_padded (o.to_upper secret)
  | some key ↦ some key
]

-- The step of that number, counted from the earliest.
abbrev pub step : Outside → ℕ → ℕ → ℤ
step o skew i = div_30 o.now +ℤ ((pos 0 -ℤ pos skew) +ℤ pos i)

abbrev pub verify_with : Outside → Text → ℕ → Option Text → Bool
verify_with o code skew none = false
verify_with o code skew (some key) =
    try_steps (λ d. matches o key code (div_30 o.now +ℤ d)) (1 + 2 * skew) (pos 0 -ℤ pos skew)

unfoldable pub verify : Outside → Text → Text → ℕ → Bool
unfolding try_steps matches decode_key
verify o secret code skew =
    if trim_space secret == [] || ltb (length (trim_space code)) 6
    then false
    else verify_with o (trim_space code) skew (decode_key o (trim_space secret))
