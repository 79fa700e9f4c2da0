-- ===== src/Base/Words.antt =====
-- Go's `int64`: an integer, with the wrap-around of its operations written out.
use Prim.Native.Nat.{ℕ, ◌-◌, ◌%◌, ◌^◌, ◌≤◌, ◌<◌}
use mathlib.Core.Path.{◌≡◌}
use native.Mathlib.Omega.{arith}
use m_ui.Base.Tests.{ltb, if◌then◌else◌}
use m_ui.Base.Int.{ℤ, pos, negsuc, pos_part, neg_part}

abbrev pub to_word : ℤ → ℕ
to_word (pos n) = n % 2 ^ 64
to_word (negsuc n) = 2 ^ 64 - 1 - n % 2 ^ 64

of_word : ℕ → ℤ
of_word w = if ltb w (2 ^ 63) then pos w else negsuc (2 ^ 64 - 1 - w)

-- The `int64` that an integer is reduced to.
unfoldable pub int64 : ℤ → ℤ
unfolding of_word
int64 z = of_word (to_word z)

-- A number that fits is unchanged.
pub int64_fits : (z : ℤ) → pos_part z < 2 ^ 63 → neg_part z ≤ 2 ^ 63 → int64 z ≡ z
unfolding int64
int64_fits (pos n) h k = ground arith
int64_fits (negsuc n) h k = ground arith
