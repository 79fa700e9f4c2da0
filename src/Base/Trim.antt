-- ===== src/Base/Trim.antt =====
-- `strings.TrimSpace` on ASCII white space.
use Prim.Native.Nat.{ℕ}
use mathlib.Core.Bool.{Bool, ◌||◌, ◌&&◌}
use mathlib.Core.List.{[], ◌∷◌, reverse}
use m_ui.Base.Tests.{leb, nat_beq, if◌then◌else◌}
use m_ui.Base.Equality.{Text}

abbrev pub is_space : ℕ → Bool
is_space c = nat_beq c b' ' || (leb 9 c && leb c 13)

unfoldable pub trim_left : Text → Text
trim_left [] = []
trim_left (c ∷ s) = if is_space c then trim_left s else c ∷ s

unfoldable pub trim_space : Text → Text
unfolding trim_left
trim_space s = reverse (trim_left (reverse (trim_left s)))
