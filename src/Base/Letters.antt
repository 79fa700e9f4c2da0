-- ===== src/Base/Letters.antt =====
-- `strings.ToLower` on ASCII letters, and prefixes.
use Prim.Native.Nat.{ℕ, ◌+◌}
use mathlib.Core.Bool.{Bool, true, false, ◌&&◌}
use Prim.Native.String.{String}
use mathlib.Core.List.{List, [], ◌∷◌, ◌++◌, map}
use m_ui.Base.Tests.{leb, nat_beq, if◌then◌else◌}
use m_ui.Base.Equality.{Text, codes}

abbrev pub lower : ℕ → ℕ
lower c = if leb b'A' c && leb c b'Z' then c + 32 else c

abbrev pub to_lower : Text → Text
to_lower s = map lower s

-- `strings.HasPrefix`, the prefix first.
abbrev pub has_prefix : Text → Text → Bool
has_prefix [] s = true
has_prefix (c ∷ p) [] = false
has_prefix (c ∷ p) (d ∷ s) = nat_beq c d && has_prefix p s

-- The words of a text, between single spaces.
abbrev split_words : Text → Text → List Text
split_words word [] = word ∷ []
split_words word (c ∷ s) =
    if nat_beq c b' ' then word ∷ split_words [] s else split_words (word ++ c ∷ []) s

abbrev pub words : String → List Text
words s = split_words [] (codes s)
