-- ===== src/Base/Codes.antt =====
-- Text as the list of its code units, compared and searched as the source does.
use Prim.Native.Char.{code}
use Prim.Native.Nat.{ℕ}
use Prim.Native.String.{String}
use personal_knowledge_mcp.Base.Tests.{◌==◌, leb, if◌then◌else◌}
use mathlib.Core.Bool.{Bool, true, false, ◌&&◌, ◌||◌}
use mathlib.Core.List.{List, [], ◌∷◌, reverse}

abbrev pub Text : Type 0
Text = List ℕ

abbrev pub codes : String → Text
codes String.[] = []
codes (String.◌∷◌ c s) = code c ∷ codes s

abbrev pub same_text : Text → Text → Bool
same_text [] [] = true
same_text [] (d ∷ t) = false
same_text (c ∷ s) [] = false
same_text (c ∷ s) (d ∷ t) = c == d && same_text s t

-- `s.startsWith(prefix)`, the prefix first.
abbrev pub starts_with : Text → Text → Bool
starts_with [] s = true
starts_with (c ∷ p) [] = false
starts_with (c ∷ p) (d ∷ s) = c == d && starts_with p s

-- `s.endsWith(suffix)`, the suffix first.
abbrev pub ends_with : Text → Text → Bool
ends_with p s = starts_with (reverse p) (reverse s)

-- `set.has(s)`.
abbrev pub member : Text → List Text → Bool
member s [] = false
member s (t ∷ ts) = same_text t s || member s ts

-- The white space that `trim` removes.
unfoldable pub is_white : ℕ → Bool
is_white x =
    leb 9 x && leb x 13
    || x == 32
    || x == 160
    || x == 5760
    || leb 8192 x && leb x 8202
    || x == 8232
    || x == 8233
    || x == 8239
    || x == 8287
    || x == 12288
    || x == 65279

-- `s.trim()`.
unfoldable pub trim_start : Text → Text
unfolding is_white
trim_start [] = []
trim_start (c ∷ s) = let rest = trim_start s in if is_white c then rest else c ∷ s

unfoldable pub trim : Text → Text
unfolding trim_start
trim s = reverse (trim_start (reverse (trim_start s)))

abbrev pub every : (ℕ → Bool) → Text → Bool
every p [] = true
every p (c ∷ s) = p c && every p s
