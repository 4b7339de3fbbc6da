-- ===== src/Base/Strings.antt =====
-- Go strings as lists of code points, with the operations of package `strings` that are used.
use Prim.Native.Nat.{ℕ, ◌+◌}
use Prim.Native.Char.{code}
use Prim.Native.String.{String}
use mathlib.Core.Path.{◌≡◌, refl, sym, ◌∙◌}
use mathlib.Core.Logic.{◌↔◌, ◌≢◌}
use mathlib.Core.Bool.{Bool, true, false, ◌&&◌, ◌||◌, false≢true}
use mathlib.Core.List.{List, [], ◌∷◌, reverse}
use native.Mathlib.Omega.{arith}
use git2imap.Base.Tests.{leb, ◌==◌, if◌then◌else◌}

abbrev pub Text : Type 0
Text = List ℕ

abbrev pub codes : String → Text
codes String.[] = []
codes (String.◌∷◌ c s) = code c ∷ codes s

unfoldable pub beq : Text → Text → Bool
beq [] [] = true
beq [] (d ∷ t) = false
beq (c ∷ s) [] = false
beq (c ∷ s) (d ∷ t) = (c == d) && beq s t

pub beq_iff : (s t : Text) → (beq s t ≡ true) ↔ (s ≡ t)
unfolding beq
beq_iff [] [] = ground arith
beq_iff [] (d ∷ t) = ground arith
beq_iff (c ∷ s) [] = ground arith
beq_iff (c ∷ s) (d ∷ t) = ground (arith, beq_iff s t)

pub beq_refl : (s : Text) → beq s s ≡ true
beq_refl s = (beq_iff s s).1 refl

pub ne_of_beq : (s t : Text) → beq s t ≡ false → s ≢ t
ne_of_beq s t h e = false≢true (sym h ∙ (beq_iff s t).1 e)

-- strings.HasPrefix
unfoldable pub has_prefix : Text → Text → Bool
has_prefix s [] = true
has_prefix [] (d ∷ t) = false
has_prefix (c ∷ s) (d ∷ t) = (c == d) && has_prefix s t

-- strings.Contains
unfoldable pub contains : Text → Text → Bool
unfolding has_prefix
contains [] t = has_prefix [] t
contains (c ∷ s) t = has_prefix (c ∷ s) t || contains s t

-- Whether a text holds a code point.
unfoldable pub has : ℕ → Text → Bool
has d [] = false
has d (c ∷ s) = (c == d) || has d s

-- strings.ContainsAny
unfoldable pub contains_any : Text → Text → Bool
unfolding has
contains_any [] chars = false
contains_any (c ∷ s) chars = has c chars || contains_any s chars

-- unicode.IsSpace
unfoldable pub is_space : ℕ → Bool
is_space c =
    (leb 9 c && leb c 13)
    || c == 32
    || c == 0x85
    || c == 0xa0
    || c == 0x1680
    || (leb 0x2000 c && leb c 0x200a)
    || c == 0x2028
    || c == 0x2029
    || c == 0x202f
    || c == 0x205f
    || c == 0x3000

-- strings.TrimLeftFunc; both ends by reversal.
unfoldable pub trim_left : (ℕ → Bool) → Text → Text
trim_left p [] = []
trim_left p (c ∷ s) = let rest = trim_left p s in if p c then rest else c ∷ s

unfoldable pub trim : (ℕ → Bool) → Text → Text
unfolding trim_left
trim p s = reverse (trim_left p (reverse (trim_left p s)))

unfoldable pub trim_space : Text → Text
unfolding trim is_space
trim_space = trim is_space

-- strings.ToLower: ASCII here, `unicode` for the rest.
unfoldable pub lower : (ℕ → ℕ) → ℕ → ℕ
lower unicode c = if leb b'A' c && leb c b'Z' then c + 32 else if leb c 127 then c else unicode c

unfoldable pub to_lower : (ℕ → ℕ) → Text → Text
unfolding lower
to_lower unicode [] = []
to_lower unicode (c ∷ s) = lower unicode c ∷ to_lower unicode s
