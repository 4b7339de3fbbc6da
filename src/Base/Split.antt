-- ===== src/Base/Split.antt =====
-- strings.Split at one character.
use Prim.Native.Nat.{ℕ}
use mathlib.Core.Path.{◌≡◌, refl}
use mathlib.Core.Bool.{false}
use mathlib.Core.List.{List, [], ◌∷◌, ◌++◌}
use native.Mathlib.Omega.{arith}
use git2imap.Base.Tests.{◌==◌, if◌then◌else◌, ||-eq-false}
use git2imap.Base.Strings.{Text, has}

-- The first piece, and the pieces behind it.
unfoldable pub split_first : ℕ → Text → Text × List Text
split_first sep [] = ([], [])
split_first sep (c ∷ s) =
    let (piece, pieces) = split_first sep s in
    if c == sep then ([], piece ∷ pieces) else (c ∷ piece, pieces)

unfoldable pub split : ℕ → Text → List Text
unfolding split_first
split sep s = let (piece, pieces) = split_first sep s in piece ∷ pieces

pub split_first-append :
    (sep : ℕ) (a s : Text) → has sep a ≡ false → split_first sep (a ++ sep ∷ s) ≡ (a, split sep s)
unfolding split_first split has
split_first-append sep [] s h = ground arith
split_first-append sep (c ∷ a) s h =
    let (x, y) = ||-eq-false (c == sep) (has sep a) h in rw (x, split_first-append sep a s y) refl

pub split_first-whole : (sep : ℕ) (a : Text) → has sep a ≡ false → split_first sep a ≡ (a, [])
unfolding split_first has
split_first-whole sep [] h = refl
split_first-whole sep (c ∷ a) h =
    let (x, y) = ||-eq-false (c == sep) (has sep a) h in rw (x, split_first-whole sep a y) refl
