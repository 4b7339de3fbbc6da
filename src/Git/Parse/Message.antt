-- ===== src/Git/Parse/Message.antt =====
-- internal/gitbackend/git.go: `lastCommandOutput`, the line of git that an error quotes.
use mathlib.Core.List.{reverse, reverse_aux}
use git2imap.Base.{
  split, split_first, zero, suc, ℕ, ◌≤◌, ◌≡◌, refl, Bool, false, List, [], ◌∷◌, ◌++◌, Text, codes,
  has, beq, is_space, trim, trim_left, trim_space, length, length-append, length-take-le, take, ltb,
  has_prefix, ◌==◌, arith, All, Bool-cases, inl, inr, ||-eq-false,
}
use git2imap.Git.Quote.{replace_from, replace_all}
use git2imap.Git.Parse.{last_line, shorten, last_command_output}

-- `Free d s`: the text does not hold `d`.
abbrev Free : ℕ → Text → Type 0
Free d s = has d s ≡ false

Free-take : (d n : ℕ) (s : Text) → Free d s → Free d (take n s)
unfolding has
Free-take d zero s h = refl
Free-take d (suc n) [] h = refl
Free-take d (suc n) (c ∷ s) h = ground (arith, h, Free-take d n s)

Free-append : (d : ℕ) (s t : Text) → Free d s → Free d t → Free d (s ++ t)
unfolding has
Free-append d [] t h k = k
Free-append d (c ∷ s) t h k = ground (arith, h, Free-append d s t)

Free-trim_left : (d : ℕ) (p : ℕ → Bool) (s : Text) → Free d s → Free d (trim_left p s)
unfolding has trim_left
Free-trim_left d p [] h = refl
Free-trim_left d p (c ∷ s) h = ground (arith, h, Free-trim_left d p s)

Free-reverse_aux : (d : ℕ) (s t : Text) → Free d s → Free d t → Free d (reverse_aux s t)
unfolding has
Free-reverse_aux d [] t h k = k
Free-reverse_aux d (c ∷ s) t h k =
    let (x, y) = ||-eq-false (c == d) (has d s) h in Free-reverse_aux d s (c ∷ t) y (rw (x, k) refl)

Free-reverse : (d : ℕ) (s : Text) → Free d s → Free d (reverse s)
unfolding has
Free-reverse d s h = Free-reverse_aux d s [] h refl

Free-split :
    (sep d : ℕ) (s : Text)
    → Free d s
    → Free d (split_first sep s).0 × All (Free d) (split_first sep s).1
unfolding has split_first
Free-split sep d [] h = (refl, tt)
Free-split sep d (c ∷ s) h =
    let (x, y) = ||-eq-false (c == d) (has d s) h in
    let (first, rest) = Free-split sep d s y in
    elim (Bool-cases (c == sep)) [
      | inl t ↦ rw t (refl, (first, rest))
      | inr t ↦ rw t (rw (x, first) refl, rest)
    ]

-- The pieces do not hold the separator.
split-Free :
    (sep : ℕ) (s : Text) → Free sep (split_first sep s).0 × All (Free sep) (split_first sep s).1
unfolding has split_first
split-Free sep [] = (refl, tt)
split-Free sep (c ∷ s) =
    let (first, rest) = split-Free sep s in
    elim (Bool-cases (c == sep)) [
      | inl t ↦ rw t (refl, (first, rest))
      | inr t ↦ rw t (rw (t, first) refl, rest)
    ]

Free-trim_space : (d : ℕ) (s : Text) → Free d s → Free d (trim_space s)
unfolding trim_space trim
Free-trim_space d s h =
    Free-reverse d _
      (Free-trim_left d is_space _ (Free-reverse d _ (Free-trim_left d is_space s h)))

last_line-Free : (d : ℕ) (lines : List Text) → All (Free d) lines → Free d (last_line lines)
unfolding last_line
last_line-Free d [] h = unfold has in refl
last_line-Free d (line ∷ lines) (h, hs) = elim (Bool-cases (beq (last_line lines) [])) [
  | inl t ↦ rw t (Free-trim_space d line h)
  | inr t ↦ rw t (last_line-Free d lines hs)
]

replace-Free : (s : Text) → Free 13 (replace_all (13 ∷ []) (10 ∷ []) s)
unfolding replace_all replace_from has has_prefix
replace-Free [] = refl
replace-Free (c ∷ s) = elim (Bool-cases (c == 13)) [
  | inl t ↦ ground (arith, t, replace-Free s)
  | inr t ↦ ground (arith, t, replace-Free s)
]

shorten-Free : (d : ℕ) (s : Text) → Free d s → Free d (codes "...") → Free d (shorten s)
unfolding shorten
shorten-Free d s h k = elim (Bool-cases (ltb 600 (length s))) [
  | inl t ↦ rw t (Free-append d (take 600 s) (codes "...") (Free-take d 600 s h) k)
  | inr t ↦ rw t h
]

length-shorten : (s : Text) → length (shorten s) ≤ 603
unfolding shorten
length-shorten s = elim (Bool-cases (ltb 600 (length s))) [
  | inl t ↦ rw t (omega (arith, length-append (take 600 s) (codes "..."), length-take-le 600 s))
  | inr t ↦ rw t (ground (arith, t))
]

-- What an error quotes of git's output is at most 603 characters, on a single line, whatever git
-- printed.
last_command_output_lem :
    (output : Text)
    → (length (last_command_output output) ≤ 603)
      × (has 10 (last_command_output output) ≡ false)
      × (has 13 (last_command_output output) ≡ false)
unfolding last_command_output split
last_command_output_lem output =
    let text = replace_all (13 ∷ []) (10 ∷ []) output in
    let pieces = split 10 text in
    (
      length-shorten (last_line pieces),
      shorten-Free 10 (last_line pieces) (last_line-Free 10 pieces (split-Free 10 text))
          (unfold has in refl),
      shorten-Free 13 (last_line pieces)
          (last_line-Free 13 pieces (Free-split 10 13 text (replace-Free output)))
          (unfold has in refl),
    )
