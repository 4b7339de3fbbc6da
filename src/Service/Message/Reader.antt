-- ===== src/Service/Message/Reader.antt =====
-- internal/service/repository.go: a reader of the header lines that `buildMessage` prints.
use git2imap.Base.{
  ℕ, zero, suc, ◌+◌, ◌≤◌, ◌<◌, ◌≡◌, refl, ap, ◌∙◌, false, ◌&&◌, Option, none, some, List, [], ◌∷◌,
  ◌++◌, Text, beq, has, length, length-append, append_assoc, arith, All, ||-eq-false, if◌then◌else◌,
  ◌==◌,
}
use git2imap.Service.Message.{printed}

abbrev keep : ℕ → Option (Text × Text) → Option (Text × Text)
keep c none = none
keep c (some (line, rest)) = some (c ∷ line, rest)

-- A line up to its CR LF, and what follows.
unfoldable pub read_line : Text → Option (Text × Text)
read_line [] = none
read_line (c ∷ []) = none
read_line (c ∷ d ∷ s) =
    let rest = keep c (read_line (d ∷ s)) in if c == 13 && d == 10 then some ([], s) else rest

abbrev keep_line : Text → Option (List Text × Text) → Option (List Text × Text)
keep_line line none = none
keep_line line (some (lines, body)) = some (line ∷ lines, body)

-- The lines of the header up to the first empty line, and the body; at most as many lines as `fuel`.
unfoldable pub read_header : ℕ → Text → Option (List Text × Text)
unfolding read_line beq
read_header zero s = none
read_header (suc fuel) s = elim (read_line s) [
  | none ↦ none
  | some (line, rest) ↦
      let more = keep_line line (read_header fuel rest) in
      if beq line [] then some ([], rest) else more
]

-- Neither CR nor LF.
pub record Single (s : Text) : Type 0 where
  pub no_return : has 13 s ≡ false
  pub no_feed : has 10 s ≡ false

-- A line of the header: not empty, with neither a CR nor an LF.
abbrev pub Line : Text → Type 0
Line s = (beq s [] ≡ false) × Single s

read_line-append :
    (line s : Text) → has 13 line ≡ false → read_line (line ++ 13 ∷ 10 ∷ s) ≡ some (line, s)
unfolding read_line has
read_line-append [] s h = refl
read_line-append (c ∷ []) s h = ground (arith, h)
read_line-append (c ∷ d ∷ line) s h =
    let (x, y) = ||-eq-false (c == 13) (has 13 (d ∷ line)) h in
    rw (x, read_line-append (d ∷ line) s y) refl

read_header-suc :
    (fuel : ℕ) (s : Text) {line rest : Text}
    → read_line s ≡ some (line, rest)
    → beq line [] ≡ false
    → read_header (suc fuel) s ≡ keep_line line (read_header fuel rest)
unfolding read_header
read_header-suc fuel s h k = cc (h, k)

pub read_header-printed :
    (lines : List Text) (body : Text) (fuel : ℕ)
    → All Line lines
    → length lines < fuel
    → read_header fuel (printed lines ++ 13 ∷ 10 ∷ body) ≡ some (lines, body)
unfolding read_header
read_header-printed lines body zero h lt = absurd (omega (arith, lt))
read_header-printed [] body (suc fuel) h lt = unfold read_line beq in refl
read_header-printed (line ∷ lines) body (suc fuel) (h, hs) lt =
    let flat : (line ++ 13 ∷ 10 ∷ printed lines) ++ 13 ∷ 10 ∷ body
        ≡ line ++ 13 ∷ 10 ∷ (printed lines ++ 13 ∷ 10 ∷ body) =
      append_assoc line (13 ∷ 10 ∷ printed lines) (13 ∷ 10 ∷ body) in
    let read = read_line-append line (printed lines ++ 13 ∷ 10 ∷ body) h.1.no_return in
    ap (read_header (suc fuel)) flat
    ∙ read_header-suc fuel (line ++ 13 ∷ 10 ∷ (printed lines ++ 13 ∷ 10 ∷ body)) read h.0
    ∙ ap (keep_line line) (read_header-printed lines body fuel hs (omega (arith, lt)))

pub length-printed :
    (lines : List Text) (s : Text) → length lines + length s ≤ length (printed lines ++ s)
length-printed [] s = omega arith
length-printed (line ∷ lines) s =
    rw (append_assoc line (13 ∷ 10 ∷ printed lines) s)
      (omega (arith, length-append line (13 ∷ 10 ∷ printed lines ++ s), length-printed lines s))
