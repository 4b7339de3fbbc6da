-- ===== src/Git/Quote.antt =====
-- internal/gitbackend/git.go: `quoteShellArg`, and how a shell reads the word that it writes.
use git2imap.Base.{
  ℕ, zero, suc, ◌-◌, ◌≡◌, refl, ◌||◌, Option, none, some, [], ◌∷◌, ◌++◌, Text, has_prefix, length,
  arith, ◌==◌, if◌then◌else◌, Bool-cases, inl, inr,
}

-- strings.ReplaceAll for a text `old` that is not empty; `skip` characters of a match are left.
unfoldable pub replace_from : Text → Text → ℕ → Text → Text
replace_from old new skip [] = []
replace_from old new (suc skip) (c ∷ s) = replace_from old new skip s
replace_from old new zero (c ∷ s) =
    let matched = new ++ replace_from old new (length old - 1) s in
    let kept = c ∷ replace_from old new zero s in if has_prefix (c ∷ s) old then matched else kept

unfoldable pub replace_all : Text → Text → Text → Text
unfolding replace_from has_prefix
replace_all old new s = replace_from old new zero s

abbrev pub quote : ℕ
quote = 39

abbrev pub double : ℕ
double = 34

-- A quote becomes '"'"': the quoted text ends, a quote in double quotes follows, and it goes on.
abbrev pub escaped_quote : Text
escaped_quote = quote ∷ double ∷ quote ∷ double ∷ quote ∷ []

-- quoteShellArg
unfoldable pub quote_shell_arg : Text → Text
unfolding replace_all
quote_shell_arg value = quote ∷ replace_all (quote ∷ []) escaped_quote value ++ quote ∷ []

pub data Mode : Type 0 where
  bare single quoted : Mode

abbrev keep : ℕ → Option Text → Option Text
keep c none = none
keep c (some s) = some (c ∷ s)

-- How a POSIX shell reads one word. Outside quotes only quotes are accepted here, and in double
-- quotes no `$`, backquote or backslash, so that nothing is ever expanded.
unfoldable pub read_word : Mode → Text → Option Text
read_word bare [] = some []
read_word single [] = none
read_word quoted [] = none
read_word bare (c ∷ s) =
    let in_single = read_word single s in
    let in_double = read_word quoted s in
    if c == quote then in_single else if c == double then in_double else none
read_word single (c ∷ s) =
    let out = read_word bare s in
    let rest = keep c (read_word single s) in if c == quote then out else rest
read_word quoted (c ∷ s) =
    let out = read_word bare s in
    let rest = keep c (read_word quoted s) in
    if c == double then out else if c == b'$' || c == 96 || c == b'\\' then none else rest

-- Inside single quotes the escaped text is read as the text itself.
read_word-replace :
    (s : Text)
    → read_word single (replace_from (quote ∷ []) escaped_quote zero s ++ quote ∷ []) ≡ some s
unfolding read_word replace_from has_prefix
read_word-replace [] = refl
read_word-replace (c ∷ s) = elim (Bool-cases (c == quote)) [
  | inl e ↦ ground (arith, e, read_word-replace s)
  | inr e ↦ ground (arith, e, read_word-replace s)
]

-- A POSIX shell reads a quoted argument as exactly the argument, whatever it holds, and expands
-- nothing.
pub read_word-quote_shell_arg : (value : Text) → read_word bare (quote_shell_arg value) ≡ some value
unfolding quote_shell_arg read_word
read_word-quote_shell_arg value = read_word-replace value
