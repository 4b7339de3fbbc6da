-- ===== src/Git/Tests.antt =====
-- internal/gitbackend/git.go: a remote and a shell word.
use git2imap.Base.{
  ◌≡◌, refl, ◌⊎◌, true, false, Option, some, [], ◌∷◌, Text, codes, has_prefix, contains_any,
  trim_space, trim, trim_left, is_space, has, beq, to_lower, lower,
}
use git2imap.Git.Remote.{Url, validate_remote, validate_url, Allowed, validate_remote_lem}
use git2imap.Git.Quote.{bare, read_word, quote_shell_arg, read_word-quote_shell_arg}

abbrev parsed : Text → Option Url
parsed s = some (record { scheme = codes "https"; host = codes "example.test"; user = false })

abbrev remote : Text
remote = codes " https://example.test/repo.git"

validate_remote_lem_example :
    (has_prefix (trim_space remote) (codes "-") ≡ false)
    × (contains_any (trim_space remote) (13 ∷ 10 ∷ 0 ∷ []) ≡ false)
    × ((false ≡ true)
        ⊎ ((u : Url) × (parsed (trim_space remote) ≡ some u)
            × Allowed (λ c. c) (λ s. false) parsed u))
unfolding validate_remote validate_url trim_space trim trim_left is_space has_prefix contains_any
    has beq to_lower lower
validate_remote_lem_example = validate_remote_lem (λ c. c) (λ s. false) parsed remote refl

read_word-quote_shell_arg_example :
    read_word bare (quote_shell_arg (codes "it's $HOME")) ≡ some (codes "it's $HOME")
read_word-quote_shell_arg_example = read_word-quote_shell_arg (codes "it's $HOME")
