-- ===== src/Git/Parse/Tests.antt =====
-- internal/gitbackend/git.go: the output of git, read.
use git2imap.Base.{
  ℕ, ◌+◌, ◌≡◌, refl, Option, none, some, [], ◌∷◌, ◌++◌, Text, codes, beq, has, arith,
}
use git2imap.Git.{Commit, got}
use git2imap.Git.Parse.{parse_branches, parse_commits, parse_default_branch}
use git2imap.Git.Parse.Records.{print_commits, parse_commits-print_commits}

abbrev format_time : ℕ → Text
format_time t = (t + 100) ∷ []

abbrev parse_time : Text → Option ℕ
parse_time [] = none
parse_time (c ∷ s) = some 7

abbrev a_commit : Commit
a_commit = record {
  oid = codes "abc";
  subject = codes "first";
  author_name = codes "A";
  author_email = codes "a@example.com";
  authored_at = 7;
}

parse_commits-print_commits_example :
    parse_commits parse_time (print_commits format_time parse_time (a_commit ∷ []))
    ≡ got (a_commit ∷ [])
unfolding has
parse_commits-print_commits_example =
    parse_commits-print_commits format_time parse_time (a_commit ∷ []) (
      record {
        oid = (refl, refl);
        subject = (refl, refl);
        author_name = (refl, refl);
        author_email = (refl, refl);
        date = (refl, refl);
        no_return = refl;
        time = refl;
        fits = omega arith;
      },
      tt,
    )

-- The branches come in the order of their names.
two_branches :
    parse_branches (codes "next" ++ 0 ∷ codes "b2\n" ++ codes "main" ++ 0 ∷ codes "a1\n")
    ≡ (record { name = codes "main"; oid = codes "a1" })
      ∷ (record { name = codes "next"; oid = codes "b2" })
      ∷ []
unfolding parse_branches
two_branches = refl

default_of_remote :
    parse_default_branch (codes "ref: refs/heads/main\tHEAD\nabc\tHEAD\n") ≡ got (codes "main")
unfolding parse_default_branch beq
default_of_remote = refl
