-- ===== src/Git/Parse.antt =====
-- internal/gitbackend/git.go: how the output of git is read: branches, commits, the default
-- branch, and the last line that it printed before it failed.
pub mod Message
pub mod Records
pub mod Tests
use git2imap.Base.{
  split, split_first, ℕ, Bool, true, false, not, ◌&&◌, ◌||◌, Option, none, some, List, [], ◌∷◌,
  ◌++◌, Text, codes, beq, has_prefix, is_space, trim_space, sort_by, text_le, length, take, drop,
  ltb, ◌==◌, if◌then◌else◌,
}
use git2imap.Git.{Commit, Branch, Answer, failed, got}
use git2imap.Git.Quote.{replace_all}

-- SplitN(…, 2) with two fields: what is before and behind the first separator.
unfoldable pub cut_at : ℕ → Text → Option (Text × Text)
cut_at sep [] = none
cut_at sep (c ∷ s) = elim (c == sep) [
  | true ↦ some ([], s)
  | false ↦ elim (cut_at sep s) [ none ↦ none | some (a, b) ↦ some (c ∷ a, b) ]
]

abbrev branch : Text → Text → Branch
branch name oid = record { name = name; oid = oid }

-- The loop of `Branches` over the lines.
unfoldable pub read_branches : List Text → List Branch
unfolding cut_at
read_branches [] = []
read_branches (line ∷ lines) = elim (cut_at 0 line) [
  | none ↦ read_branches lines
  | some (name, oid) ↦ branch name oid ∷ read_branches lines
]

-- Branches, on the output of `git for-each-ref`. Branch names are distinct, so that the order that
-- sort.Slice leaves is the only one.
unfoldable pub parse_branches : Text → List Branch
unfolding split trim_space read_branches sort_by text_le
parse_branches output =
    sort_by (λ a b. text_le a.name b.name) (read_branches (split 10 (trim_space output)))

-- The lines of a bufio.Scanner: the end of the text ends a line that is not empty, and one carriage
-- return at the end of a line is dropped.
unfoldable pub drop_return : Text → Text
drop_return [] = []
drop_return (c ∷ []) = if c == 13 then [] else c ∷ []
drop_return (c ∷ d ∷ s) = c ∷ drop_return (d ∷ s)

unfoldable pub lines_from : Text → List Text → List Text
unfolding drop_return
lines_from [] [] = []
lines_from (c ∷ s) [] = drop_return (c ∷ s) ∷ []
lines_from s (piece ∷ pieces) = drop_return s ∷ lines_from piece pieces

unfoldable pub scan_lines : Text → List Text
unfolding split_first lines_from
scan_lines s = let (piece, pieces) = split_first 10 s in lines_from piece pieces

-- `parse_time` is time.Parse with RFC 3339.
module _ (parse_time : Text → Option ℕ) where
  unfoldable pub read_commit : List Text → Option (Answer Commit)
  read_commit (oid ∷ subject ∷ name ∷ email ∷ authored ∷ []) = some (elim (parse_time authored) [
    | none ↦ failed (codes "parse author date for " ++ oid)
    | some t ↦ got (record {
      oid = oid;
      subject = subject;
      author_name = name;
      author_email = email;
      authored_at = t;
    })
  ])
  read_commit fields = none

  -- The loop of `Commits`. A line that does not fit the buffer of 4 MiB is an error; a character
  -- counts as one byte.
  unfoldable pub read_commits : List Text → Answer (List Commit)
  unfolding split read_commit
  read_commits [] = got []
  read_commits (line ∷ lines) =
      let rest = read_commits lines in
      if ltb 4194303 (length line)
      then failed (codes "bufio.Scanner: token too long")
      else elim (read_commit (split 0 line)) [
        | none ↦ rest
        | some (failed m) ↦ failed m
        | some (got c) ↦ elim rest [ failed m ↦ failed m | got cs ↦ got (c ∷ cs) ]
      ]

  -- Commits, on the output of `git log`.
  unfoldable pub parse_commits : Text → Answer (List Commit)
  unfolding scan_lines read_commits
  parse_commits output = read_commits (scan_lines output)

-- strings.Fields: the word that a text begins with, and the words behind it.
unfoldable pub fields_from : Text → Text × List Text
unfolding is_space
fields_from [] = ([], [])
fields_from (c ∷ s) =
    let (word, words) = fields_from s in
    if is_space c then ([], if beq word [] then words else word ∷ words) else (c ∷ word, words)

unfoldable pub fields : Text → List Text
unfolding fields_from
fields s = let (word, words) = fields_from s in if beq word [] then words else word ∷ words

-- strings.TrimPrefix
unfoldable pub trim_prefix : Text → Text → Text
unfolding has_prefix
trim_prefix s prefix = if has_prefix s prefix then drop (length prefix) s else s

abbrev symref : List Text → Option Text
symref (a ∷ b ∷ c ∷ rest) =
    if beq a (codes "ref:") && beq c (codes "HEAD")
    then some (trim_prefix b (codes "refs/heads/"))
    else none
symref words = none

-- The loop of `DefaultBranch` over the lines of `git ls-remote --symref origin HEAD`.
unfoldable pub read_default_branch : List Text → Answer Text
unfolding fields trim_prefix
read_default_branch [] = failed (codes "remote did not advertise a default branch")
read_default_branch (line ∷ lines) = elim (symref (fields line)) [
  | none ↦ read_default_branch lines
  | some name ↦ got name
]

unfoldable pub parse_default_branch : Text → Answer Text
unfolding split read_default_branch
parse_default_branch output = read_default_branch (split 10 output)

-- IsAncestor: git is asked only about two commits.
unfoldable pub is_ancestor : (Text → Text → Bool) → Text → Text → Bool
is_ancestor merge_base old new = not (beq old [] || beq new []) && merge_base old new

-- The last line that is not blank.
unfoldable pub last_line : List Text → Text
unfolding trim_space
last_line [] = []
last_line (line ∷ lines) =
    let later = last_line lines in if beq later [] then trim_space line else later

unfoldable pub shorten : Text → Text
shorten message = if ltb 600 (length message) then take 600 message ++ codes "..." else message

-- lastCommandOutput; a character counts as one byte.
unfoldable pub last_command_output : Text → Text
unfolding replace_all split last_line shorten
last_command_output output = shorten (last_line (split 10 (replace_all (13 ∷ []) (10 ∷ []) output)))

-- commandError, as the text of the error.
unfoldable pub command_error : Text → Text → Text → Text
unfolding last_command_output
command_error action output problem =
    let message = last_command_output output in
    if beq message []
    then action ++ codes ": " ++ problem
    else action ++ codes ": " ++ problem ++ codes "; last git output: " ++ message
