-- ===== src/Git/Parse/Records.antt =====
-- internal/gitbackend/git.go: the commits that `git log` prints in the format of `Commits`.
use git2imap.Base.{
  split, split_first, split_first-append, split_first-whole, ||-eq-false, ℕ, ◌<◌, ◌≡◌, refl, ap,
  ◌∙◌, false, ◌||◌, Option, some, List, [], ◌∷◌, ◌++◌, Text, has, length, ltb, ◌==◌, arith, All,
}
use git2imap.Git.{Commit, got}
use git2imap.Git.Parse.{
  drop_return, lines_from, scan_lines, read_commit, read_commits, parse_commits,
}

has-append : (d : ℕ) (s t : Text) → has d (s ++ t) ≡ (has d s || has d t)
unfolding has
has-append d [] t = refl
has-append d (c ∷ s) t = ground (arith, has-append d s t)

drop_return-append :
    (a : Text) (c : ℕ) (s : Text) → drop_return (a ++ c ∷ s) ≡ a ++ drop_return (c ∷ s)
unfolding drop_return
drop_return-append [] c s = refl
drop_return-append (d ∷ []) c s = refl
drop_return-append (d ∷ e ∷ a) c s = ap (λ t. d ∷ t) (drop_return-append (e ∷ a) c s)

drop_return-whole : (s : Text) → has 13 s ≡ false → drop_return s ≡ s
unfolding drop_return has
drop_return-whole [] h = refl
drop_return-whole (c ∷ []) h = ground (arith, h)
drop_return-whole (c ∷ d ∷ s) h =
    ap (λ t. c ∷ t) (drop_return-whole (d ∷ s) (||-eq-false (c == 13) (has 13 (d ∷ s)) h).1)

scan_lines-append :
    (line s : Text)
    → has 10 line ≡ false
    → drop_return line ≡ line
    → scan_lines (line ++ 10 ∷ s) ≡ line ∷ scan_lines s
unfolding scan_lines split lines_from
scan_lines-append line s h k = rw (split_first-append 10 line s h, k) refl

-- A field holds no separator and no end of a line.
abbrev pub Plain : Text → Type 0
Plain s = (has 0 s ≡ false) × (has 10 s ≡ false)

split-append : (a s : Text) → Plain a → split 0 (a ++ 0 ∷ s) ≡ a ∷ split 0 s
unfolding split
split-append a s h = rw (split_first-append 0 a s h.0) refl

split-whole : (a : Text) → Plain a → split 0 a ≡ a ∷ []
unfolding split
split-whole a h = rw (split_first-whole 0 a h.0) refl

has-field : (a s : Text) → Plain a → has 10 s ≡ false → has 10 (a ++ 0 ∷ s) ≡ false
has-field a s h k = has-append 10 a (0 ∷ s) ∙ rw h.1 (unfold has in k)

drop_return-field :
    (a s : Text) → drop_return (0 ∷ s) ≡ 0 ∷ s → drop_return (a ++ 0 ∷ s) ≡ a ++ 0 ∷ s
drop_return-field a s h = drop_return-append a 0 s ∙ ap (λ t. a ++ t) h

module _ (format_time : ℕ → Text) (parse_time : Text → Option ℕ) where
  -- One line of `git log --format=%H%x00%s%x00%an%x00%ae%x00%aI`, without its end.
  abbrev pub print_commit : Commit → Text
  print_commit c =
      c.oid
      ++ 0
        ∷ (c.subject
            ++ 0 ∷ (c.author_name ++ 0 ∷ (c.author_email ++ 0 ∷ format_time c.authored_at)))

  abbrev pub print_commits : List Commit → Text
  print_commits [] = []
  print_commits (c ∷ cs) = print_commit c ++ 10 ∷ print_commits cs

  -- A commit whose line is read back: plain fields, no more than the buffer of the scanner holds.
  pub record Printable (c : Commit) : Type 0 where
    pub oid : Plain c.oid
    pub subject : Plain c.subject
    pub author_name : Plain c.author_name
    pub author_email : Plain c.author_email
    pub date : Plain (format_time c.authored_at)
    pub no_return : has 13 (format_time c.authored_at) ≡ false
    pub time : parse_time (format_time c.authored_at) ≡ some c.authored_at
    pub fits : length (print_commit c) < 4194304

  split-print_commit :
      (c : Commit)
      → Printable c
      → split 0 (print_commit c)
        ≡ c.oid ∷ c.subject ∷ c.author_name ∷ c.author_email ∷ format_time c.authored_at ∷ []
  split-print_commit c h =
      split-append c.oid _ h.oid
      ∙ ap (λ r. c.oid ∷ r)
          (split-append c.subject _ h.subject
            ∙ ap (λ r. c.subject ∷ r)
                (split-append c.author_name _ h.author_name
                  ∙ ap (λ r. c.author_name ∷ r)
                      (split-append c.author_email _ h.author_email
                        ∙ ap (λ r. c.author_email ∷ r)
                            (split-whole (format_time c.authored_at) h.date))))

  print_commit-ends : (c : Commit) → Printable c → has 10 (print_commit c) ≡ false
  print_commit-ends c h = has-field c.oid _ h.oid (
      has-field c.subject _ h.subject (
        has-field c.author_name _ h.author_name
          (has-field c.author_email _ h.author_email h.date.1)))

  print_commit-drop_return :
      (c : Commit) → Printable c → drop_return (print_commit c) ≡ print_commit c
  print_commit-drop_return c h =
      let date : drop_return (0 ∷ format_time c.authored_at) ≡ 0 ∷ format_time c.authored_at =
        drop_return-whole (0 ∷ format_time c.authored_at) (unfold has in h.no_return) in
      drop_return-field c.oid _ (
        drop_return-field (0 ∷ c.subject) _
          (drop_return-field (0 ∷ c.author_name) _ (drop_return-field (0 ∷ c.author_email) _ date)))

  read_commit-print_commit :
      (c : Commit) → Printable c → read_commit parse_time (split 0 (print_commit c)) ≡ some (got c)
  read_commit-print_commit c h =
      ap (read_commit parse_time) (split-print_commit c h) ∙ (unfold read_commit in rw h.time refl)

  read_commits-cons :
      (c : Commit) (line : Text) (lines : List Text) {cs : List Commit}
      → length line < 4194304
      → read_commit parse_time (split 0 line) ≡ some (got c)
      → read_commits parse_time lines ≡ got cs
      → read_commits parse_time (line ∷ lines) ≡ got (c ∷ cs)
  unfolding read_commits
  read_commits-cons c line lines fits h k =
      let short : ltb 4194303 (length line) ≡ false = ground (arith, fits) in rw (short, h, k) refl

  -- What git prints of commits in its format is read as these commits, in their order. Each fits
  -- the buffer of the scanner, its fields hold no zero and no line feed, and the date, which ends
  -- the line, holds no carriage return and is parsed as the time it was printed for.
  pub parse_commits-print_commits :
      (cs : List Commit) → All Printable cs → parse_commits parse_time (print_commits cs) ≡ got cs
  unfolding parse_commits
  parse_commits-print_commits [] h = unfold scan_lines split_first lines_from read_commits in refl
  parse_commits-print_commits (c ∷ cs) (h, hs) =
      ap (read_commits parse_time) (
        scan_lines-append (print_commit c) (print_commits cs) (print_commit-ends c h)
          (print_commit-drop_return c h))
      ∙ read_commits-cons c (print_commit c) (scan_lines (print_commits cs)) h.fits
          (read_commit-print_commit c h) (parse_commits-print_commits cs hs)
