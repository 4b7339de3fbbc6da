-- ===== src/Git/Runs/Publish.antt =====
-- internal/gitbackend/git.go: what `Clone` leaves on the disk.
use git2imap.Base.{
  ◌≡◌, ◌≢◌, ◌⊎◌, Bool, true, Option, none, some, List, [], ◌∷◌, ◌++◌, Text, codes, beq,
  if◌then◌else◌,
}
use git2imap.Git.Command.{Command}
use git2imap.Git.Runs.{Effect, made_parent, made_temp, removed, cloned, moved}

pub data Content : Type 0 where
  partial whole other : Content

-- The directories of the cache.
abbrev pub Disk : Type 0
Disk = Text → Option Content

abbrev put : Text → Option Content → Disk → Disk
put p c disk q = if beq p q then c else disk q

-- `left p` is what os.RemoveAll leaves of `p`: none if it succeeds. Clone discards its errors.
abbrev pub apply : (Text → Option Content) → Effect → Disk → Disk
apply left (made_parent p) disk = disk
apply left (made_temp p) disk = put p (some partial) disk
apply left (removed p) disk = put p (left p) disk
apply left (cloned p done) disk = put p (some (if done then whole else partial)) disk
apply left (moved p q) disk = put p none (put q (disk p) disk)

unfoldable pub replay : (Text → Option Content) → List Effect → Disk → Disk
replay left [] disk = disk
replay left (e ∷ es) disk = replay left es (apply left e disk)

-- The ways in which the part of Clone behind MkdirTemp ends.
pub data Ends (target tmp : Text) : (Text × Option Text) × List Effect → Type 0 where
  unprepared : {fingerprint e : Text} → Ends target tmp ((fingerprint, some e), [])
  unpublished :
      {fingerprint e : Text} (done : Bool)
      → Ends target tmp ((fingerprint, some e), cloned tmp done ∷ [])
  published :
      {result : Text × Option Text}
      → Ends target tmp
          (result, cloned tmp true ∷ moved tmp target ∷ removed (target ++ codes ".tmp") ∷ [])

-- A new directory that is neither the target nor the one that is removed behind it.
abbrev pub Fresh : Text → Disk → Text → Type 0
Fresh target disk tmp = (disk tmp ≡ none) × (tmp ≢ target) × (tmp ≢ target ++ codes ".tmp")

-- The target is as it was or the whole clone, which it is if there is no error, and all other
-- directories are as they were.
pub record Clean (left : Text → Option Content) (target : Text) (disk : Disk)
    (end : (Text × Option Text) × List Effect) : Type 0 where
  pub others :
      (q : Text) → q ≢ target → q ≢ target ++ codes ".tmp" → replay left end.1 disk q ≡ disk q
  pub either :
      (replay left end.1 disk target ≡ disk target) ⊎ (replay left end.1 disk target ≡ some whole)
  pub success : end.0.1 ≡ none → replay left end.1 disk target ≡ some whole
