-- ===== src/Store/Replace.antt =====
-- internal/store/store.go: `ReplaceMailboxes`, the transaction that brings the mailboxes of a
-- repository in line with the branches of its mirror.
pub mod Names
pub mod Total
pub mod Stage
pub mod Inserted
pub mod Progress
pub mod Clean
pub mod Aside
pub mod Mirror
pub mod Commits
pub mod Rows
pub mod Branch
pub mod Outcome
pub mod Contract
pub mod Uids
pub mod Tables
pub mod Tests
use git2imap.Base.{
  ℕ, zero, suc, ◌+◌, ◌/◌, ◌%◌, ◌^◌, Bool, not, ◌||◌, Option, none, some, List, [], ◌∷◌, ◌++◌, Text,
  codes, beq, select, any, find, if◌then◌else◌, ◌==◌,
}
use git2imap.Store.{Mailbox, CommitSnapshot, BranchSnapshot, Db, Result, ok, ◌>>=◌}
use git2imap.Store.Mailboxes.{
  update_mailboxes, insert_mailbox, delete_messages, delete_mailbox, insert_message,
}

abbrev pub inbox : Text
inbox = codes "INBOX"

-- The mailbox name of a branch.
unfoldable pub mailbox_name : Text → Text → Text
mailbox_name default_branch branch =
    if beq branch default_branch then inbox else codes "Branches/" ++ branch

-- Decimal digits, `'__updating__/' || id` of the statement; `fuel` is the number itself.
digits : ℕ → ℕ → Text → Text
digits zero n out = out
digits (suc fuel) n out =
    let rest = digits fuel (n / 10) ((b'0' + n % 10) ∷ out) in if n == 0 then out else rest

unfoldable pub decimal : ℕ → Text
unfolding digits
decimal n = if n == 0 then b'0' ∷ [] else digits n n []

unfoldable pub updating_name : ℕ → Text
unfolding decimal
updating_name id = codes "__updating__/" ++ decimal id

-- loadMailboxState: at most one row has a branch, by the UNIQUE clause.
unfoldable pub load_mailbox_state : Text → Db → List Mailbox
unfolding select
load_mailbox_state repo_id db = select (λ m. beq m.repository_id repo_id) db.mailboxes

unfoldable pub old_mailbox : Text → List Mailbox → Option Mailbox
unfolding find
old_mailbox branch existing = find (λ m. beq m.branch branch) existing

-- The two readings of the clock, in seconds, that the code makes for a new branch.
pub record Clock : Type 0 where
  pub inserted : ℕ
  pub returned : ℕ

abbrev pub u32 : ℕ → ℕ
u32 n = n % 2 ^ 32

-- `!ok || old.Name != name || old.HeadOID == "" || !branch.FastForward`
unfoldable pub needs_rebuild : Text → BranchSnapshot → Mailbox → Bool
needs_rebuild name branch old =
    not (beq old.name name) || beq old.head_oid [] || not branch.fast_forward

unfoldable pub insert_branch : Clock → Text → Text → BranchSnapshot → Db → Result (Mailbox × Db)
insert_branch clock repo_id name branch db = do
  (id, db') ← insert_mailbox repo_id branch.name name (u32 clock.inserted) branch.head_oid db
  ok (
    record {
      id = id;
      repository_id = repo_id;
      branch = branch.name;
      name = name;
      uid_validity = u32 clock.returned;
      next_uid = 1;
      head_oid = [];
    },
    db',
  )

-- The body of `if rebuild`; the caller's `old.NextUID` is 1 afterwards.
unfoldable pub rebuild : ℕ → Text → BranchSnapshot → Mailbox → Db → Result Db
rebuild uid_validity name branch old db =
    update_mailboxes (λ r. r.id == old.id)
      (λ r. record r {
        name = name;
        uid_validity = uid_validity;
        next_uid = 1;
        head_oid = branch.head_oid;
      })
      (delete_messages old.id db)

-- The loop over `branch.NewCommits`: `next` grows for an ignored row too.
unfoldable pub insert_commits : ℕ → ℕ → List CommitSnapshot → Db → ℕ × Db
insert_commits id next [] db = (next, db)
insert_commits id next (c ∷ cs) db =
    insert_commits id (u32 (next + 1)) cs (insert_message id next c db)

-- The loop and the last statement for a branch.
unfoldable pub append_commits : Text → BranchSnapshot → ℕ → ℕ → Db → Result Db
append_commits name branch id next db =
    let (next', db') = insert_commits id next branch.new_commits db in
    update_mailboxes (λ r. r.id == id)
      (λ r. record r { name = name; next_uid = next'; head_oid = branch.head_oid }) db'

-- One round of the loop over the branches, given what `existing` holds for the branch.
unfoldable pub sync_branch : Clock → Text → Text → BranchSnapshot → Option Mailbox → Db → Result Db
sync_branch clock repo_id name branch none db = do
  (old, db₁) ← insert_branch clock repo_id name branch db
  db₂ ← rebuild old.uid_validity name branch old db₁
  append_commits name branch old.id 1 db₂
sync_branch clock repo_id name branch (some old) db =
    if needs_rebuild name branch old
    then (do
      db₁ ← rebuild (u32 (old.uid_validity + 1)) name branch old db
      append_commits name branch old.id 1 db₁)
    else append_commits name branch old.id old.next_uid db

unfoldable pub sync_branches :
    (Text → Clock) → Text → Text → List Mailbox → List BranchSnapshot → Db → Result Db
sync_branches clock repo_id default_branch existing [] db = ok db
sync_branches clock repo_id default_branch existing (b ∷ bs) db = do
  db' ←
      sync_branch (clock b.name) repo_id (mailbox_name default_branch b.name) b
        (old_mailbox b.name existing) db
  sync_branches clock repo_id default_branch existing bs db'

-- `!seen[branch]`: the rows of `existing` whose branch is gone are deleted.
unfoldable pub delete_unseen : List BranchSnapshot → List Mailbox → Db → Db
unfolding any
delete_unseen branches [] db = db
delete_unseen branches (m ∷ ms) db =
    delete_unseen branches ms
      (if any (λ b. beq b.name m.branch) branches then db else delete_mailbox m.id db)

-- An error rolls the transaction back: the caller keeps its database.
unfoldable pub replace_mailboxes :
    (Text → Clock) → Text → Text → List BranchSnapshot → Db → Result Db
replace_mailboxes clock repo_id default_branch branches db = do
  let existing = load_mailbox_state repo_id db
  db₁ ←
      update_mailboxes (λ m. beq m.repository_id repo_id)
        (λ m. record m { name = updating_name m.id }) db
  db₂ ← sync_branches clock repo_id default_branch existing branches db₁
  ok (delete_unseen branches existing db₂)
