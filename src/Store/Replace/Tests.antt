-- ===== src/Store/Replace/Tests.antt =====
-- `ReplaceMailboxes` on a repository with two branches, as in internal/store/store_test.go.
use git2imap.Base.{
  ℕ, ◌≡◌, refl, true, false, none, List, [], ◌∷◌, ◌++◌, Text, codes, arith, beq, ne_of_beq, find,
  select, All,
}
use git2imap.Store.{Repository, Mailbox, Message, CommitSnapshot, BranchSnapshot, Db, ok}
use git2imap.Store.Mailboxes.{
  messages, update_mailboxes, insert_mailbox, delete_mailbox, insert_message,
}
use git2imap.Store.Replace.{
  Clock, mailbox_name, updating_name, load_mailbox_state, old_mailbox, needs_rebuild, insert_branch,
  rebuild, insert_commits, append_commits, sync_branch, sync_branches, delete_unseen,
  replace_mailboxes,
}
use git2imap.Store.Replace.Commits.{Within, has_commit, has_commit-insert_commits}
use git2imap.Store.Replace.Outcome.{DistinctNames, Outcome}
use git2imap.Store.Replace.Contract.{replace_mailboxes-Outcome}
use git2imap.Store.Replace.Uids.{Numbered, replace_mailboxes-Numbered, uid_contract}

abbrev pub a_repository : Repository
a_repository = record {
  id = codes "repo";
  name = codes "repo";
  remote_url = codes "https://example.test/repo.git";
  auth_type = codes "none";
  auth_secret = [];
  status = codes "ready";
  status_message = [];
  default_branch = codes "main";
  mail_username = codes "repo-user";
  mail_password_hash = codes "hash";
  mail_password_cipher = codes "cipher";
  ssh_host_fingerprint = [];
  created_at = 100;
  updated_at = 100;
  last_fetch_at = none;
}

abbrev pub main_box : Mailbox
main_box = record {
  id = 1;
  repository_id = codes "repo";
  branch = codes "main";
  name = codes "INBOX";
  uid_validity = 100;
  next_uid = 2;
  head_oid = codes "a";
}

abbrev pub message : ℕ → ℕ → Text → Message
message id uid oid = record {
  mailbox_id = id;
  uid = uid;
  commit_oid = oid;
  subject = codes "s";
  author_name = codes "A";
  author_email = codes "a@example.com";
  authored_at = 100;
  size = 0;
  cache_path = [];
}

abbrev pub commit : Text → CommitSnapshot
commit oid = record {
  oid = oid;
  subject = codes "s";
  author_name = codes "A";
  author_email = codes "a@example.com";
  authored_at = 100;
}

abbrev pub before : Db
before = record {
  repositories = a_repository ∷ [];
  mailboxes = main_box ∷ [];
  messages = message 1 1 (codes "a") ∷ [];
  sessions = [];
  last_mailbox_id = 1;
}

abbrev pub clock : Text → Clock
clock branch = record { inserted = 200; returned = 200 }

abbrev pub forward : BranchSnapshot
forward = record {
  name = codes "main";
  head_oid = codes "c";
  fast_forward = true;
  new_commits = commit (codes "c") ∷ [];
}

abbrev pub next : BranchSnapshot
next = record {
  name = codes "next";
  head_oid = codes "b";
  fast_forward = false;
  new_commits = commit (codes "b") ∷ [];
}

abbrev pub main_after : Mailbox
main_after = record main_box { next_uid = 3; head_oid = codes "c" }

abbrev pub next_box : Mailbox
next_box = record {
  id = 2;
  repository_id = codes "repo";
  branch = codes "next";
  name = codes "Branches/next";
  uid_validity = 200;
  next_uid = 2;
  head_oid = codes "b";
}

abbrev pub after : Db
after = record before {
  mailboxes = main_after ∷ next_box ∷ [];
  messages = message 1 1 (codes "a") ∷ message 1 2 (codes "c") ∷ message 2 1 (codes "b") ∷ [];
  last_mailbox_id = 2;
}

-- A fast-forward of one branch, and a new one.
pub forward_and_new :
    replace_mailboxes clock (codes "repo") (codes "main") (forward ∷ next ∷ []) before ≡ ok after
unfolding replace_mailboxes sync_branches sync_branch insert_branch rebuild append_commits
    insert_commits delete_unseen needs_rebuild load_mailbox_state old_mailbox mailbox_name
    updating_name update_mailboxes insert_mailbox delete_mailbox insert_message beq
forward_and_new = refl

pub one_branch_each : DistinctNames (forward ∷ next ∷ [])
unfolding beq
one_branch_each = ((ne_of_beq (codes "next") (codes "main") refl, tt), (tt, tt))

replace_mailboxes-Outcome_example : Outcome (codes "main") main_box forward after before
unfolding find beq
replace_mailboxes-Outcome_example =
    replace_mailboxes-Outcome clock (codes "repo") (codes "main") (forward ∷ next ∷ []) forward
      main_box before (tt, tt) one_branch_each (omega arith) refl refl refl
      (omega arith, omega arith) forward_and_new

pub main_box-Numbered : Numbered main_box before
unfolding select
main_box-Numbered = record { ascending = (tt, tt); within = ((refl, omega arith, omega arith), tt) }

replace_mailboxes-Numbered_example : Numbered main_after after
unfolding find beq
replace_mailboxes-Numbered_example =
    replace_mailboxes-Numbered clock (codes "repo") (codes "main") (forward ∷ next ∷ []) forward
      main_box main_after before (tt, tt) one_branch_each (omega arith) refl refl refl
      (omega arith, omega arith) forward_and_new refl (omega arith) main_box-Numbered

uid_contract_example :
    (new : List Message) × (messages 1 after ≡ messages 1 before ++ new) × All (Within 1 2 3) new
unfolding find beq
uid_contract_example =
    uid_contract clock (codes "repo") (codes "main") (forward ∷ next ∷ []) forward main_box
      main_after before (tt, tt) one_branch_each (omega arith) refl refl refl
      (omega arith, omega arith) forward_and_new refl (omega arith) main_box-Numbered (omega arith)
      refl

has_commit-insert_commits_example :
    All
      (λ c.
        has_commit 1 c.oid
          (insert_commits 1 2 (commit (codes "a") ∷ commit (codes "c") ∷ []) before).1.messages
        ≡ true)
      (commit (codes "a") ∷ commit (codes "c") ∷ [])
unfolding select
has_commit-insert_commits_example =
    has_commit-insert_commits 1 2 (commit (codes "a") ∷ commit (codes "c") ∷ []) before
      (omega arith) (omega arith, tt)
