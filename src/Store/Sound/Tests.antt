-- ===== src/Store/Sound/Tests.antt =====
-- The database after a repository was added and its two branches were fetched.
use git2imap.Base.{◌≡◌, refl, [], ◌∷◌, codes, beq, any}
use git2imap.Store.{Db, ok}
use git2imap.Store.Repositories.{create_repository}
use git2imap.Store.Mailboxes.{update_mailboxes, insert_mailbox, delete_mailbox, insert_message}
use git2imap.Store.Replace.{
  mailbox_name, updating_name, load_mailbox_state, old_mailbox, needs_rebuild, insert_branch,
  rebuild, append_commits, insert_commits, sync_branch, sync_branches, delete_unseen,
  replace_mailboxes,
}
use git2imap.Store.Replace.Aside.{Tidy}
use git2imap.Store.Replace.Mirror.{Mirrors, replace_mailboxes-Mirrors}
use git2imap.Store.Replace.Tests.{
  main_box, next_box, message, a_repository, clock, forward, next, one_branch_each,
}
use git2imap.Store.Sound.{Sound, Reach, start, created, replaced, empty}
use git2imap.Store.Sound.Calls.{Reach-Sound}

abbrev added : Db
added = record empty { repositories = a_repository ∷ [] }

abbrev fetched : Db
fetched = record added {
  mailboxes = record main_box { uid_validity = 200; head_oid = codes "c" } ∷ next_box ∷ [];
  messages = message 1 1 (codes "c") ∷ message 2 1 (codes "b") ∷ [];
  last_mailbox_id = 2;
}

there : Reach added
unfolding create_repository
there = created a_repository start refl

both_fetched :
    replace_mailboxes clock (codes "repo") (codes "main") (forward ∷ next ∷ []) added ≡ ok fetched
unfolding replace_mailboxes sync_branches sync_branch insert_branch rebuild append_commits
    insert_commits delete_unseen needs_rebuild load_mailbox_state old_mailbox mailbox_name
    updating_name update_mailboxes insert_mailbox delete_mailbox insert_message beq
both_fetched = refl

fetched_there : Reach fetched
fetched_there =
    replaced clock (codes "repo") (codes "main") (forward ∷ next ∷ []) there one_branch_each
      both_fetched

Reach-Sound_example : Sound fetched
Reach-Sound_example = Reach-Sound fetched_there

replace_mailboxes-Mirrors_example :
    (after : Db) × (replace_mailboxes clock
        (codes "repo")
        (codes "main")
        (forward ∷ next ∷ [])
        fetched
      ≡ ok after)
    × Tidy after
    × Mirrors (codes "repo") (codes "main") (forward ∷ next ∷ []) after
unfolding any beq
replace_mailboxes-Mirrors_example =
    replace_mailboxes-Mirrors clock (codes "repo") (codes "main") (forward ∷ next ∷ []) fetched
      (Reach-Sound fetched_there).tidy refl one_branch_each
