-- ===== src/Service/Refresh.antt =====
-- internal/service/repository.go: `refresh`, from the row of a repository to its new mailboxes. Git is
-- the interface `Backend`; a context that has ended is one of its errors, and for the calls of the
-- store it is `ended`.
pub mod Forward
pub mod Outcome
pub mod Snapshots
pub mod Status
pub mod Tests
use git2imap.Base.{
  ℕ, Bool, true, false, not, ◌&&◌, ◌||◌, Option, none, some, List, [], ◌∷◌, ◌++◌, map, Text, codes,
  beq, if◌then◌else◌,
}
use git2imap.Store.{
  Repository, Mailbox, CommitSnapshot, BranchSnapshot, Db, StoreError, Result, ok, err,
}
use git2imap.Store.Repositories.{repository, update_repository_status}
use git2imap.Store.Mailboxes.{mailboxes}
use git2imap.Store.Replace.{Clock, old_mailbox, replace_mailboxes}
use git2imap.Git.{Auth, Commit, Branch, Answer, failed, got, Backend}

pub data RefreshError : Type 0 where
  being_deleted bad_secret context_ended : RefreshError
  store_error : StoreError → RefreshError
  git_error : Text → RefreshError

-- The calls of the store that take the context of the refresh.
pub data StoreCall : Type 0 where
  at_row at_mark at_mailboxes at_replace at_ready : StoreCall

-- What a refresh reads of the world: git, the path of a mirror, the key of the box, the decoder of
-- credentials, the texts of errors, at which calls the context has ended, and the clock at its writes.
pub record World : Type 0 where
  pub git : Backend
  pub repository_path : Text → Text
  pub decrypt : Text → Option Text
  pub decode_auth : Text → Option Auth
  pub describe : RefreshError → Text
  pub ended : StoreCall → Bool
  pub marked_at : ℕ
  pub failed_at : ℕ
  pub ready_at : ℕ
  pub clock : Text → Clock

abbrev pub commit_snapshot : Commit → CommitSnapshot
commit_snapshot c = record {
  oid = c.oid;
  subject = c.subject;
  author_name = c.author_name;
  author_email = c.author_email;
  authored_at = c.authored_at;
}

-- `_ = …`: an error leaves the database as it was.
abbrev pub ignoring : Result Db → Db → Db
ignoring (ok db') db = db'
ignoring (err e) db = db

module _ (w : World) where
  -- Whether a branch is taken as a fast-forward of its mailbox.
  abbrev pub ancestor : Text → Option Mailbox → Branch → Bool
  ancestor path none branch = false
  ancestor path (some old) branch =
      beq old.head_oid branch.oid || w.git.is_ancestor path old.head_oid branch.oid

  -- defaultMappingChanged
  abbrev pub mapping_changed : Text → Text → Text → Bool
  mapping_changed old_default default branch =
      not (beq old_default [])
      && not (beq old_default default)
      && (beq branch old_default || beq branch default)

  -- `revision`, where the old head counts only for a fast-forward.
  abbrev pub revision : Bool → Option Mailbox → Branch → Text
  revision true (some old) branch =
      if beq old.head_oid branch.oid then [] else old.head_oid ++ codes ".." ++ branch.oid
  revision true none branch = branch.oid
  revision false old branch = branch.oid

  abbrev pub new_commits : Text → Text → Answer (List Commit)
  new_commits path revision = if beq revision [] then got [] else w.git.commits path revision

  abbrev pub snapshot_of : Bool → Branch → Answer (List Commit) → Answer BranchSnapshot
  snapshot_of forward branch (failed m) = failed m
  snapshot_of forward branch (got cs) = got (record {
    name = branch.name;
    head_oid = branch.oid;
    fast_forward = forward;
    new_commits = map commit_snapshot cs;
  })

  -- One round of the loop over the branches.
  unfoldable pub snapshot : Text → Text → Text → List Mailbox → Branch → Answer BranchSnapshot
  unfolding old_mailbox
  snapshot path old_default default existing branch =
      let old = old_mailbox branch.name existing in
      let forward =
        ancestor path old branch && not (mapping_changed old_default default branch.name) in
      snapshot_of forward branch (new_commits path (revision forward old branch))

  unfoldable pub snapshots :
      Text → Text → Text → List Mailbox → List Branch → Answer (List BranchSnapshot)
  snapshots path old_default default existing [] = got []
  snapshots path old_default default existing (b ∷ bs) =
      elim (snapshot path old_default default existing b) [
        | failed m ↦ failed m
        | got s ↦ elim (snapshots path old_default default existing bs) [
          | failed m ↦ failed m
          | got ss ↦ got (s ∷ ss)
        ]
      ]

  -- recordRefreshError, and the two copies of it in `refresh`.
  unfoldable pub record_refresh_error :
      Text → Repository → Text → RefreshError → Db → Option RefreshError × Db
  unfolding update_repository_status
  record_refresh_error id repo fingerprint e db = (
    some e,
    ignoring
        (update_repository_status w.failed_at id (codes "error") (w.describe e) repo.default_branch
          fingerprint false db)
        db,
  )

  -- The write that closes a refresh.
  abbrev pub written_ready : Result Db → Db → Option RefreshError × Db
  written_ready (err e) db = (some (store_error e), db)
  written_ready (ok db') db = (none, db')

  abbrev pub ready : Text → Text → Text → Db → Option RefreshError × Db
  ready id fingerprint default db =
      if w.ended at_ready
      then (some context_ended, db)
      else written_ready
          (update_repository_status w.ready_at id (codes "ready") [] default fingerprint true db) db

  abbrev pub replaced : Text → Repository → Text → Text → Result Db → Db → Option RefreshError × Db
  replaced id repo fingerprint default (err e) db =
      record_refresh_error id repo fingerprint (store_error e) db
  replaced id repo fingerprint default (ok db') db = ready id fingerprint default db'

  abbrev pub with_snapshots :
      Text → Repository → Text → Text → Answer (List BranchSnapshot) → Db → Option RefreshError × Db
  with_snapshots id repo fingerprint default (failed m) db =
      record_refresh_error id repo fingerprint (git_error m) db
  with_snapshots id repo fingerprint default (got ss) db =
      if w.ended at_replace
      then record_refresh_error id repo fingerprint context_ended db
      else replaced id repo fingerprint default (replace_mailboxes w.clock id default ss db) db

  abbrev pub with_branches :
      Text → Repository → Text → Text → Answer (List Branch) → Db → Option RefreshError × Db
  with_branches id repo fingerprint default (failed m) db =
      record_refresh_error id repo fingerprint (git_error m) db
  with_branches id repo fingerprint default (got bs) db =
      if w.ended at_mailboxes
      then record_refresh_error id repo fingerprint context_ended db
      else with_snapshots id repo fingerprint default
          (snapshots (w.repository_path id) repo.default_branch default (mailboxes id db) bs) db

  abbrev pub with_default : Text → Repository → Text → Answer Text → Db → Option RefreshError × Db
  with_default id repo fingerprint (failed m) db =
      record_refresh_error id repo fingerprint (git_error m) db
  with_default id repo fingerprint (got default) db =
      with_branches id repo fingerprint default (w.git.branches (w.repository_path id)) db

  abbrev pub with_mirror :
      Text → Repository → Auth → Text × Option Text → Db → Option RefreshError × Db
  with_mirror id repo auth (fingerprint, some m) db =
      record_refresh_error id repo fingerprint (git_error m) db
  with_mirror id repo auth (fingerprint, none) db =
      with_default id repo fingerprint
        (w.git.default_branch repo.remote_url (w.repository_path id) repo.auth_type auth) db

  -- The status while git runs.
  unfoldable pub mark : Text → Repository → Db → Db
  unfolding update_repository_status
  mark id repo db =
      let status =
        if w.git.exists (w.repository_path id) then codes "fetching" else codes "cloning" in
      if w.ended at_mark
      then db
      else ignoring
          (update_repository_status w.marked_at id status [] repo.default_branch
            repo.ssh_host_fingerprint false db)
          db

  abbrev clone_or_fetch : Text → Repository → Auth → Text × Option Text
  clone_or_fetch id repo auth =
      let path = w.repository_path id in
      if w.git.exists path
      then w.git.fetch repo.remote_url path repo.auth_type auth
      else w.git.clone repo.remote_url path repo.auth_type auth

  abbrev pub credentials : Repository → Option Auth
  credentials repo = elim (w.decrypt repo.auth_secret) [ none ↦ none | some s ↦ w.decode_auth s ]

  abbrev pub with_auth : Text → Repository → Option Auth → Db → Option RefreshError × Db
  with_auth id repo none db = (some bad_secret, db)
  with_auth id repo (some auth) db =
      with_mirror id repo auth (clone_or_fetch id repo auth) (mark id repo db)

  abbrev pub with_row : Text → Result Repository → Db → Option RefreshError × Db
  with_row id (err e) db = (some (store_error e), db)
  with_row id (ok repo) db =
      if beq repo.status (codes "deleting")
      then (some being_deleted, db)
      else with_auth id repo (credentials repo) db

  -- refresh: its error, if there is one, and the database that it leaves.
  unfoldable pub refresh : Text → Db → Option RefreshError × Db
  refresh id db =
      if w.ended at_row then (some context_ended, db) else with_row id (repository id db) db
