-- ===== src/Service/Refresh/Outcome.antt =====
-- internal/service/repository.go: what `refresh` leaves behind, with an error and without one.
use git2imap.Base.{
  subst, ◌≡◌, refl, sym, ap, ◌∙◌, true, false, Option, none, some, List, [], Text, codes, beq,
  Bool-cases, inl, inr,
}
use git2imap.Store.{Repository, BranchSnapshot, Db, Result, ok, err}
use git2imap.Store.Repositories.{repository, update_repository_status}
use git2imap.Store.Mailboxes.{mailboxes}
use git2imap.Store.Replace.{replace_mailboxes}
use git2imap.Store.Replace.Tables.{replace_mailboxes-repositories}
use git2imap.Git.{Auth, Answer, Branch, failed, got}
use mathlib.Core.Bool.{false≢true}
use git2imap.Service.Refresh.{
  being_deleted, bad_secret, store_error, git_error, context_ended, written_ready, replaced,
  with_snapshots, with_branches, with_default, with_mirror, with_auth, with_row, World,
  RefreshError, at_row, at_mailboxes, at_replace, at_ready, snapshots, record_refresh_error, mark,
  clone_or_fetch, credentials, refresh,
}
use git2imap.Service.Refresh.Status.{
  SameMail, SameMail-refl, SameMail-trans, Known, repository-Known,
  update_repository_status-SameMail, update_repository_status-ok, if-elim, mark-SameMail,
  mark-Known,
}

module _ (w : World) (id : Text) where
  -- A refresh that ends well: what git answered, and the rows of `ReplaceMailboxes` in between.
  pub record Refreshed (after marked : Db) (repo : Repository) : Type 0 where
    pub auth : Auth
    pub default : Text
    pub fingerprint : Text
    pub branches : List Branch
    pub taken : List BranchSnapshot
    pub mid : Db
    pub default_is :
        w.git.default_branch repo.remote_url (w.repository_path id) repo.auth_type auth
        ≡ got default
    pub branches_are : w.git.branches (w.repository_path id) ≡ got branches
    pub taken_are :
        snapshots w
          (w.repository_path id)
          repo.default_branch
          default
          (mailboxes id marked)
          branches
        ≡ got taken
    pub replaced_is : replace_mailboxes w.clock id default taken marked ≡ ok mid
    pub after_is :
        update_repository_status w.ready_at id (codes "ready") [] default fingerprint true mid
        ≡ ok after

  -- Both ends of a refresh, told from the database `marked` that it works on.
  pub data Ends (repo : Repository) (marked : Db) : Option RefreshError × Db → Type 0 where
    badly :
        (e : RefreshError) {after : Db}
        → (w.ended at_ready ≡ false → SameMail after marked)
        → Ends repo marked (some e, after)
    well : {after : Db} → Refreshed after marked repo → Ends repo marked (none, after)

  module _ (repo : Repository) (marked : Db) (known : Known id marked) where
    record_refresh_error-Ends :
        (fingerprint : Text) (e : RefreshError)
        → Ends repo marked (record_refresh_error w id repo fingerprint e marked)
    unfolding record_refresh_error
    record_refresh_error-Ends fingerprint e = badly e (λ _.
        update_repository_status-SameMail w.failed_at id (codes "error") (w.describe e)
          repo.default_branch fingerprint false marked)

    module _ (auth : Auth) (fingerprint default : Text) (bs : List Branch)
        (ss : List BranchSnapshot)
        (default_is : w.git.default_branch repo.remote_url
            (w.repository_path id)
            repo.auth_type
            auth
          ≡ got default)
        (branches_are : w.git.branches (w.repository_path id) ≡ got bs)
        (taken_are : snapshots w
            (w.repository_path id)
            repo.default_branch
            default
            (mailboxes id marked)
            bs
          ≡ got ss) where
      written_ready-Ends :
          (mid : Db)
          → replace_mailboxes w.clock id default ss marked ≡ ok mid
          → Ends repo marked (
              written_ready w
                (update_repository_status w.ready_at id
                  (codes "ready")
                  []
                  default
                  fingerprint
                  true
                  mid)
                mid)
      written_ready-Ends mid h =
          let there : Known id mid =
            rw (replace_mailboxes-repositories w.clock id default ss marked h) known in
          let (after, e) =
            update_repository_status-ok w.ready_at id (codes "ready") [] default fingerprint true
              mid there in
          rw e (
            well (record {
              auth = auth;
              default = default;
              fingerprint = fingerprint;
              branches = bs;
              taken = ss;
              mid = mid;
              default_is = default_is;
              branches_are = branches_are;
              taken_are = taken_are;
              replaced_is = h;
              after_is = e;
            }))

      replaced-Ends :
          (r : Result Db)
          → replace_mailboxes w.clock id default ss marked ≡ r
          → Ends repo marked (replaced w id repo fingerprint default r marked)
      replaced-Ends (err e) h = record_refresh_error-Ends fingerprint (store_error e)
      replaced-Ends (ok mid) h = elim (Bool-cases (w.ended at_ready)) [
        | inl t ↦ rw t (badly context_ended (λ f. absurd (false≢true (sym f ∙ t))))
        | inr t ↦ rw t (written_ready-Ends mid h)
      ]

    module _ (auth : Auth) (fingerprint default : Text)
        (default_is : w.git.default_branch repo.remote_url
            (w.repository_path id)
            repo.auth_type
            auth
          ≡ got default) where
      with_snapshots-Ends :
          (bs : List Branch) (a : Answer (List BranchSnapshot))
          → w.git.branches (w.repository_path id) ≡ got bs
          → snapshots w (w.repository_path id) repo.default_branch default (mailboxes id marked) bs
            ≡ a
          → Ends repo marked (with_snapshots w id repo fingerprint default a marked)
      with_snapshots-Ends bs (failed m) g h = record_refresh_error-Ends fingerprint (git_error m)
      with_snapshots-Ends bs (got ss) g h =
          if-elim (Ends repo marked) (w.ended at_replace)
            (record_refresh_error-Ends fingerprint context_ended)
            (replaced-Ends auth fingerprint default bs ss default_is g h _ refl)

      with_branches-Ends :
          (a : Answer (List Branch))
          → w.git.branches (w.repository_path id) ≡ a
          → Ends repo marked (with_branches w id repo fingerprint default a marked)
      with_branches-Ends (failed m) g = record_refresh_error-Ends fingerprint (git_error m)
      with_branches-Ends (got bs) g =
          if-elim (Ends repo marked) (w.ended at_mailboxes)
            (record_refresh_error-Ends fingerprint context_ended) (with_snapshots-Ends bs _ g refl)

    with_default-Ends :
        (auth : Auth) (fingerprint : Text) (a : Answer Text)
        → w.git.default_branch repo.remote_url (w.repository_path id) repo.auth_type auth ≡ a
        → Ends repo marked (with_default w id repo fingerprint a marked)
    with_default-Ends auth fingerprint (failed m) g =
        record_refresh_error-Ends fingerprint (git_error m)
    with_default-Ends auth fingerprint (got default) g =
        with_branches-Ends auth fingerprint default g _ refl

    with_mirror-Ends :
        (auth : Auth) (a : Text × Option Text)
        → Ends repo marked (with_mirror w id repo auth a marked)
    with_mirror-Ends auth (fingerprint, some m) =
        record_refresh_error-Ends fingerprint (git_error m)
    with_mirror-Ends auth (fingerprint, none) = with_default-Ends auth fingerprint _ refl

  -- A refresh stops before it writes, or it works on a row.
  pub data Run (before : Db) : Option RefreshError × Db → Type 0 where
    stopped : (e : RefreshError) → Run before (some e, before)
    worked :
        (repo : Repository) {out : Option RefreshError × Db}
        → repository id before ≡ ok repo
        → Ends repo (mark w id repo before) out
        → Run before out

  with_auth-Run :
      (repo : Repository) (db : Db) (a : Option Auth)
      → repository id db ≡ ok repo
      → Run db (with_auth w id repo a db)
  with_auth-Run repo db none h = stopped bad_secret
  with_auth-Run repo db (some auth) h = worked repo h (
      with_mirror-Ends repo (mark w id repo db)
        (mark-Known w id repo db (repository-Known id db {repo = repo} h)) auth
        (clone_or_fetch w id repo auth))

  with_row-Run :
      (db : Db) (r : Result Repository) → repository id db ≡ r → Run db (with_row w id r db)
  with_row-Run db (err e) h = stopped (store_error e)
  with_row-Run db (ok repo) h =
      if-elim (Run db) (beq repo.status (codes "deleting")) (stopped being_deleted)
        (with_auth-Run repo db (credentials w repo) h)

  pub refresh-Run : (db : Db) → Run db (refresh w id db)
  unfolding refresh
  refresh-Run db =
      if-elim (Run db) (w.ended at_row) (stopped context_ended) (with_row-Run db _ refl)

  Run-SameMail :
      {db : Db} {out : Option RefreshError × Db} {e : RefreshError}
      → w.ended at_ready ≡ false
      → Run db out
      → out.0 ≡ some e
      → SameMail out.1 db
  Run-SameMail h (stopped e) is = SameMail-refl _
  Run-SameMail h (worked repo r (badly e same)) is =
      SameMail-trans (same h) (mark-SameMail w id repo _)
  Run-SameMail h (worked repo r (well done)) is = cc

  Run-Refreshed :
      {db : Db} {out : Option RefreshError × Db}
      → Run db out
      → out.0 ≡ none
      → (repo : Repository) × (repository id db ≡ ok repo)
        × Refreshed out.1 (mark w id repo db) repo
  Run-Refreshed (stopped e) is = cc
  Run-Refreshed (worked repo r (badly e same)) is = cc
  Run-Refreshed (worked repo r (well done)) is = (repo, r, done)

-- A refresh that returns an error, at whatever step, leaves every mailbox and every message as it
-- was, if the context has not ended just before its last write.
pub refresh-SameMail :
    (w : World) (id : Text) (db : Db) {e : RefreshError} {db' : Db}
    → w.ended at_ready ≡ false
    → refresh w id db ≡ (some e, db')
    → SameMail db' db
refresh-SameMail w id db {e} {db'} h is =
    subst (λ o. SameMail o.1 db) is
      (Run-SameMail w id h (refresh-Run w id db) (ap (λ (o : Option RefreshError × Db). o.0) is))

ok-eq {ℓ} : {A : Type ℓ} {x y : A} → ok x ≡ ok y → x ≡ y
ok-eq {x = x} h = ap (λ r. elim r [ err e ↦ x | ok z ↦ z ]) h

-- The parts of a refresh that ends well, told from the database that it starts from.
pub refresh-Refreshed :
    (w : World) (id : Text) (repo : Repository) (db : Db) {db' : Db}
    → repository id db ≡ ok repo
    → refresh w id db ≡ (none, db')
    → Refreshed w id db' (mark w id repo db) repo
refresh-Refreshed w id repo db there done =
    let (r, is, parts) =
      Run-Refreshed w id (refresh-Run w id db) (ap (λ (o : Option RefreshError × Db). o.0) done) in
    let same : r ≡ repo = ok-eq (sym is ∙ there) in
    subst (λ d. Refreshed w id d (mark w id repo db) repo)
      (ap (λ (o : Option RefreshError × Db). o.1) done)
      (subst (λ q. Refreshed w id (refresh w id db).1 (mark w id q db) q) same parts)
