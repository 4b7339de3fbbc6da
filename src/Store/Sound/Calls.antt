-- ===== src/Store/Sound/Calls.antt =====
-- internal/store/store.go: every call of the package keeps the database sound.
use git2imap.Base.{ℕ, ◌≡◌, refl, some, Text, arith, subst, if◌then◌else◌}
use git2imap.Store.{Repository, Db, ok}
use git2imap.Store.Repositories.{
  update_repository, update_repository_status, update_mail_credential, set_deleting,
}
use git2imap.Store.Sessions.{create_session, delete_session, purge_expired_sessions}
use git2imap.Store.Sound.{
  Sound, Reach, start, created, status_updated, credential_updated, marked_deleting, deleted,
  replaced, cached, logged_in, logged_out, purged,
}
use git2imap.Store.Sound.Statements.{
  Sound-update_repository, Sound-create_repository, Sound-delete_repository, Sound-rest,
  Sound-update_message_cache,
}
use git2imap.Store.Sound.Replaced.{Sound-replace_mailboxes}

created_session :
    (id_hash csrf : Text) (expires : ℕ) (a : Db) {b : Db}
    → create_session id_hash csrf expires a ≡ ok b
    → (b.repositories ≡ a.repositories)
      × (b.mailboxes ≡ a.mailboxes)
      × (b.messages ≡ a.messages)
      × (b.last_mailbox_id ≡ a.last_mailbox_id)
unfolding create_session
created_session id_hash csrf expires a h = (ground arith, ground arith, ground arith, ground arith)

-- Every database that the calls of the package lead to, from the empty one and with branches of
-- distinct names, is sound: the ids, names and user names of repositories are unique, each mailbox
-- belongs to a repository and each message to a mailbox that is there, ids of mailboxes, branches in
-- a repository, and uids and commits in a mailbox are unique, AUTOINCREMENT is past all ids, and no
-- mailbox is left under the name of an update.
pub Reach-Sound : {db : Db} → Reach db → Sound db
unfolding update_repository_status update_mail_credential set_deleting delete_session
    purge_expired_sessions
Reach-Sound start = record {
  known = tt;
  tidy = record { apart = tt; below = tt; settled = tt };
  linked = record { homed = tt; lodged = tt; numbered = tt };
}
Reach-Sound (created repo {a} r h) = Sound-create_repository repo a h (Reach-Sound r)
Reach-Sound (status_updated now id status message default fingerprint fetched {a} {b} r h) =
    let f = λ (x : Repository). record x {
      status = status;
      status_message = message;
      default_branch = default;
      ssh_host_fingerprint = fingerprint;
      updated_at = now;
      last_fetch_at = if fetched then some now else x.last_fetch_at;
    } in
    let is : update_repository id f a ≡ b = ground arith in
    subst Sound is (Sound-update_repository id f a (λ x. (refl, refl, refl)) (Reach-Sound r))
Reach-Sound (credential_updated now id hash cipher {a} r) =
    Sound-update_repository id _ a (λ x. (refl, refl, refl)) (Reach-Sound r)
Reach-Sound (marked_deleting now id {a} r) =
    Sound-update_repository id _ a (λ x. (refl, refl, refl)) (Reach-Sound r)
Reach-Sound (deleted id {a} r) = Sound-delete_repository id a (Reach-Sound r)
Reach-Sound (replaced clock id default bs {a} r distinct h) =
    Sound-replace_mailboxes clock id default bs a distinct h (Reach-Sound r)
Reach-Sound (cached id uid size path {a} r) =
    Sound-update_message_cache id uid size path a (Reach-Sound r)
Reach-Sound (logged_in id_hash csrf expires {a} {b} r h) =
    let same = created_session id_hash csrf expires a h in
    Sound-rest same.0 same.1 same.2 same.3 (Reach-Sound r)
Reach-Sound (logged_out id_hash {a} r) = Sound-rest refl refl refl refl (Reach-Sound r)
Reach-Sound (purged now {a} r) = Sound-rest refl refl refl refl (Reach-Sound r)
