-- ===== src/Store/Sound.antt =====
-- internal/store/store.go: what the schema demands of the database, for all tables together, and the
-- calls of the package that write to it.
pub mod Rows
pub mod Transaction
pub mod Statements
pub mod Replaced
pub mod Calls
pub mod Tests
use git2imap.Base.{ℕ, ◌≡◌, Bool, true, false, List, [], Text, any, beq, ◌==◌, All, AllPairs}
use git2imap.Store.{Repository, BranchSnapshot, Db, ok}
use git2imap.Store.Repositories.{
  repository_conflict, create_repository, update_repository_status, update_mail_credential,
  set_deleting, delete_repository,
}
use git2imap.Store.Sessions.{create_session, delete_session, purge_expired_sessions}
use git2imap.Store.Mailboxes.{message_conflict, update_message_cache}
use git2imap.Store.Replace.{Clock, replace_mailboxes}
use git2imap.Store.Replace.Outcome.{DistinctNames}
use git2imap.Store.Replace.Aside.{Tidy}

abbrev pub has_repository : Text → Db → Bool
has_repository id db = any (λ r. beq r.id id) db.repositories

abbrev pub has_mailbox : ℕ → Db → Bool
has_mailbox id db = any (λ m. m.id == id) db.mailboxes

-- The references between the tables lead somewhere, and the keys are unique.
pub record Linked (db : Db) : Type 0 where
  pub homed : All (λ m. has_repository m.repository_id db ≡ true) db.mailboxes
  pub lodged : All (λ s. has_mailbox s.mailbox_id db ≡ true) db.messages
  pub numbered : AllPairs (λ a b. message_conflict b a ≡ false) db.messages

pub record Sound (db : Db) : Type 0 where
  pub known : AllPairs (λ a b. repository_conflict b a ≡ false) db.repositories
  pub tidy : Tidy db
  pub linked : Linked db

abbrev pub empty : Db
empty = record {
  repositories = [];
  mailboxes = [];
  messages = [];
  sessions = [];
  last_mailbox_id = 0;
}

-- The databases that the calls of the package lead to, from the one that the schema creates. A call
-- that fails leaves its database.
pub data Reach : Db → Type 0 where
  start : Reach empty
  created : (repo : Repository) {a b : Db} → Reach a → create_repository repo a ≡ ok b → Reach b
  status_updated :
      (now : ℕ) (id status message default fingerprint : Text) (fetched : Bool) {a b : Db}
      → Reach a
      → update_repository_status now id status message default fingerprint fetched a ≡ ok b
      → Reach b
  credential_updated :
      (now : ℕ) (id hash cipher : Text) {a : Db}
      → Reach a
      → Reach (update_mail_credential now id hash cipher a)
  marked_deleting : (now : ℕ) (id : Text) {a : Db} → Reach a → Reach (set_deleting now id a)
  deleted : (id : Text) {a : Db} → Reach a → Reach (delete_repository id a)
  replaced :
      (clock : Text → Clock) (id default : Text) (bs : List BranchSnapshot) {a b : Db}
      → Reach a
      → DistinctNames bs
      → replace_mailboxes clock id default bs a ≡ ok b
      → Reach b
  cached :
      (id uid size : ℕ) (path : Text) {a : Db}
      → Reach a
      → Reach (update_message_cache id uid size path a)
  logged_in :
      (id_hash csrf : Text) (expires : ℕ) {a b : Db}
      → Reach a
      → create_session id_hash csrf expires a ≡ ok b
      → Reach b
  logged_out : (id_hash : Text) {a : Db} → Reach a → Reach (delete_session id_hash a)
  purged : (now : ℕ) {a : Db} → Reach a → Reach (purge_expired_sessions now a)
