-- ===== src/Store.antt =====
-- internal/store/models.go and the tables of the schema in internal/store/store.go: the rows, and
-- the database as one list of rows for each table. Times are seconds since 1970.
pub mod Repositories
pub mod Mailboxes
pub mod Replace
pub mod Sessions
pub mod Sound
use git2imap.Base.{ℕ, Bool, Option, List, Text}

pub record Repository : Type 0 where
  pub id : Text
  pub name : Text
  pub remote_url : Text
  pub auth_type : Text
  pub auth_secret : Text
  pub status : Text
  pub status_message : Text
  pub default_branch : Text
  pub mail_username : Text
  pub mail_password_hash : Text
  pub mail_password_cipher : Text
  pub ssh_host_fingerprint : Text
  pub created_at : ℕ
  pub updated_at : ℕ
  pub last_fetch_at : Option ℕ

pub record Mailbox : Type 0 where
  pub id : ℕ
  pub repository_id : Text
  pub branch : Text
  pub name : Text
  pub uid_validity : ℕ
  pub next_uid : ℕ
  pub head_oid : Text

pub record Message : Type 0 where
  pub mailbox_id : ℕ
  pub uid : ℕ
  pub commit_oid : Text
  pub subject : Text
  pub author_name : Text
  pub author_email : Text
  pub authored_at : ℕ
  pub size : ℕ
  pub cache_path : Text

pub record Session : Type 0 where
  pub id : Text
  pub csrf_token : Text
  pub expires_at : ℕ

-- One commit of a branch, as the refresh hands it over.
pub record CommitSnapshot : Type 0 where
  pub oid : Text
  pub subject : Text
  pub author_name : Text
  pub author_email : Text
  pub authored_at : ℕ

pub record BranchSnapshot : Type 0 where
  pub name : Text
  pub head_oid : Text
  pub fast_forward : Bool
  pub new_commits : List CommitSnapshot

-- `last_mailbox_id` is the counter of AUTOINCREMENT: the largest id that was ever given.
pub record Db : Type 0 where
  pub repositories : List Repository
  pub mailboxes : List Mailbox
  pub messages : List Message
  pub sessions : List Session
  pub last_mailbox_id : ℕ

pub data StoreError : Type 0 where
  constraint no_rows : StoreError

-- What a statement returns.
pub data Result {ℓ} (Row : Type ℓ) : Type ℓ where
  err : StoreError → Result Row
  ok : Row → Result Row

infixl 5 ◌>>=◌
abbrev pub ◌>>=◌ {ℓ κ} : {X : Type ℓ} {Y : Type κ} → Result X → (X → Result Y) → Result Y
err problem >>= next = err problem
ok found >>= next = next found
