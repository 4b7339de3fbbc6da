-- ===== src/Service/Add.antt =====
-- internal/service/repository.go: `AddRepository`.
pub mod Login
pub mod Tests
use git2imap.Base.{
  ℕ, Bool, ◌||◌, Option, none, some, [], ◌∷◌, Text, codes, beq, contains_any, trim_space,
  if◌then◌else◌,
}
use git2imap.Store.{Repository, Db, StoreError, Result, ok, err}
use git2imap.Store.Repositories.{create_repository}
use git2imap.Git.{Auth}
use git2imap.Git.Remote.{Url, RemoteError, validate_remote}
use git2imap.Service.{Secrets}
use git2imap.Service.Address.{available_mail_address}
use git2imap.Web.Actions.{AddRepositoryInput}

pub data AddError : Type 0 where
  name_required name_unsupported password_required key_required unknown_auth secret_failed :
      AddError
  bad_remote : RemoteError → AddError
  not_stored : StoreError → AddError

-- The row and the password of the new repository, or an error.
pub data Added : Type 0 where
  refused : AddError → Added
  added : Repository → Text → Added

-- What `AddRepository` takes from outside: package unicode, the SCP pattern, url.Parse and
-- strings.EqualFold, the host, the encoder of credentials, the secrets, of which the credentials
-- are encrypted by a call of their own, what RandomToken gives, the new id and the clock.
pub record Setting : Type 0 where
  pub unicode : ℕ → ℕ
  pub scp_pattern : Text → Bool
  pub parse : Text → Option Url
  pub equal_fold : Text → Text → Bool
  pub host : Text
  pub encode_auth : Auth → Text
  pub secrets : Secrets
  pub encrypt_auth : Text → Option Text
  pub drawn : Option Text
  pub id : Text
  pub now : ℕ

abbrev pub auth_of : AddRepositoryInput → Auth
auth_of input = record {
  username = input.username;
  password = input.password;
  private_key = input.private_key;
  passphrase = input.passphrase;
}

-- The switch on the type of authentication: the type that is stored, or an error.
unfoldable pub checked_auth : AddRepositoryInput → Option AddError × Text
checked_auth input =
    let kind = input.auth_type in
    if beq kind [] || beq kind (codes "none")
    then (none, codes "none")
    else if beq kind (codes "http")
    then (if beq input.password [] then (some password_required, kind) else (none, kind))
    else if beq kind (codes "ssh")
    then (if beq input.private_key [] then (some key_required, kind) else (none, kind))
    else (some unknown_auth, kind)

module _ (g : Setting) where
  -- The tests on the name and on the remote.
  unfoldable pub checked_names : Text → Text → Option AddError
  checked_names name remote =
      if beq name []
      then some name_required
      else if contains_any name (13 ∷ 10 ∷ 0 ∷ b'/' ∷ b'\\' ∷ [])
      then some name_unsupported
      else elim (validate_remote g.unicode g.scp_pattern g.parse remote) [
        | none ↦ none
        | some e ↦ some (bad_remote e)
      ]

  abbrev pub new_row : AddRepositoryInput → Text → Text → Text → Text → Db → Repository
  new_row input kind auth_cipher hash cipher db = record {
    id = g.id;
    name = trim_space input.name;
    remote_url = trim_space input.remote_url;
    auth_type = kind;
    auth_secret = auth_cipher;
    status = codes "pending";
    status_message = [];
    default_branch = [];
    mail_username =
        available_mail_address g.unicode g.equal_fold g.host (trim_space input.name) g.id db;
    mail_password_hash = hash;
    mail_password_cipher = cipher;
    ssh_host_fingerprint = [];
    created_at = g.now;
    updated_at = g.now;
    last_fetch_at = none;
  }

  abbrev pub stored : Repository → Text → Result Db → Db → Added × Db
  stored repo password (err e) db = (refused (not_stored e), db)
  stored repo password (ok db') db = (added repo password, db')

  -- The encryption of the password and the row.
  abbrev pub with_secrets :
      AddRepositoryInput → Text → Text → Text → Option Text → Option Text → Db → Added × Db
  with_secrets input kind auth_cipher password none cipher db = (refused secret_failed, db)
  with_secrets input kind auth_cipher password (some hash) none db = (refused secret_failed, db)
  with_secrets input kind auth_cipher password (some hash) (some cipher) db =
      let repo = new_row input kind auth_cipher hash cipher db in
      stored repo password (create_repository repo db) db

  abbrev pub with_password : AddRepositoryInput → Text → Option Text → Option Text → Db → Added × Db
  with_password input kind none drawn db = (refused secret_failed, db)
  with_password input kind (some auth_cipher) none db = (refused secret_failed, db)
  with_password input kind (some auth_cipher) (some password) db =
      with_secrets input kind auth_cipher password (g.secrets.hash password)
        (g.secrets.encrypt password) db

  abbrev pub with_auth : AddRepositoryInput → Option AddError × Text → Db → Added × Db
  with_auth input (some e, kind) db = (refused e, db)
  with_auth input (none, kind) db =
      with_password input kind (g.encrypt_auth (g.encode_auth (auth_of input))) g.drawn db

  abbrev pub with_names : AddRepositoryInput → Option AddError → Db → Added × Db
  with_names input (some e) db = (refused e, db)
  with_names input none db = with_auth input (checked_auth input) db

  -- AddRepository; the refresh that it starts in the background is the next call.
  unfoldable pub add_repository : AddRepositoryInput → Db → Added × Db
  unfolding checked_names checked_auth
  add_repository input db =
      with_names input (checked_names (trim_space input.name) (trim_space input.remote_url)) db
