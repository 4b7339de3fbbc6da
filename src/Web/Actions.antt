-- ===== src/Web/Actions.antt =====
-- internal/web/server.go: the handlers behind the login. Adding, refreshing and deleting a
-- repository are operations of the service, an interface here; the credentials are Service's.
pub mod Guard
use git2imap.Base.{
  ℕ, Bool, true, false, not, Option, none, some, [], ◌++◌, Text, codes, if◌then◌else◌,
}
use git2imap.Store
use git2imap.Store.{Repository, Db, ok, err}
use git2imap.Store.Repositories.{repository}
use git2imap.Service.{Secrets}
use git2imap.Service.Credential.{rotate_mail_credential, reveal_mail_credential}
use git2imap.Web.{Request, Response, redirect, error_page, page, not_found, FlashData, Server, unix}
use git2imap.Web.Access.{check_csrf, auth, Handler}
use git2imap.Web.Flash.{set_flash}
use git2imap.Web.Login.{logout}

-- service.AddRepositoryInput
pub record AddRepositoryInput : Type 0 where
  pub name : Text
  pub remote_url : Text
  pub auth_type : Text
  pub username : Text
  pub password : Text
  pub private_key : Text
  pub passphrase : Text

-- What the handlers call of the service: the id and the mail password of a new repository, a
-- refresh, and a deletion, which tells whether it succeeded; with the database that each leaves.
pub record Operations : Type 0 where
  pub add : AddRepositoryInput → Db → Option (Text × Text) × Db
  pub refresh : Text → Db → Bool × Db
  pub delete : Text → Db → Bool × Db

-- The readings of the clock in one request, and what RandomToken draws.
pub record Times : Type 0 where
  pub auth : ℕ
  pub csrf : ℕ
  pub store : ℕ
  pub flash : ℕ
  pub drawn : Option Text

abbrev pub repository_path : Text → Text
repository_path id = codes "/repos/" ++ id

abbrev pub input : Request → AddRepositoryInput
input r = record {
  name = r.form (codes "name");
  remote_url = r.form (codes "remote_url");
  auth_type = r.form (codes "auth_type");
  username = r.form (codes "git_username");
  password = r.form (codes "git_password");
  private_key = r.form (codes "private_key");
  passphrase = r.form (codes "passphrase");
}

-- A flash before setFlash gives it its time.
abbrev pub flash_of : Text → Text → FlashData
flash_of message password = record { message = message; mail_password = password; expires_at = 0 }

-- The POST routes behind the login.
pub data Action : Type 0 where
  logout_action add_action refresh_action reveal_action rotate_action delete_action : Action

-- `verify` is VerifyPassword on the hash of the administrator's password.
module _ (token_hash : Text → Text) (verify : Text → Bool) (secrets : Secrets)
    (ops : Operations) where
  abbrev added : Times → Request → Server → Option (Text × Text) → Db → Response × Server × Db
  added t r s none db = (page (codes "new") 400, s, db)
  added t r s (some (id, password)) db = (
    redirect (repository_path id),
    set_flash token_hash t.flash r
        (flash_of (codes "Repository registered. Cloning has started.") password) db s,
    db,
  )

  -- addRepository
  unfoldable pub add_repository : Times → Handler token_hash
  add_repository t r s db =
      let (new, db') = ops.add (input r) db in
      if not (check_csrf token_hash t.csrf r db)
      then (error_page 403, s, db)
      else if not r.form_ok
      then (error_page 400, s, db)
      else added t r s new db'

  -- refreshRepository; the refresh runs in the background, here as if it ran at once.
  unfoldable pub refresh_repository : Times → Handler token_hash
  refresh_repository t r s db =
      if not (check_csrf token_hash t.csrf r db) then (error_page 403, s, db) else (
        redirect (repository_path r.id ++ codes "?message=Refresh+started"),
        s,
        (ops.refresh r.id db).1,
      )

  abbrev accessed : Times → Text → Request → Server → Option Text → Db → Response × Server × Db
  accessed t message r s none db = (error_page 500, s, db)
  accessed t message r s (some password) db = (
    redirect (repository_path r.id),
    set_flash token_hash t.flash r (flash_of message password) db s,
    db,
  )

  -- The rest of credentialAction, for a repository that exists.
  unfoldable pub access : Times → Bool → Handler token_hash
  access t true r s db =
      let (password, db') = rotate_mail_credential secrets (unix t.store) t.drawn r.id db in
      accessed t (codes "Credential rotated. Existing clients must be updated.") r s password db'
  access t false r s db =
      accessed t (codes "Credential revealed.") r s (reveal_mail_credential secrets r.id db) db

  -- credentialAction
  unfoldable pub credential_action : Times → Bool → Handler token_hash
  credential_action t rotate r s db =
      let granted : Response × Server × Db = elim (repository r.id db) [
        | err e ↦ (not_found, s, db)
        | ok repo ↦ access t rotate r s db
      ] in
      if not (check_csrf token_hash t.csrf r db)
      then (error_page 403, s, db)
      else if not r.form_ok
      then (error_page 401, s, db)
      else if not (verify (r.form (codes "admin_password")))
      then (error_page 401, s, db)
      else granted

  -- deleteRepository
  unfoldable pub delete_repository : Times → Handler token_hash
  delete_repository t r s db =
      let (good, db') = ops.delete r.id db in
      if not (check_csrf token_hash t.csrf r db)
      then (error_page 403, s, db)
      else if good
      then (redirect (codes "/?message=Repository+deleted"), s, db')
      else (error_page 500, s, db')

  abbrev pub handler : Action → Times → Handler token_hash
  handler logout_action t = logout token_hash verify [] t.csrf
  handler add_action t = add_repository t
  handler refresh_action t = refresh_repository t
  handler reveal_action t = credential_action t false
  handler rotate_action t = credential_action t true
  handler delete_action t = delete_repository t

  -- The routes that `New` registers, each behind `auth`.
  unfoldable pub serve : Action → Times → Handler token_hash
  serve a t = auth token_hash t.auth (handler a t)
