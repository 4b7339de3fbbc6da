-- ===== src/Web/Access.antt =====
-- internal/web/server.go: sessions, the login check in front of the handlers, and CSRF tokens.
use git2imap.Base.{ℕ, Bool, false, Option, none, some, Text, codes, beq, if◌then◌else◌}
use git2imap.Store
use git2imap.Store.{Db, Result, ok, err}
use git2imap.Store.Sessions
use git2imap.Web.{Request, Response, redirect, Server, unix}

module _ (token_hash : Text → Text) where
  -- session: the row of the cookie's token, if it has not expired.
  unfoldable pub session : ℕ → Request → Db → Option Store.Session
  session now r db = elim r.cookie [
    | none ↦ none
    | some value ↦ elim (Sessions.session (unix now) (token_hash value) db) [
      | ok s ↦ some s
      | err e ↦ none
    ]
  ]

  -- checkCSRF
  unfoldable pub check_csrf : ℕ → Request → Db → Bool
  unfolding session
  check_csrf now r db = elim (session now r db) [
    | none ↦ false
    | some s ↦ if r.form_ok then beq s.csrf_token (r.form (codes "csrf")) else false
  ]

  abbrev pub Handler : Type 0
  Handler = Request → Server → Db → Response × Server × Db

  -- auth
  unfoldable pub auth : ℕ → Handler → Handler
  unfolding session
  auth now next r s db = elim (session now r db) [
    | none ↦ (redirect (codes "/login"), s, db)
    | some _ ↦ next r s db
  ]
