-- ===== src/Web/Actions/Guard.antt =====
-- internal/web/server.go: no handler behind the login acts without a session, its CSRF token and,
-- for a credential, the administrator's password.
use git2imap.Base.{
  ◌≡◌, ◌≢◌, ◌⊎◌, inl, inr, ap, Bool, true, false, Option, none, some, Text, codes, Bool-cases,
  Option-cases,
}
use git2imap.Store
use git2imap.Store.{Db}
use git2imap.Service.{Secrets}
use git2imap.Web.{Request, Response, redirect, error_page, Server}
use git2imap.Web.Access.{session, check_csrf, auth}
use git2imap.Web.Login.{logout}
use git2imap.Web.Actions.{
  Operations, Times, Action, logout_action, add_action, refresh_action, reveal_action,
  rotate_action, delete_action, add_repository, refresh_repository, credential_action,
  delete_repository, handler, serve,
}

module _ (token_hash : Text → Text) (verify : Text → Bool) (secrets : Secrets)
    (ops : Operations) where
  handler_refuses :
      (a : Action) (t : Times) (r : Request) (s : Server) (db : Db)
      → check_csrf token_hash t.csrf r db ≡ false
      → handler token_hash verify secrets ops a t r s db ≡ (error_page 403, s, db)
  unfolding logout add_repository refresh_repository credential_action delete_repository
  handler_refuses logout_action t r s db h = rw h
  handler_refuses add_action t r s db h = rw h
  handler_refuses refresh_action t r s db h = rw h
  handler_refuses reveal_action t r s db h = rw h
  handler_refuses rotate_action t r s db h = rw h
  handler_refuses delete_action t r s db h = rw h

  credential_refuses :
      (t : Times) (rotate : Bool) (r : Request) (s : Server) (db : Db)
      → check_csrf token_hash t.csrf r db ≡ true
      → verify (r.form (codes "admin_password")) ≡ false
      → credential_action token_hash verify secrets ops t rotate r s db ≡ (error_page 401, s, db)
  unfolding credential_action
  credential_refuses t rotate r s db h k = elim (Bool-cases r.form_ok) [
    | inl e ↦ rw (h, e, k)
    | inr e ↦ rw (h, e)
  ]

  -- The two routes that show a mail password ask for the administrator's.
  abbrev pub Confirmed : Action → Request → Type 0
  Confirmed logout_action r = Unit
  Confirmed add_action r = Unit
  Confirmed refresh_action r = Unit
  Confirmed reveal_action r = verify (r.form (codes "admin_password")) ≡ true
  Confirmed rotate_action r = verify (r.form (codes "admin_password")) ≡ true
  Confirmed delete_action r = Unit

  -- An answer with a server and a database that are not the old ones.
  abbrev pub Changes : Response × Server × Db → Server → Db → Type 0
  Changes x s db = (x.1 ≢ s) ⊎ (x.2 ≢ db)

  unchanged :
      (x : Response × Server × Db) (p : Response) (s : Server) (db : Db)
      → x ≡ (p, s, db)
      → ¬ Changes x s db
  unchanged x p s db e (inl h) = h (ap (λ y. y.1) e)
  unchanged x p s db e (inr h) = h (ap (λ y. y.2) e)

  handler_lem :
      (a : Action) (t : Times) (r : Request) (s : Server) (db : Db)
      → check_csrf token_hash t.csrf r db ≡ true
      → Changes (handler token_hash verify secrets ops a t r s db) s db
      → Confirmed a r
  handler_lem logout_action t r s db h c = tt
  handler_lem add_action t r s db h c = tt
  handler_lem refresh_action t r s db h c = tt
  handler_lem reveal_action t r s db h c =
      elim (Bool-cases (verify (r.form (codes "admin_password")))) [
        | inl e ↦ e
        | inr e ↦ absurd (unchanged _ _ s db (credential_refuses t false r s db h e) c)
      ]
  handler_lem rotate_action t r s db h c =
      elim (Bool-cases (verify (r.form (codes "admin_password")))) [
        | inl e ↦ e
        | inr e ↦ absurd (unchanged _ _ s db (credential_refuses t true r s db h e) c)
      ]
  handler_lem delete_action t r s db h c = tt

  -- What `auth` lets through.
  serve_by_session :
      (a : Action) (t : Times) (r : Request) (s : Server) (db : Db) (o : Option Store.Session)
      → session token_hash t.auth r db ≡ o
      → serve token_hash verify secrets ops a t r s db ≡ elim o as (λ _. Response × Server × Db) [
        | none ↦ (redirect (codes "/login"), s, db)
        | some _ ↦ handler token_hash verify secrets ops a t r s db
      ]
  unfolding serve auth
  serve_by_session a t r s db none e = rw (serve, auth, e)
  serve_by_session a t r s db (some sess) e = rw (serve, auth, e)

  -- A request to a POST route behind the login that changes the server or the database has a
  -- session and its CSRF token in the form, and, if it is to reveal or to rotate a credential, the
  -- administrator's password.
  pub serve_lem :
      (a : Action) (t : Times) (r : Request) (s : Server) (db : Db)
      → Changes (serve token_hash verify secrets ops a t r s db) s db
      → ((sess : Store.Session) × (session token_hash t.auth r db ≡ some sess))
        × (check_csrf token_hash t.csrf r db ≡ true)
        × Confirmed a r
  serve_lem a t r s db c = elim (Option-cases (session token_hash t.auth r db)) [
    | inl e ↦ absurd (
        unchanged (serve token_hash verify secrets ops a t r s db) _ s db
          (serve_by_session a t r s db none e) c)
    | inr (sess, e) ↦
        let c' : Changes (handler token_hash verify secrets ops a t r s db) s db =
          rw (serve_by_session a t r s db (some sess) e) at c in
        elim (Bool-cases (check_csrf token_hash t.csrf r db)) [
          | inl h ↦ ((sess, e), h, handler_lem a t r s db h c')
          | inr h ↦ absurd (unchanged _ _ s db (handler_refuses a t r s db h) c')
        ]
  ]
