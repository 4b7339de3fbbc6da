-- ===== src/Web/Pages.antt =====
-- internal/web/server.go: the GET routes behind the login.
use git2imap.Base.{
  ℕ, ◌≡◌, refl, not, Option, none, some, [], Text, codes, beq, if◌then◌else◌, arith, Option-cases,
  inl, inr,
}
use git2imap.Store.{Repository, Db, ok, err}
use git2imap.Store.Repositories.{repository}
use git2imap.Web.{Request, Response, redirect, page, not_found, detail, FlashData, Server}
use git2imap.Web.Access.{session, auth, Handler}
use git2imap.Web.Flash.{pop_flash, take_flash}
use git2imap.Web.Actions.{repository_path}

abbrev pub shown : Repository → Option FlashData → Text → Response
shown repo none message = detail repo message []
shown repo (some f) message = detail repo f.message f.mail_password

-- The routes; a path that no other route takes is the dashboard's.
pub data Page : Type 0 where
  dashboard_page repos_page new_page detail_page action_page : Page

module _ (token_hash : Text → Text) where
  -- dashboard; what the page lists is read from the database.
  unfoldable pub dashboard : Handler token_hash
  dashboard r s db =
      if not (beq r.path (codes "/"))
      then (not_found, s, db)
      else (page (codes "dashboard") 200, s, db)

  -- newRepositoryPage
  unfoldable pub new_repository_page : Handler token_hash
  new_repository_page r s db = (page (codes "new") 200, s, db)

  -- redirectDashboard
  unfoldable pub redirect_dashboard : Handler token_hash
  redirect_dashboard r s db = (redirect (codes "/"), s, db)

  -- redirectRepositoryAction
  unfoldable pub redirect_repository_action : Handler token_hash
  redirect_repository_action r s db = elim (repository r.id db) [
    | err e ↦ (redirect (codes "/"), s, db)
    | ok repo ↦ (redirect (repository_path r.id), s, db)
  ]

  -- repositoryDetail; `message` is that of the query.
  unfoldable pub repository_detail : ℕ → Text → Handler token_hash
  repository_detail now message r s db = elim (repository r.id db) [
    | err e ↦ (not_found, s, db)
    | ok repo ↦
        let (flash, s') = pop_flash token_hash now r db s in (shown repo flash message, s', db)
  ]

  abbrev pub view : Page → ℕ → Text → Handler token_hash
  view dashboard_page now message = dashboard
  view repos_page now message = redirect_dashboard
  view new_page now message = new_repository_page
  view detail_page now message = repository_detail now message
  view action_page now message = redirect_repository_action

  -- The GET routes, each behind `auth`, which reads the clock first.
  unfoldable pub show : Page → ℕ → ℕ → Text → Handler token_hash
  show p start now message = auth token_hash start (view p now message)

  repository_detail-keeps :
      (now : ℕ) (message : Text) (r : Request) (s : Server) (db : Db)
      → ((repository_detail now message r s db).2 ≡ db)
        × ((repository_detail now message r s db).1.attempts ≡ s.attempts)
  unfolding repository_detail pop_flash take_flash
  repository_detail-keeps now message r s db = ground arith

  view_keeps :
      (p : Page) (now : ℕ) (message : Text) (r : Request) (s : Server) (db : Db)
      → ((view p now message r s db).2 ≡ db) × ((view p now message r s db).1.attempts ≡ s.attempts)
  unfolding dashboard redirect_dashboard new_repository_page redirect_repository_action
  view_keeps dashboard_page now message r s db = ground arith
  view_keeps repos_page now message r s db = (refl, refl)
  view_keeps new_page now message r s db = (refl, refl)
  view_keeps detail_page now message r s db = repository_detail-keeps now message r s db
  view_keeps action_page now message r s db = ground arith

  -- No GET route behind the login changes the database or the attempts on record, with a session or
  -- without.
  show_keeps :
      (p : Page) (start now : ℕ) (message : Text) (r : Request) (s : Server) (db : Db)
      → ((show p start now message r s db).2 ≡ db)
        × ((show p start now message r s db).1.attempts ≡ s.attempts)
  unfolding show auth
  show_keeps p start now message r s db = elim (Option-cases (session token_hash start r db)) [
    | inl e ↦ rw (e, show, auth) (refl, refl)
    | inr (sess, e) ↦ rw (e, show, auth) (view_keeps p now message r s db)
  ]
