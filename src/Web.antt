-- ===== src/Web.antt =====
-- internal/web/server.go: the state of the server, what the handlers read of a request, and their
-- answers. Times of the server are in nanoseconds, those of the store in seconds.
pub mod Limit
pub mod Flash
pub mod Access
pub mod Login
pub mod Actions
pub mod Pages
pub mod Tests
use git2imap.Store.{Repository}
use git2imap.Base.{ℕ, Bool, Option, List, Text, ◌/◌}

abbrev pub second : ℕ
second = 1_000_000_000

abbrev pub unix : ℕ → ℕ
unix now = now / second

pub record FlashData : Type 0 where
  pub message : Text
  pub mail_password : Text
  pub expires_at : ℕ

-- The two maps that the server guards by locks.
pub record Server : Type 0 where
  pub attempts : Text → List ℕ
  pub flashes : Text → Option FlashData

pub record Request : Type 0 where
  pub remote_ip : Text
  pub cookie : Option Text
  -- whether ParseForm succeeds, and FormValue
  pub form_ok : Bool
  pub form : Text → Text
  pub path : Text
  pub id : Text

pub data Response : Type 0 where
  redirect : Text → Response
  error_page : ℕ → Response
  page : Text → ℕ → Response
  not_found : Response
  -- a redirect that sets the session cookie
  signed_in : Text → Response
  -- a redirect to the login page that clears it
  signed_out : Response
  -- the page of a repository, with the message and the mail password that it shows
  detail : Repository → Text → Text → Response
