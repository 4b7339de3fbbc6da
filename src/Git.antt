-- ===== src/Git.antt =====
-- internal/gitbackend/git.go, by its parts, and the operations of `Backend` that the service calls.
pub mod Remote
pub mod Quote
pub mod Output
pub mod Command
pub mod Parse
pub mod Runs
pub mod Tests
use git2imap.Base.{ℕ, Bool, List, Option, Text}

pub record Auth : Type 0 where
  pub username : Text
  pub password : Text
  pub private_key : Text
  pub passphrase : Text

pub record Commit : Type 0 where
  pub oid : Text
  pub subject : Text
  pub author_name : Text
  pub author_email : Text
  pub authored_at : ℕ

pub record Branch : Type 0 where
  pub name : Text
  pub oid : Text

-- What a call of git gives: a value, or the text of an error.
pub data Answer {ℓ} (A : Type ℓ) : Type ℓ where
  failed : Text → Answer A
  got : A → Answer A

-- `clone` and `fetch` return the fingerprint of the host and the text of an error, if there is one.
-- The arguments are those of the methods, without the context.
pub record Backend : Type 0 where
  pub exists : Text → Bool
  pub clone : Text → Text → Text → Auth → Text × Option Text
  pub fetch : Text → Text → Text → Auth → Text × Option Text
  pub default_branch : Text → Text → Text → Auth → Answer Text
  pub branches : Text → Answer (List Branch)
  pub is_ancestor : Text → Text → Text → Bool
  pub commits : Text → Text → Answer (List Commit)
  pub render_commit : Text → Text → Answer Text
