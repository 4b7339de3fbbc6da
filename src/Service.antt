-- ===== src/Service.antt =====
-- internal/service/repository.go: what the service uses of package secure, and its operations on
-- the rows of the store.
pub mod Slug
pub mod Address
pub mod Credential
pub mod Add
pub mod Calls
pub mod Message
pub mod Refresh
pub mod Start
pub mod Tests
use git2imap.Base.{◌≡◌, Bool, true, Option, some, Text}

-- Encrypt, Decrypt, HashPassword and VerifyPassword, with the random input of a call fixed.
pub record Secrets : Type 0 where
  pub encrypt : Text → Option Text
  pub decrypt : Text → Option Text
  pub hash : Text → Option Text
  pub verify : Text → Text → Bool
  pub decrypt-encrypt :
      (plain cipher : Text) → encrypt plain ≡ some cipher → decrypt cipher ≡ some plain
  pub verify-hash : (password h : Text) → hash password ≡ some h → verify h password ≡ true
