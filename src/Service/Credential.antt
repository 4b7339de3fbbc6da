-- ===== src/Service/Credential.antt =====
-- internal/service/repository.go: the mail credential of a repository.
use git2imap.Base.{
  ℕ, ◌≡◌, refl, Bool, not, ◌&&◌, Option, none, some, List, [], ◌∷◌, map, Text, codes, beq, beq_iff,
  find, arith, if◌then◌else◌,
}
use git2imap.Store.{Repository, Db, Result, ok, err}
use git2imap.Store.Repositories.{found, repository, repository_by_username, update_mail_credential}
use git2imap.Service.{Secrets}

-- Whether a login is let through, given the row of its username.
abbrev pub checked : Secrets → Text → Result Repository → Option Repository
checked secrets password (err e) = none
checked secrets password (ok repo) =
    if secrets.verify repo.mail_password_hash password then some repo else none

-- Authenticate
unfoldable pub authenticate : Secrets → Text → Text → Db → Option Repository
authenticate secrets username password db =
    checked secrets password (repository_by_username username db)

abbrev pub revealed : Secrets → Result Repository → Option Text
revealed secrets (err e) = none
revealed secrets (ok repo) = secrets.decrypt repo.mail_password_cipher

-- RevealMailCredential
unfoldable pub reveal_mail_credential : Secrets → Text → Db → Option Text
reveal_mail_credential secrets id db = revealed secrets (repository id db)

-- The hash and the encryption of the new password, either of which may fail.
abbrev stored : ℕ → Text → Text → Option Text → Option Text → Db → Option Text × Db
stored now id password none cipher db = (none, db)
stored now id password (some hash) none db = (none, db)
stored now id password (some hash) (some cipher) db =
    (some password, update_mail_credential now id hash cipher db)

-- RotateMailCredential: `drawn` is what RandomToken gives.
unfoldable pub rotate_mail_credential : Secrets → ℕ → Option Text → Text → Db → Option Text × Db
rotate_mail_credential secrets now none id db = (none, db)
rotate_mail_credential secrets now (some password) id db =
    stored now id password (secrets.hash password) (secrets.encrypt password) db

-- A test that the update does not change finds the same row, updated.
find-map_if :
    (id : Text) (f : Repository → Repository) (q : Repository → Bool) (rs : List Repository)
    {r : Repository}
    → ((x : Repository) → q (f x) ≡ q x)
    → find q rs ≡ some r
    → r.id ≡ id
    → find q (map (λ x. if beq x.id id then f x else x) rs) ≡ some (f r)
unfolding find
find-map_if id f q [] keeps h e = cc
find-map_if id f q (x ∷ rs) {r} keeps h e =
    ground (arith, keeps x, beq_iff x.id id, find-map_if id f q rs {r = r} keeps)

found_inv : (o : Option Repository) {r : Repository} → found o ≡ ok r → o ≡ some r
found_inv none h = cc
found_inv (some x) h = ground arith

-- The new row of the repository.
abbrev renewed : ℕ → Text → Text → Repository → Repository
renewed now hash cipher r = record r {
  mail_password_hash = hash;
  mail_password_cipher = cipher;
  updated_at = now;
}

abbrev Works : Secrets → Text → Text → Text → Db → Type 0
Works secrets id username password db =
    ((repo : Repository) × (authenticate secrets username password db ≡ some repo) × (repo.id ≡ id))
    × (reveal_mail_credential secrets id db ≡ some password)

module _ (secrets : Secrets) (now : ℕ) (id username password : Text) (db : Db)
    (by_name by_id : Repository) (named : repository_by_username username db ≡ ok by_name)
    (known : repository id db ≡ ok by_id) (same : by_name.id ≡ id) where
  update-Works :
      (hash cipher : Text)
      → secrets.hash password ≡ some hash
      → secrets.encrypt password ≡ some cipher
      → Works secrets id username password (update_mail_credential now id hash cipher db)
  unfolding authenticate reveal_mail_credential repository repository_by_username
      update_mail_credential
  update-Works hash cipher hashed encrypted =
      let q =
        λ (r : Repository). beq r.mail_username username && not (beq r.status (codes "deleting")) in
      let a =
        find-map_if id (renewed now hash cipher) q db.repositories (λ x. refl) (found_inv _ named)
          same in
      let own = (find_id by_id db.repositories (found_inv _ known)) in
      let b =
        find-map_if id (renewed now hash cipher) (λ r. beq r.id id) db.repositories (λ x. refl)
          (found_inv _ known) own in
      (
        (renewed now hash cipher by_name, rw (a, secrets.verify-hash password hash hashed), same),
        rw (b, secrets.decrypt-encrypt password cipher encrypted),
      )
    where
      find_id :
          (r : Repository) (rs : List Repository) → find (λ x. beq x.id id) rs ≡ some r → r.id ≡ id
      find_id r [] h = cc
      find_id r (x ∷ rs) h = ground (arith, beq_iff x.id id, find_id r rs)

  stored-Works :
      (drawn : Text) (h c : Option Text)
      → secrets.hash drawn ≡ h
      → secrets.encrypt drawn ≡ c
      → (stored now id drawn h c db).0 ≡ some password
      → Works secrets id username password (stored now id drawn h c db).1
  stored-Works drawn none c eh ec r = cc
  stored-Works drawn (some hash) none eh ec r = cc
  stored-Works drawn (some hash) (some cipher) eh ec r =
      let is : drawn ≡ password = ground arith in
      update-Works hash cipher (rw (← is) eh) (rw (← is) ec)

  -- When a rotation returns a password, that password logs the repository in under its username
  -- afterwards, and is what the reveal of its credential returns.
  pub rotate_mail_credential_lem :
      (drawn : Option Text)
      → (rotate_mail_credential secrets now drawn id db).0 ≡ some password
      → ((repo : Repository) × (authenticate secrets username password
              (rotate_mail_credential secrets now drawn id db).1
            ≡ some repo)
          × (repo.id ≡ id))
        × (reveal_mail_credential secrets id (rotate_mail_credential secrets now drawn id db).1
            ≡ some password)
  unfolding rotate_mail_credential
  rotate_mail_credential_lem none r = cc
  rotate_mail_credential_lem (some drawn) r =
      stored-Works drawn (secrets.hash drawn) (secrets.encrypt drawn) refl refl r
