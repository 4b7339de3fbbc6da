-- ===== src/Service/Tests.antt =====
-- internal/service/repository.go: names, addresses and credentials on one repository.
use git2imap.Base.{
  ℕ, ◌≡◌, ◌≤◌, ◌⊎◌, refl, true, false, none, some, Option, [], ◌∷◌, ◌++◌, Text, codes, beq,
  beq_refl, arith, length, any, All, find, to_lower,
}
use git2imap.Store.{Repository}
use git2imap.Store.Repositories.{list_repositories, repository, repository_by_username}
use git2imap.Store.Replace.Tests.{a_repository, before}
use git2imap.Service.{Secrets}
use git2imap.Service.Slug.{project_slug}
use git2imap.Service.Address.{
  mail_prefix, joined, local_part, available_mail_address, available_mail_address_lem,
}
use git2imap.Service.Credential.{
  authenticate, reveal_mail_credential, rotate_mail_credential, rotate_mail_credential_lem,
}

abbrev ascii : ℕ → ℕ
ascii c = c

abbrev name : Text
name = codes "My Project!"

available_mail_address_lem_example :
    let slug = project_slug ascii name in
    let low = to_lower ascii (codes "Mail.Test") in
    let plain = joined (mail_prefix ++ slug) low in
    let address =
      available_mail_address ascii beq (codes "Mail.Test") name (codes "0123-4567") before in
    (user : Text) × (address ≡ joined user low)
    × (length user ≤ 64)
    × (((address ≡ plain)
          × All (λ r. beq r.mail_username address ≡ false) (list_repositories before))
        ⊎ ((any (λ r. beq r.mail_username plain) (list_repositories before) ≡ true)
            × (user ≡ local_part true slug (codes "0123-4567"))))
available_mail_address_lem_example =
    available_mail_address_lem ascii beq (codes "Mail.Test") name (codes "0123-4567") before

abbrev pub behead : Text → Option Text
behead [] = none
behead (c ∷ plain) = some plain

pub behead_cons :
    (plain cipher : Text) → some (b'e' ∷ plain) ≡ some cipher → behead cipher ≡ some plain
behead_cons plain cipher e = ground (arith, e)

pub beq_cons :
    (password h : Text) → some (b'h' ∷ password) ≡ some h → beq h (b'h' ∷ password) ≡ true
beq_cons password h e = ground (arith, e, beq_refl (b'h' ∷ password))

-- A hash and a cipher that put one character in front.
abbrev pub secrets : Secrets
secrets = record {
  encrypt = λ plain. some (b'e' ∷ plain);
  decrypt = behead;
  hash = λ password. some (b'h' ∷ password);
  verify = λ h password. beq h (b'h' ∷ password);
  decrypt-encrypt = behead_cons;
  verify-hash = beq_cons;
}

rotate_mail_credential_lem_example :
    ((repo : Repository) × (authenticate secrets
          (codes "repo-user")
          (codes "new")
          (rotate_mail_credential secrets 300 (some (codes "new")) (codes "repo") before).1
        ≡ some repo)
      × (repo.id ≡ codes "repo"))
    × (reveal_mail_credential secrets
          (codes "repo")
          (rotate_mail_credential secrets 300 (some (codes "new")) (codes "repo") before).1
        ≡ some (codes "new"))
unfolding repository repository_by_username find beq rotate_mail_credential
rotate_mail_credential_lem_example =
    rotate_mail_credential_lem secrets 300 (codes "repo") (codes "repo-user") (codes "new") before
      a_repository a_repository refl refl refl (some (codes "new")) refl
