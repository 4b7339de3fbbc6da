-- ===== src/Service/Start/Tests.antt =====
-- internal/service/repository.go: a start with an account of the old format, one that is being
-- deleted, and one without a mirror.
use git2imap.Base.{false, none, [], ◌∷◌, codes}
use git2imap.Store.{Repository, Db}
use git2imap.Store.Replace.Tests.{a_repository, before}
use git2imap.Service.Start.{Place}

abbrev pub a_place : Place
a_place = record {
  now = 300;
  unicode = λ c. c;
  repository_path = λ id. id;
  messages_path = λ id. id;
  remove_all = λ path. none;
  exists = λ path. false;
}

abbrev pub new_account : Repository
new_account = record a_repository {
  id = codes "b";
  name = codes "b";
  mail_username = codes "git2imap+b@host";
}

abbrev pub some_accounts : Db
some_accounts = record before {
  repositories =
      a_repository
      ∷ record a_repository {
        id = codes "a";
        name = codes "a";
        mail_username = codes "git2imap+a@host";
        status = codes "deleting";
      }
      ∷ new_account
      ∷ [];
}
