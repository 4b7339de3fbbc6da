-- ===== src/Service/Add/Tests.antt =====
-- internal/service/repository.go: a repository that is added next to another.
use git2imap.Base.{none, some, [], ◌∷◌, codes, beq, true}
use git2imap.Store.Replace.Tests.{before}
use git2imap.Service.Tests.{secrets}
use git2imap.Web.Actions.{AddRepositoryInput}
use git2imap.Service.Add.{Setting, add_repository}
use git2imap.Service.Add.Login.{Good, add_repository-Good}

abbrev setting : Setting
setting = record {
  unicode = λ c. c;
  scp_pattern = λ s. true;
  parse = λ s. none;
  equal_fold = beq;
  host = codes "mail.test";
  encode_auth = λ a. a.password;
  secrets = secrets;
  encrypt_auth = λ plain. some (b'e' ∷ plain);
  drawn = some (codes "secret");
  id = codes "0123-4567";
  now = 100;
}

abbrev entered : AddRepositoryInput
entered = record {
  name = codes " Tools ";
  remote_url = codes "git@example.test:tools.git";
  auth_type = codes "http";
  username = codes "me";
  password = codes "token";
  private_key = [];
  passphrase = [];
}

add_repository-Good_example : Good setting entered before (add_repository setting entered before)
add_repository-Good_example = add_repository-Good setting entered secrets.decrypt-encrypt before
