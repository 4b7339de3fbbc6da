-- ===== src/Main/Tests.antt =====
-- cmd/git2imap/main.go: a start with the default configuration, on a store with an account of the
-- old format, one that is being deleted, and one without a mirror.
use git2imap.Base.{
  ◌≡◌, refl, true, false, none, some, List, [], ◌∷◌, ◌++◌, Text, codes, beq, subst, AllPairs,
}
use git2imap.Store.{Repository, Db}
use git2imap.Config.{Config}
use git2imap.Config.Tests.{config, decode, empty_environment}
use git2imap.Config.Load.{load}
use git2imap.Listen.{Net}
use git2imap.Service.Start.Tests.{a_place, some_accounts, new_account}
use git2imap.Main.{Outside, Started, go, run}
use git2imap.Main.Ready.{go-injective, IsReady, run-IsReady}

abbrev a_net : Net
a_net = record {
  Certificate = Text;
  load_key_pair = λ cert key. some cert;
  split_host_port = λ addr. some ([], addr);
  parse_ip = λ host. none;
}

abbrev outside : Outside
outside = record {
  environment = empty_environment;
  decode = decode;
  net = a_net;
  parse_flags = none;
  read_config = go config;
  make_dir = λ path. none;
  open_store = λ cfg. go some_accounts;
  new_box = λ cfg. none;
  place = λ cfg. a_place;
  hash = λ password. some (codes "hash");
  tls_problem = codes "tls";
  hash_problem = codes "hash";
}

abbrev started : Started outside
started = record {
  config = config;
  db = record some_accounts { repositories = new_account ∷ []; mailboxes = []; messages = [] };
  refreshing = codes "b" ∷ [];
  admin_hash = codes "hash";
  imap =
      record {
        addr = codes ":1143";
        implicit = false;
        tls = some (codes "cert.pem");
        insecure_auth = false;
      }
      ∷ record {
        addr = codes ":1993";
        implicit = true;
        tls = some (codes "cert.pem");
        insecure_auth = false;
      }
      ∷ [];
  smtp = record { addr = codes ":1025"; implicit = false; tls = none; insecure_auth = false } ∷ [];
  web = (codes ":8080", false) ∷ [];
}

run_starts : run outside ≡ go started
unfolding run git2imap.Config.Validate.validate beq git2imap.Config.Load.apply_env
    git2imap.Base.contains_any
run_starts = refl

run-IsReady_example : IsReady outside started
unfolding beq
run-IsReady_example = run-IsReady outside (λ cfg path. refl) unique run_starts
  where
    unique :
        (cfg : Config) (db : Db)
        → go some_accounts ≡ go db
        → AllPairs (λ a b. beq b.id a.id ≡ false) db.repositories
    unique cfg db e =
        subst (λ (d : Db). AllPairs (λ (a b : Repository). beq b.id a.id ≡ false) d.repositories)
          (go-injective e) ((refl, (refl, tt)), ((refl, tt), (tt, tt)))
