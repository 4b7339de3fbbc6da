-- ===== src/Config/Tests.antt =====
-- internal/config/config.go: the configuration of the tests, with the defaults of the program.
use git2imap.Base.{◌≡◌, ◌↔◌, false, none, some, [], Text, codes, Option}
use git2imap.Config.{pos, Config}
use git2imap.Config.Validate.{validate, IsValid, validate_iff}
use git2imap.Config.Load.{Environment}

abbrev pub config : Config
config = record {
  public_host = codes "mail.example.test";
  data_dir = codes "data";
  cache_dir = codes "cache";
  master_key = codes "12345678901234567890123456789012";
  admin = record { username = codes "admin"; password = codes "secret" };
  web = record {
    addr = codes ":8080";
    tls_addr = [];
    tls_cert = [];
    tls_key = [];
    cookie_name = codes "git2imap_session";
    cookie_secure = false;
  };
  imap = record {
    addr = codes ":1143";
    tls_addr = codes ":1993";
    tls_cert = codes "cert.pem";
    tls_key = codes "key.pem";
    allow_insecure_auth = false;
    idle_fetch_interval = pos 60;
  };
  smtp = record {
    addr = codes ":1025";
    tls_addr = [];
    tls_cert = [];
    tls_key = [];
    max_message = pos 1024;
    allow_insecure_auth = false;
  };
  git = record {
    command = codes "git";
    ssh_command = codes "ssh";
    clone_timeout = pos 900;
    fetch_timeout = pos 120;
  };
  log = record { format = codes "text"; level = codes "info" };
}

abbrev pub decode : Text → Option Text
decode s = some s

abbrev pub empty_environment : Environment
empty_environment = record {
  getenv = λ key. [];
  parse_bool = λ s. none;
  parse_duration = λ s. none;
  parse_int = λ s. none;
}

validate_iff_example : (validate decode config ≡ none) ↔ IsValid decode config
validate_iff_example = validate_iff decode config
