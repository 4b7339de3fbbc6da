-- ===== src/Git/Runs/Tests.antt =====
-- internal/gitbackend/git.go: a clone over SSH whose first move fails, and the key of its host.
use git2imap.Base.{
  ℕ, zero, suc, ◌<◌, ◌≡◌, ◌↔◌, Option, none, some, [], ◌∷◌, ◌++◌, Text, codes, beq, false,
  if◌then◌else◌,
}
use git2imap.Git.{got}
use git2imap.Git.Command.Tests.{a_host}
use git2imap.Git.Runs.{System, rename_with_retry}
use git2imap.Git.Runs.Retry.{SucceedsAt, rename_with_retry_lem}
use git2imap.Git.Runs.Publish.{Content, Disk, other}

abbrev key_line : Text
key_line = codes "host key"

abbrev a_system : System
a_system = record {
  host = a_host;
  ssh_command = codes "ssh";
  known_hosts = codes "/data/known_hosts";
  clone_timeout = 0;
  timeout = 60;
  unicode = λ c. c;
  scp_host = λ raw. some (codes "[host]");
  parse = λ raw. none;
  hostname = λ u. u.host;
  port = λ u. [];
  remote_text = λ e. codes "remote";
  command_text = λ e. codes "command";
  after_text = λ n. codes "60s";
  parent = λ path. codes "/cache";
  make_parent = none;
  make_temp = got (codes "/cache/r.git.tmp-1");
  run = λ limit c. record {
    output = [];
    printed = [];
    complaints = [];
    problem = none;
    exited = false;
    ended = none;
  };
  rename = λ n. elim n [ zero ↦ some (codes "busy") | suc k ↦ none ];
  cancelled = λ n. none;
  known_hosts_text = got key_line;
  next_known_host = λ text. some (codes "host" ∷ [], codes "key", []);
  fingerprint = λ key. codes "SHA256:" ++ key;
  parse_time = λ t. none;
}

-- The directories before the clone: another repository.
abbrev a_disk : Disk
a_disk path = if beq path (codes "/cache/q.git") then some other else none

-- Every removal succeeds.
abbrev removes : Text → Option Content
removes path = none

rename_with_retry_lem_example :
    (rename_with_retry a_system ≡ none) ↔ ((k : ℕ) × (k < 20) × SucceedsAt a_system 0 k)
rename_with_retry_lem_example = rename_with_retry_lem a_system
