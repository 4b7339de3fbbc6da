-- ===== src/Git/Command/Tests.antt =====
-- internal/gitbackend/git.go: a fetch over HTTP, and one over SSH without a key.
use git2imap.Base.{◌≡◌, refl, true, false, some, List, [], ◌∷◌, Text, codes, beq}
use git2imap.Git.{Auth}
use git2imap.Git.Command.{
  Host, Command, command, write_askpass, http_env, with_askpass, left_behind,
}

abbrev pub a_host : Host
a_host = record {
  windows = false;
  environ = (codes "HOME", codes "/root") ∷ [];
  executable = some (codes "/bin/git2imap");
  askpass_file = some (codes "/tmp/askpass");
  askpass_written = true;
  askpass_closed = true;
  askpass_mode = true;
  known_hosts_dir = true;
  key_file = some (codes "/tmp/key");
  key_mode = true;
  key_written = true;
}

abbrev pub someone : Auth
someone = record {
  username = codes "me";
  password = codes "token";
  private_key = [];
  passphrase = [];
}

abbrev args : List Text
args = codes "remote" ∷ codes "update" ∷ codes "--prune" ∷ []

abbrev fetching : Command
fetching = record {
  args = codes "-C" ∷ codes "/cache/repo.git" ∷ args;
  env = http_env a_host (codes "ssh") (codes "/data/known_hosts") (codes "/tmp/askpass") someone;
}

-- The clean-up does not run when the key is missing: the script stays.
script_left :
    left_behind (
      command a_host
        (codes "ssh")
        (codes "/known_hosts")
        (codes "/repo.git")
        args
        (codes "ssh")
        someone)
    ≡ codes "/tmp/askpass" ∷ []
unfolding command write_askpass with_askpass beq left_behind
script_left = refl
