-- ===== src/Git/Command.antt =====
-- internal/gitbackend/git.go: `command`, which prepares a run of git with its credentials, and
-- cmd/git2imap/main.go: `runAskpass`, which hands them to git.
pub mod Env
pub mod Secrets
pub mod Tests
use git2imap.Base.{
  ℕ, Bool, not, ◌&&◌, ◌||◌, select, any, Option, none, some, List, [], ◌∷◌, ◌++◌, Text, codes, beq,
  contains, to_lower, if◌then◌else◌,
}
use git2imap.Git.{Auth}
use git2imap.Git.Quote.{replace_all, quote_shell_arg}

-- quoteSSHArg
unfoldable pub quote_ssh_arg : Text → Text
unfolding replace_all
quote_ssh_arg value = b'"' ∷ replace_all (b'"' ∷ []) (b'\\' ∷ b'"' ∷ []) value ++ b'"' ∷ []

-- What the operating system answers. A temporary file is named by its path, and the three steps on
-- it are its creation, its mode and its text.
pub record Host : Type 0 where
  pub windows : Bool
  pub environ : List (Text × Text)
  pub executable : Option Text
  pub askpass_file : Option Text
  pub askpass_written : Bool
  pub askpass_closed : Bool
  pub askpass_mode : Bool
  pub known_hosts_dir : Bool
  pub key_file : Option Text
  pub key_mode : Bool
  pub key_written : Bool

pub data CommandError : Type 0 where
  system_error key_required unknown_auth : CommandError

pub record Command : Type 0 where
  pub args : List Text
  pub env : List (Text × Text)

-- What `command` gives, with the temporary files that it leaves, and those that its clean-up
-- removes.
pub record Prepared : Type 0 where
  pub command : Option Command
  pub error : Option CommandError
  pub files : List Text
  pub cleanup : List Text

-- The text of the askpass script.
unfoldable pub askpass_body : Bool → Text → Text
unfolding quote_shell_arg
askpass_body windows executable =
    if windows
    then codes "@echo off\r\n\"" ++ executable ++ codes "\" git-askpass %*\r\n"
    else codes "#!/bin/sh\nexec " ++ quote_shell_arg executable ++ codes " git-askpass \"$@\"\n"

abbrev pub with_path : Text → List Text → List Text
with_path repo_path args = if beq repo_path [] then args else codes "-C" ∷ repo_path ∷ args

abbrev refused : CommandError → List Text → List Text → Prepared
refused e files cleanup = record {
  command = none;
  error = some e;
  files = files;
  cleanup = cleanup;
}

abbrev made : List Text → List (Text × Text) → List Text → Prepared
made args env files = record {
  command = some (record { args = args; env = env });
  error = none;
  files = files;
  cleanup = files;
}

-- strings.Join with a space.
abbrev pub joined : List Text → Text
joined [] = []
joined (word ∷ []) = word
joined (word ∷ next ∷ words) = word ++ 32 ∷ joined (next ∷ words)

module _ (host : Host) (ssh_command known_hosts : Text) where
  -- writeAskpass: the path of the script, and none with every error; what was written is removed.
  unfoldable pub write_askpass : Option Text
  write_askpass = elim host.askpass_file [
    | none ↦ none
    | some name ↦
        if host.askpass_written && host.askpass_closed && host.askpass_mode then some name else none
  ]

  abbrev base : List (Text × Text)
  base = host.environ ++ (codes "GIT_TERMINAL_PROMPT", codes "0") ∷ []

  unfoldable pub ssh_line : Text → Text
  unfolding quote_ssh_arg
  ssh_line key = joined (
      quote_ssh_arg ssh_command
      ∷ codes "-i"
      ∷ quote_ssh_arg key
      ∷ codes "-o"
      ∷ codes "IdentitiesOnly=yes"
      ∷ codes "-o"
      ∷ codes "StrictHostKeyChecking=accept-new"
      ∷ codes "-o"
      ∷ (codes "UserKnownHostsFile=" ++ quote_ssh_arg known_hosts)
      ∷ codes "-o"
      ∷ (codes "GlobalKnownHostsFile="
          ++ quote_ssh_arg (if host.windows then codes "NUL" else codes "/dev/null"))
      ∷ [])

  unfoldable pub http_env : Text → Auth → List (Text × Text)
  http_env askpass auth =
      base
      ++ (codes "GIT_ASKPASS", askpass)
        ∷ (codes "GIT2IMAP_ASKPASS_MODE", codes "http")
        ∷ (codes "GIT2IMAP_ASKPASS_USERNAME", auth.username)
        ∷ (codes "GIT2IMAP_ASKPASS_PASSWORD", auth.password)
        ∷ []

  unfoldable pub ssh_env : Text → Text → Auth → List (Text × Text)
  unfolding ssh_line
  ssh_env askpass key auth =
      base
      ++ (codes "GIT_SSH_COMMAND", ssh_line key)
        ∷ (codes "SSH_ASKPASS", askpass)
        ∷ (codes "SSH_ASKPASS_REQUIRE", codes "force")
        ∷ (codes "GIT2IMAP_ASKPASS_MODE", codes "ssh")
        ∷ (codes "GIT2IMAP_ASKPASS_PASSWORD", auth.passphrase)
        ∷ (if host.windows then [] else (codes "DISPLAY", codes "git2imap") ∷ [])

  -- The case "ssh", from the file of the key on.
  unfoldable pub with_key : List Text → Text → Auth → Option Text → Prepared
  unfolding ssh_env
  with_key args askpass auth none = refused system_error (askpass ∷ []) (askpass ∷ [])
  with_key args askpass auth (some key) =
      if host.key_mode && host.key_written
      then made args (ssh_env askpass key auth) (askpass ∷ key ∷ [])
      else refused system_error (askpass ∷ []) (askpass ∷ [])

  unfoldable pub with_askpass : List Text → Text → Auth → Text → Prepared
  unfolding http_env with_key
  with_askpass args auth_type auth askpass =
      if beq auth_type [] || beq auth_type (codes "none")
      then made args base (askpass ∷ [])
      else if beq auth_type (codes "http")
      then made args (http_env askpass auth) (askpass ∷ [])
      else if beq auth_type (codes "ssh")
      then (if beq auth.private_key []
          then refused key_required (askpass ∷ []) (askpass ∷ [])
          else if host.known_hosts_dir
          then with_key args askpass auth host.key_file
          else refused system_error (askpass ∷ []) (askpass ∷ []))
      else refused unknown_auth (askpass ∷ []) (askpass ∷ [])

  -- command
  unfoldable pub command : Text → List Text → Text → Auth → Prepared
  unfolding write_askpass with_askpass
  command repo_path args auth_type auth = elim host.executable [
    | none ↦ refused system_error [] []
    | some executable ↦ elim write_askpass [
      | none ↦ refused system_error [] []
      | some askpass ↦ with_askpass (with_path repo_path args) auth_type auth askpass
    ]
  ]

-- The callers: the clean-up is deferred behind the test of the error, so that it does not run with
-- an error. What is left on the disk after the call, if every removal of the clean-up succeeds: it
-- discards their errors (`_ = os.Remove`).
unfoldable pub left_behind : Prepared → List Text
unfolding select any
left_behind p = elim p.error [
  | none ↦ select (λ f. not (any (beq f) p.cleanup)) p.files
  | some e ↦ p.files
]

-- os.Getenv: the last value that is given counts.
unfoldable pub getenv : Text → List (Text × Text) → Text → Text
getenv name [] value = value
getenv name ((n, v) ∷ env) value = getenv name env (if beq n name then v else value)

-- runAskpass: what it prints to git.
unfoldable pub run_askpass : (ℕ → ℕ) → List (Text × Text) → Text → Text
unfolding getenv contains to_lower
run_askpass unicode env prompt =
    if beq (getenv (codes "GIT2IMAP_ASKPASS_MODE") env []) (codes "http")
      && contains (to_lower unicode prompt) (codes "username")
    then getenv (codes "GIT2IMAP_ASKPASS_USERNAME") env []
    else getenv (codes "GIT2IMAP_ASKPASS_PASSWORD") env []
