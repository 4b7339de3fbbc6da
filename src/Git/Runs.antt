-- ===== src/Git/Runs.antt =====
-- internal/gitbackend/git.go: the methods of `Backend`, on what git and the operating system answer.
pub mod Hosts
pub mod Retry
pub mod Publish
pub mod Filled
pub mod Tests
use git2imap.Base.{
  ℕ, zero, suc, Bool, true, false, not, ◌&&◌, ◌||◌, Option, none, some, List, [], ◌∷◌, ◌++◌, Text,
  codes, beq, any, has, trim, to_lower, length, if◌then◌else◌, ◌==◌,
}
use git2imap.Git.{Auth, Commit, Branch, Answer, failed, got}
use git2imap.Git.Remote.{Url, RemoteError, validate_remote}
use git2imap.Git.Output.{redactions, redact}
use git2imap.Git.Command.{Host, CommandError, Command, Prepared, command}
use git2imap.Git.Parse.{parse_branches, parse_commits, parse_default_branch, command_error}

-- What a run of git leaves: its output, the part on standard output and the part on standard error,
-- the error of `Run`, whether that is an exit code, and the error of the context.
pub record Run : Type 0 where
  pub output : Text
  pub printed : Text
  pub complaints : Text
  pub problem : Option Text
  pub exited : Bool
  pub ended : Option Text

-- The fields of `Backend` and what the libraries and the operating system answer. `rename n` and
-- `cancelled n` belong to the attempt `n` of renameWithRetry.
pub record System : Type 0 where
  pub host : Host
  pub ssh_command : Text
  pub known_hosts : Text
  pub clone_timeout : ℕ
  pub timeout : ℕ
  pub unicode : ℕ → ℕ
  pub scp_host : Text → Option Text
  pub parse : Text → Option Url
  pub hostname : Url → Text
  pub port : Url → Text
  pub remote_text : RemoteError → Text
  pub command_text : CommandError → Text
  pub after_text : ℕ → Text
  pub parent : Text → Text
  pub make_parent : Option Text
  pub make_temp : Answer Text
  pub run : ℕ → Command → Run
  pub rename : ℕ → Option Text
  pub cancelled : ℕ → Option Text
  pub known_hosts_text : Answer Text
  pub next_known_host : Text → Option (List Text × Text × Text)
  pub fingerprint : Text → Text
  pub parse_time : Text → Option ℕ

-- net.JoinHostPort
unfoldable pub join_host_port : Text → Text → Text
unfolding has
join_host_port host port =
    if has b':' host then b'[' ∷ host ++ (b']' ∷ b':' ∷ port) else host ++ (b':' ∷ port)

-- What a clone does to the disk, in order.
pub data Effect : Type 0 where
  made_parent made_temp removed : Text → Effect
  cloned : Text → Bool → Effect
  moved : Text → Text → Effect

module _ (s : System) where
  abbrev pub scp_pattern : Text → Bool
  scp_pattern raw = elim (s.scp_host raw) [ none ↦ false | some h ↦ true ]

  abbrev bracket : ℕ → Bool
  bracket c = c == b'[' || c == b']'

  -- RemoteHost, with none for `ok == false`.
  unfoldable pub remote_host : Text → Option (Text × Text)
  unfolding trim
  remote_host raw = elim (s.scp_host raw) [
    | some h ↦ some (trim bracket h, codes "22")
    | none ↦ elim (s.parse raw) [
      | none ↦ none
      | some u ↦
          if beq (to_lower s.unicode u.scheme) (codes "ssh") && not (beq (s.hostname u) [])
          then some (s.hostname u, if beq (s.port u) [] then codes "22" else s.port u)
          else none
    ]
  ]

  abbrev pub names_host : Text → Text → Text → Bool
  names_host host target known =
      beq known host || beq known target || beq known (b'[' ∷ target ++ b']' ∷ [])

  -- The loop over the lines of known_hosts.
  unfoldable pub find_key : ℕ → Text → Text → Text → Option Text
  unfolding any
  find_key zero host target text = none
  find_key (suc fuel) host target [] = none
  find_key (suc fuel) host target (c ∷ text) = elim (s.next_known_host (c ∷ text)) [
    | none ↦ none
    | some (hosts, key, rest) ↦
        let later = find_key fuel host target rest in
        if any (names_host host target) hosts then some key else later
  ]

  abbrev pub fingerprint_of : Option Text → Text
  fingerprint_of none = []
  fingerprint_of (some key) = s.fingerprint key

  -- hostFingerprint
  unfoldable pub host_fingerprint : Text → Text × Option Text
  unfolding remote_host find_key join_host_port
  host_fingerprint remote = elim (remote_host remote) [
    | none ↦ ([], none)
    | some (host, port) ↦ elim s.known_hosts_text [
      | failed e ↦ ([], some e)
      | got text ↦
          let target = if beq port (codes "22") then host else join_host_port host port in
          (fingerprint_of (find_key (length text) host target text), none)
    ]
  ]

  -- renameWithRetry: `left` attempts are left, `n` were made, and `last` is the last error.
  unfoldable pub rename_from : ℕ → ℕ → Option Text → Option Text
  rename_from zero n last = last
  rename_from (suc left) n last = elim (s.rename n) [
    | none ↦ none
    | some e ↦ elim (s.cancelled n) [ some c ↦ some c | none ↦ rename_from left (suc n) (some e) ]
  ]

  unfoldable pub rename_with_retry : Option Text
  unfolding rename_from
  rename_with_retry = rename_from 20 0 none

  -- Clone: the arguments of git, and the text of the error when it fails.
  abbrev pub clone_args : Text → Text → List Text
  clone_args remote tmp =
      codes "clone" ∷ codes "--mirror" ∷ codes "--progress" ∷ codes "--" ∷ remote ∷ tmp ∷ []

  abbrev pub clone_limit : ℕ
  clone_limit = if s.clone_timeout == 0 then s.timeout else s.clone_timeout

  abbrev clone_problem : Text → Option Text → Text
  clone_problem e none = e
  clone_problem e (some ended) = ended ++ codes " after " ++ s.after_text clone_limit

  abbrev pub preparation_text : Option CommandError → Option Text
  preparation_text none = none
  preparation_text (some e) = some (s.command_text e)

  -- The end of Clone, with what renameWithRetry has returned.
  unfoldable pub publish : Text → Text → Text → Option Text → (Text × Option Text) × List Effect
  unfolding host_fingerprint
  publish remote target tmp (some e) =
      (([], some (codes "publish repository cache: " ++ e)), cloned tmp true ∷ [])
  publish remote target tmp none = (
    host_fingerprint remote,
    cloned tmp true ∷ moved tmp target ∷ removed (target ++ codes ".tmp") ∷ [],
  )

  -- What follows the run of git, with the error of that run.
  unfoldable pub clone_ran :
      Text → Text → Auth → Text → Run → Option Text → (Text × Option Text) × List Effect
  unfolding rename_with_retry redactions redact command_error publish
  clone_ran remote target auth tmp r (some e) = (
    (
      [],
      some (
          command_error (codes "clone repository") (redact (redactions auth) r.output)
            (clone_problem e r.ended)),
    ),
    cloned tmp false ∷ [],
  )
  clone_ran remote target auth tmp r none = publish remote target tmp rename_with_retry

  unfoldable pub clone_prepared :
      Text → Text → Auth → Text → Prepared → Option Command → (Text × Option Text) × List Effect
  unfolding clone_ran
  clone_prepared remote target auth tmp p none = (([], preparation_text p.error), [])
  clone_prepared remote target auth tmp p (some c) =
      let r = s.run clone_limit c in clone_ran remote target auth tmp r r.problem

  -- The temporary directory is removed at the end, whatever the end is; the error of the removal is
  -- discarded, and what it leaves is told where the effects are replayed.
  unfoldable pub clone_from :
      Text → Text → Text → Auth → Answer Text → (Text × Option Text) × List Effect
  unfolding command clone_prepared
  clone_from remote target auth_type auth (failed e) = (
    ([], some (codes "create temporary repository cache: " ++ e)),
    made_parent (s.parent target) ∷ [],
  )
  clone_from remote target auth_type auth (got tmp) =
      let p =
        command s.host s.ssh_command s.known_hosts [] (clone_args remote tmp) auth_type auth in
      let (result, effects) = clone_prepared remote target auth tmp p p.command in
      (result, made_parent (s.parent target) ∷ made_temp tmp ∷ effects ++ removed tmp ∷ [])

  -- Clone, with the answers of ValidateRemote and MkdirAll.
  unfoldable pub clone_checked :
      Text
      → Text
      → Text
      → Auth
      → Option RemoteError
      → Option Text
      → (Text × Option Text) × List Effect
  unfolding clone_from
  clone_checked remote target auth_type auth (some e) made = (([], some (s.remote_text e)), [])
  clone_checked remote target auth_type auth none (some e) = (([], some e), [])
  clone_checked remote target auth_type auth none none =
      clone_from remote target auth_type auth s.make_temp

  unfoldable pub clone : Text → Text → Text → Auth → (Text × Option Text) × List Effect
  unfolding validate_remote clone_checked
  clone remote target auth_type auth =
      clone_checked remote target auth_type auth
        (validate_remote s.unicode scp_pattern s.parse remote) s.make_parent

  -- Fetch
  unfoldable pub fetch : Text → Text → Text → Auth → Text × Option Text
  unfolding command command_error host_fingerprint
  fetch remote repo_path auth_type auth =
      let args = codes "remote" ∷ codes "update" ∷ codes "--prune" ∷ [] in
      let p = command s.host s.ssh_command s.known_hosts repo_path args auth_type auth in
      elim p.command [
        | none ↦ ([], preparation_text p.error)
        | some c ↦
            let r = s.run s.timeout c in
            elim r.problem [
              | some e ↦ ([], some (command_error (codes "fetch repository") r.output e))
              | none ↦ host_fingerprint remote
            ]
      ]

  -- DefaultBranch
  unfoldable pub default_branch : Text → Text → Text → Auth → Answer Text
  unfolding command parse_default_branch
  default_branch remote repo_path auth_type auth =
      let args = codes "ls-remote" ∷ codes "--symref" ∷ codes "origin" ∷ codes "HEAD" ∷ [] in
      let p = command s.host s.ssh_command s.known_hosts repo_path args auth_type auth in
      elim p.command [
        | none ↦ elim p.error [ none ↦ failed [] | some e ↦ failed (s.command_text e) ]
        | some c ↦
            let r = s.run s.timeout c in
            elim r.problem [
              | some e ↦ failed (codes "discover default branch: " ++ e)
              | none ↦ parse_default_branch r.printed
            ]
      ]

  -- runLocal
  unfoldable pub run_local : Text → List Text → Answer Text
  unfolding command_error
  run_local repo_path args =
      let r = s.run s.timeout (record {
        args = codes "-C" ∷ repo_path ∷ args;
        env = s.host.environ ++ (codes "GIT_TERMINAL_PROMPT", codes "0") ∷ [];
      }) in
      elim r.problem [
        | none ↦ got r.printed
        | some e ↦ failed (if r.exited then command_error (codes "run git") r.complaints e else e)
      ]

  abbrev read {ℓ} : {A : Type ℓ} → (Text → Answer A) → Answer Text → Answer A
  read f (failed e) = failed e
  read f (got output) = f output

  -- Branches
  unfoldable pub branches : Text → Answer (List Branch)
  unfolding run_local parse_branches
  branches repo_path =
      read (λ output. got (parse_branches output))
        (run_local repo_path (
          codes "for-each-ref"
          ∷ codes "--format=%(refname:strip=2)%00%(objectname)"
          ∷ codes "refs/heads/"
          ∷ []))

  -- Commits
  unfoldable pub commits : Text → Text → Answer (List Commit)
  unfolding run_local parse_commits
  commits repo_path revision = read (parse_commits s.parse_time) (
      run_local repo_path (
        codes "log"
        ∷ codes "--reverse"
        ∷ codes "--topo-order"
        ∷ codes "--format=%H%x00%s%x00%an%x00%ae%x00%aI"
        ∷ revision
        ∷ []))

  -- RenderCommit
  unfoldable pub render_commit : Text → Text → Answer Text
  unfolding run_local
  render_commit repo_path oid = run_local repo_path (
      codes "show"
      ∷ codes "--no-ext-diff"
      ∷ codes "--no-color"
      ∷ codes "--format=fuller"
      ∷ codes "--patch"
      ∷ codes "--binary"
      ∷ codes "--cc"
      ∷ oid
      ∷ [])

  -- The run of git that IsAncestor makes: it holds if it ends without an error.
  unfoldable pub merge_base : Text → Text → Text → Bool
  merge_base repo_path old new =
      let args =
        codes "-C" ∷ repo_path ∷ codes "merge-base" ∷ codes "--is-ancestor" ∷ old ∷ new ∷ [] in
      elim (s.run s.timeout (record { args = args; env = s.host.environ })).problem [
        | none ↦ true
        | some e ↦ false
      ]
