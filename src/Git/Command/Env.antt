-- ===== src/Git/Command/Env.antt =====
-- internal/gitbackend/git.go and cmd/git2imap/main.go: what git, ssh and `runAskpass` find in the
-- environment of a run of git.
use git2imap.Base.{
  ℕ, ◌≡◌, refl, inl, inr, List, [], ◌∷◌, ◌++◌, Text, codes, beq, contains, to_lower, Bool-cases,
  if◌then◌else◌,
}
use git2imap.Git.{Auth}
use git2imap.Git.Command.{Host, base, http_env, ssh_env, getenv, run_askpass}

getenv-append :
    (name : Text) (env more : List (Text × Text)) (value : Text)
    → getenv name (env ++ more) value ≡ getenv name more (getenv name env value)
unfolding getenv
getenv-append name [] more value = refl
getenv-append name ((n, v) ∷ env) more value =
    getenv-append name env more (if beq n name then v else value)

module _ (host : Host) (ssh_command known_hosts : Text) (auth : Auth) (unicode : ℕ → ℕ)
    (prompt : Text) where
  pub http_env-getenv :
      (askpass : Text)
      → getenv (codes "GIT_ASKPASS") (http_env host ssh_command known_hosts askpass auth) []
        ≡ askpass
  unfolding http_env getenv beq
  http_env-getenv askpass =
      rw (getenv-append (codes "GIT_ASKPASS") (base host ssh_command known_hosts)) refl

  pub http_env-run_askpass :
      (askpass : Text)
      → run_askpass unicode (http_env host ssh_command known_hosts askpass auth) prompt ≡ (
          if contains (to_lower unicode prompt) (codes "username")
          then auth.username
          else auth.password)
  unfolding run_askpass http_env getenv beq
  http_env-run_askpass askpass =
      rw
        (
          getenv-append (codes "GIT2IMAP_ASKPASS_MODE") (base host ssh_command known_hosts),
          getenv-append (codes "GIT2IMAP_ASKPASS_USERNAME") (base host ssh_command known_hosts),
          getenv-append (codes "GIT2IMAP_ASKPASS_PASSWORD") (base host ssh_command known_hosts),
        )
        refl

  pub ssh_env-getenv :
      (askpass key : Text)
      → let env = ssh_env host ssh_command known_hosts askpass key auth in
        (getenv (codes "SSH_ASKPASS") env [] ≡ askpass)
        × (getenv (codes "SSH_ASKPASS_REQUIRE") env [] ≡ codes "force")
  unfolding ssh_env getenv beq
  ssh_env-getenv askpass key =
      let asks = getenv-append (codes "SSH_ASKPASS") (base host ssh_command known_hosts) in
      let forced =
        getenv-append (codes "SSH_ASKPASS_REQUIRE") (base host ssh_command known_hosts) in
      elim (Bool-cases host.windows) [
        | inl t ↦ (rw (t, asks) refl, rw (t, forced) refl)
        | inr t ↦ (rw (t, asks) refl, rw (t, forced) refl)
      ]

  pub ssh_env-run_askpass :
      (askpass key : Text)
      → run_askpass unicode (ssh_env host ssh_command known_hosts askpass key auth) prompt
        ≡ auth.passphrase
  unfolding run_askpass ssh_env getenv beq
  ssh_env-run_askpass askpass key = elim (Bool-cases host.windows) [
    | inl t ↦
        rw
          (
            t,
            getenv-append (codes "GIT2IMAP_ASKPASS_MODE") (base host ssh_command known_hosts),
            getenv-append (codes "GIT2IMAP_ASKPASS_PASSWORD") (base host ssh_command known_hosts),
          )
          refl
    | inr t ↦
        rw
          (
            t,
            getenv-append (codes "GIT2IMAP_ASKPASS_MODE") (base host ssh_command known_hosts),
            getenv-append (codes "GIT2IMAP_ASKPASS_PASSWORD") (base host ssh_command known_hosts),
          )
          refl
  ]
