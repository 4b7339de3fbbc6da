-- ===== src/Git/Command/Secrets.antt =====
-- internal/gitbackend/git.go and cmd/git2imap/main.go: where the credentials of a run of git are.
use git2imap.Base.{
  ℕ, ◌≡◌, refl, sym, ap, ◌∙◌, ◌⊎◌, inl, inr, true, false, not, ◌&&◌, ◌||◌, Option, none, some, List,
  [], ◌∷◌, Text, codes, beq, beq_iff, beq_refl, ne_of_beq, if-cases, subst, contains, to_lower, any,
  select, arith, Bool-cases, if◌then◌else◌,
}
use mathlib.Core.Bool.{false≢true}
use git2imap.Git.{Auth}
use git2imap.Git.Command.{
  CommandError, system_error, key_required, unknown_auth, Host, Command, Prepared, with_path,
  write_askpass, with_key, with_askpass, command, left_behind, getenv, run_askpass,
}
use git2imap.Git.Command.Env.{
  http_env-getenv, http_env-run_askpass, ssh_env-getenv, ssh_env-run_askpass,
}

-- A list without its own elements.
no_one : (a : Text) → select (λ f. not (any (beq f) (a ∷ []))) (a ∷ []) ≡ []
unfolding select any
no_one a = rw (beq_refl a) refl

no_two : (a b : Text) → select (λ f. not (any (beq f) (a ∷ b ∷ []))) (a ∷ b ∷ []) ≡ []
unfolding select any
no_two a b = ground (arith, beq_refl a, beq_refl b)

-- What each end of the preparation leaves: nothing behind a success and without a script, and the
-- script alone behind an error that comes after it.
abbrev pub Leaves : Host → Text → Text → Prepared → Type 0
Leaves host ssh_command known_hosts p =
    ((p.error ≡ none) × (left_behind p ≡ []))
    ⊎ ((e : CommandError) × (p.error ≡ some e)
        × ((((host.executable ≡ none) ⊎ (write_askpass host ssh_command known_hosts ≡ none))
              × (left_behind p ≡ []))
            ⊎ ((askpass : Text) × (write_askpass host ssh_command known_hosts ≡ some askpass)
                × (left_behind p ≡ askpass ∷ []))))

module _ (host : Host) (ssh_command known_hosts : Text) (auth : Auth) (unicode : ℕ → ℕ)
    (prompt : Text) where
  -- A prepared run: its arguments do not depend on the credentials, the script that was written is
  -- the one that git, or ssh, is told to ask, and it gives the credentials out.
  pub record Serves (repo_path : Text) (args : List Text) (auth_type askpass : Text) (c : Command)
      : Type 0 where
    pub plain : c.args ≡ with_path repo_path args
    pub http :
        auth_type ≡ codes "http"
        → (getenv (codes "GIT_ASKPASS") c.env [] ≡ askpass)
          × (run_askpass unicode c.env prompt ≡ (
              if contains (to_lower unicode prompt) (codes "username")
              then auth.username
              else auth.password))
    pub ssh :
        auth_type ≡ codes "ssh"
        → (getenv (codes "SSH_ASKPASS") c.env [] ≡ askpass)
          × (getenv (codes "SSH_ASKPASS_REQUIRE") c.env [] ≡ codes "force")
          × (run_askpass unicode c.env prompt ≡ auth.passphrase)

  -- What the preparation ends with, told from the path of the script.
  data Ending (repo_path : Text) (args : List Text) (auth_type askpass : Text)
      : Prepared → Type 0 where
    serving :
        (c : Command) (files : List Text)
        → select (λ f. not (any (beq f) files)) files ≡ []
        → Serves repo_path args auth_type askpass c
        → Ending repo_path args auth_type askpass
            (record { command = some c; error = none; files = files; cleanup = files })
    failing :
        (e : CommandError)
        → Ending repo_path args auth_type askpass (record {
          command = none;
          error = some e;
          files = askpass ∷ [];
          cleanup = askpass ∷ [];
        })

  with_key-Ending :
      (repo_path : Text) (args : List Text) (askpass : Text) (key : Option Text)
      → Ending repo_path args
          (codes "ssh")
          askpass
          (with_key host ssh_command known_hosts (with_path repo_path args) askpass auth key)
  unfolding with_key
  with_key-Ending repo_path args askpass none = failing system_error
  with_key-Ending repo_path args askpass (some key) =
      elim (Bool-cases (host.key_mode && host.key_written)) [
        | inl t ↦ rw t (
            serving _ _ (no_two askpass key) (record {
              plain = refl;
              http = λ e. absurd (ne_of_beq (codes "ssh") (codes "http") (unfold beq in refl) e);
              ssh = λ _.
                  let (asks, forced) =
                    ssh_env-getenv host ssh_command known_hosts auth unicode prompt askpass key in
                  (
                    asks,
                    forced,
                    ssh_env-run_askpass host ssh_command known_hosts auth unicode prompt askpass
                        key,
                  );
            }))
        | inr t ↦ rw t (failing system_error)
      ]

  with_askpass-Ending :
      (repo_path : Text) (args : List Text) (auth_type askpass : Text)
      → Ending repo_path args auth_type askpass (
          with_askpass host ssh_command known_hosts
            (with_path repo_path args)
            auth_type
            auth
            askpass)
  unfolding with_askpass
  with_askpass-Ending repo_path args auth_type askpass =
      let P = Ending repo_path args auth_type askpass in
      if-cases P (beq auth_type [] || beq auth_type (codes "none"))
        (λ t. serving _ _ (no_one askpass) (record {
          plain = refl;
          http = λ e. absurd (no_auth (codes "http") (unfold beq in refl) e t);
          ssh = λ e. absurd (no_auth (codes "ssh") (unfold beq in refl) e t);
        }))
        (λ _.
          if-cases P (beq auth_type (codes "http"))
            (λ t. serving _ _ (no_one askpass) (record {
              plain = refl;
              http = λ _. (
                http_env-getenv host ssh_command known_hosts auth unicode prompt askpass,
                http_env-run_askpass host ssh_command known_hosts auth unicode prompt askpass,
              );
              ssh = λ e. absurd (not_both (codes "ssh") (codes "http") (unfold beq in refl) e t);
            }))
            (λ _.
              if-cases P (beq auth_type (codes "ssh"))
                (λ t.
                  if-cases P (beq auth.private_key []) (λ _. failing key_required)
                    (λ _.
                      if-cases P host.known_hosts_dir
                        (λ _.
                          subst
                            (λ k. Ending repo_path args k askpass (
                              with_key host ssh_command known_hosts (with_path repo_path args)
                                askpass auth host.key_file))
                            (sym ((beq_iff auth_type (codes "ssh")).0 t))
                            (with_key-Ending repo_path args askpass host.key_file))
                        (λ _. failing system_error)))
                (λ _. failing unknown_auth)))
    where
      not_both : (x y : Text) → beq x y ≡ false → auth_type ≡ x → beq auth_type y ≡ true → ⊥
      not_both x y ne e t = ne_of_beq x y ne (sym e ∙ (beq_iff auth_type y).0 t)

      no_auth :
          (x : Text)
          → (beq x [] || beq x (codes "none")) ≡ false
          → auth_type ≡ x
          → (beq auth_type [] || beq auth_type (codes "none")) ≡ true
          → ⊥
      no_auth x ne e t =
          false≢true (sym ne ∙ (ap (λ k. beq k [] || beq k (codes "none")) (sym e) ∙ t))

  -- The whole preparation: it ends before there is a script, or with one.
  data Whole (repo_path : Text) (args : List Text) (auth_type : Text) : Prepared → Type 0 where
    early :
        (host.executable ≡ none) ⊎ (write_askpass host ssh_command known_hosts ≡ none)
        → Whole repo_path args auth_type
            (record { command = none; error = some system_error; files = []; cleanup = [] })
    late :
        (askpass : Text) {p : Prepared}
        → write_askpass host ssh_command known_hosts ≡ some askpass
        → Ending repo_path args auth_type askpass p
        → Whole repo_path args auth_type p

  command-Whole :
      (repo_path : Text) (args : List Text) (auth_type : Text)
      → Whole repo_path args auth_type
          (command host ssh_command known_hosts repo_path args auth_type auth)
  unfolding command
  command-Whole repo_path args auth_type =
      go host.executable (write_askpass host ssh_command known_hosts) refl refl
    where
      go :
          (x a : Option Text)
          → host.executable ≡ x
          → write_askpass host ssh_command known_hosts ≡ a
          → Whole repo_path args auth_type (elim x [
            | none ↦ record { command = none; error = some system_error; files = []; cleanup = [] }
            | some executable ↦ elim a [
              | none ↦ record {
                command = none;
                error = some system_error;
                files = [];
                cleanup = [];
              }
              | some askpass ↦
                  with_askpass host ssh_command known_hosts
                    (with_path repo_path args)
                    auth_type
                    auth
                    askpass
            ]
          ])
      go none a x h = early (inl x)
      go (some executable) none x h = early (inr h)
      go (some executable) (some askpass) x h =
          late askpass h (with_askpass-Ending repo_path args auth_type askpass)

  -- The script is there, with its path, and serves the run.
  abbrev Served : Text → List Text → Text → Command → Type 0
  Served repo_path args auth_type c =
      (askpass : Text) × (write_askpass host ssh_command known_hosts ≡ some askpass)
      × Serves repo_path args auth_type askpass c

  -- A run that is not prepared has an error.
  pub command-refused :
      (repo_path : Text) (args : List Text) (auth_type : Text)
      → (command host ssh_command known_hosts repo_path args auth_type auth).command ≡ none
      → (e : CommandError) × ((command host ssh_command known_hosts repo_path args auth_type
            auth).error
          ≡ some e)
  command-refused repo_path args auth_type h =
      Whole-refused (command-Whole repo_path args auth_type) h
    where
      Whole-refused :
          {p : Prepared}
          → Whole repo_path args auth_type p
          → p.command ≡ none
          → (e : CommandError) × (p.error ≡ some e)
      Whole-refused (early h) k = (system_error, refl)
      Whole-refused (late askpass w (serving c files gone s)) k = cc
      Whole-refused (late askpass w (failing e)) k = (e, refl)
