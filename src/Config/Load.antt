-- ===== src/Config/Load.antt =====
-- internal/config/config.go: `applyEnv` and `Load`.
use git2imap.Base.{
  ◌≡◌, Bool, Option, none, some, [], Text, codes, beq, if◌then◌else◌, arith, ◌↔◌, Option-cases, inl,
  inr,
}
use git2imap.Config.{ℤ, Config}
use git2imap.Config.Validate.{validate, IsValid, validate_iff}

-- What the code uses of the environment and of the parsers of the standard library.
pub record Environment : Type 0 where
  pub getenv : Text → Text
  pub parse_bool : Text → Option Bool
  pub parse_duration : Text → Option ℤ
  pub parse_int : Text → Option ℤ

abbrev pub or_else {ℓ} : {A : Type ℓ} → Option A → A → A
or_else none old = old
or_else (some new) old = new

module _ (e : Environment) where
  unfoldable pub set_string : Text → Text → Text
  set_string key old = let value = e.getenv key in if beq value [] then old else value

  unfoldable pub set_bool : Text → Bool → Bool
  set_bool key old =
      let value = e.getenv key in if beq value [] then old else or_else (e.parse_bool value) old

  unfoldable pub set_duration : Text → ℤ → ℤ
  set_duration key old =
      let value = e.getenv key in if beq value [] then old else or_else (e.parse_duration value) old

  -- The last statement of applyEnv, for an int64.
  unfoldable pub set_int : Text → ℤ → ℤ
  set_int key old =
      let value = e.getenv key in if beq value [] then old else or_else (e.parse_int value) old

  unfoldable pub apply_env : Config → Config
  unfolding set_string set_bool set_duration set_int
  apply_env c = record c {
    public_host = set_string (codes "GIT2IMAP_PUBLIC_HOST") c.public_host;
    data_dir = set_string (codes "GIT2IMAP_DATA_DIR") c.data_dir;
    cache_dir = set_string (codes "GIT2IMAP_CACHE_DIR") c.cache_dir;
    master_key = set_string (codes "GIT2IMAP_MASTER_KEY") c.master_key;
    admin = record {
      username = set_string (codes "GIT2IMAP_ADMIN_USERNAME") c.admin.username;
      password = set_string (codes "GIT2IMAP_ADMIN_PASSWORD") c.admin.password;
    };
    web = record (c.web) {
      addr = set_string (codes "GIT2IMAP_WEB_ADDR") c.web.addr;
      tls_addr = set_string (codes "GIT2IMAP_WEB_TLS_ADDR") c.web.tls_addr;
      tls_cert = set_string (codes "GIT2IMAP_WEB_TLS_CERT") c.web.tls_cert;
      tls_key = set_string (codes "GIT2IMAP_WEB_TLS_KEY") c.web.tls_key;
      cookie_secure = set_bool (codes "GIT2IMAP_WEB_COOKIE_SECURE") c.web.cookie_secure;
    };
    imap = record (c.imap) {
      addr = set_string (codes "GIT2IMAP_IMAP_ADDR") c.imap.addr;
      tls_addr = set_string (codes "GIT2IMAP_IMAP_TLS_ADDR") c.imap.tls_addr;
      tls_cert = set_string (codes "GIT2IMAP_IMAP_TLS_CERT") c.imap.tls_cert;
      tls_key = set_string (codes "GIT2IMAP_IMAP_TLS_KEY") c.imap.tls_key;
      idle_fetch_interval =
          set_duration (codes "GIT2IMAP_IMAP_IDLE_FETCH_INTERVAL") c.imap.idle_fetch_interval;
      allow_insecure_auth =
          set_bool (codes "GIT2IMAP_IMAP_ALLOW_INSECURE_AUTH") c.imap.allow_insecure_auth;
    };
    smtp = record (c.smtp) {
      addr = set_string (codes "GIT2IMAP_SMTP_ADDR") c.smtp.addr;
      tls_addr = set_string (codes "GIT2IMAP_SMTP_TLS_ADDR") c.smtp.tls_addr;
      tls_cert = set_string (codes "GIT2IMAP_SMTP_TLS_CERT") c.smtp.tls_cert;
      tls_key = set_string (codes "GIT2IMAP_SMTP_TLS_KEY") c.smtp.tls_key;
      allow_insecure_auth =
          set_bool (codes "GIT2IMAP_SMTP_ALLOW_INSECURE_AUTH") c.smtp.allow_insecure_auth;
      max_message = set_int (codes "GIT2IMAP_SMTP_MAX_MESSAGE_BYTES") c.smtp.max_message;
    };
    git = record {
      command = set_string (codes "GIT2IMAP_GIT_COMMAND") c.git.command;
      ssh_command = set_string (codes "GIT2IMAP_SSH_COMMAND") c.git.ssh_command;
      clone_timeout = set_duration (codes "GIT2IMAP_GIT_CLONE_TIMEOUT") c.git.clone_timeout;
      fetch_timeout = set_duration (codes "GIT2IMAP_GIT_FETCH_TIMEOUT") c.git.fetch_timeout;
    };
    log = record {
      format = set_string (codes "GIT2IMAP_LOG_FORMAT") c.log.format;
      level = set_string (codes "GIT2IMAP_LOG_LEVEL") c.log.level;
    };
  }

  -- Load, from the configuration that the defaults and the file give: `err` is the message.
  pub data Loaded : Type 0 where
    ok : Config → Loaded
    err : Text → Loaded

  unfoldable pub load : (Text → Option Text) → Config → Loaded
  load decode c = elim (validate decode (apply_env c)) [
    | none ↦ ok (apply_env c)
    | some problem ↦ err problem
  ]

  -- `Load` hands over the configuration with the environment's settings if that one is valid, and
  -- never another.
  pub load_iff :
      (decode : Text → Option Text) (c c' : Config)
      → (load decode c ≡ ok c') ↔ ((c' ≡ apply_env c) × IsValid decode c')
  unfolding load
  load_iff decode c c' = elim (Option-cases (validate decode (apply_env c))) [
    | inl e ↦ (
      (λ h.
          let same : c' ≡ apply_env c = ground (arith, e, h) in
          (same, rw same ((validate_iff decode (apply_env c)).0 e))),
      λ h. rw h.0 (ground (arith, e)),
    )
    | inr (problem, e) ↦
        ((λ h. cc (h)), λ h. cc ((validate_iff decode (apply_env c)).1 (rw h.0 at h.1)))
  ]
