-- ===== src/Config.antt =====
-- internal/config/config.go. The base64 decoder, the parsers of `strconv` and `time`, and the
-- environment are parameters.
pub mod Load
pub mod Validate
pub mod Tests
use git2imap.Base.{ℕ, Bool, Text}

-- A signed 64-bit number: time.Duration and int64.
pub data ℤ : Type 0 where
  pos : ℕ → ℤ
  negsuc : ℕ → ℤ

pub record AdminConfig : Type 0 where
  pub username : Text
  pub password : Text

pub record WebConfig : Type 0 where
  pub addr : Text
  pub tls_addr : Text
  pub tls_cert : Text
  pub tls_key : Text
  pub cookie_name : Text
  pub cookie_secure : Bool

pub record ImapConfig : Type 0 where
  pub addr : Text
  pub tls_addr : Text
  pub tls_cert : Text
  pub tls_key : Text
  pub allow_insecure_auth : Bool
  pub idle_fetch_interval : ℤ

pub record SmtpConfig : Type 0 where
  pub addr : Text
  pub tls_addr : Text
  pub tls_cert : Text
  pub tls_key : Text
  pub max_message : ℤ
  pub allow_insecure_auth : Bool

pub record GitConfig : Type 0 where
  pub command : Text
  pub ssh_command : Text
  pub clone_timeout : ℤ
  pub fetch_timeout : ℤ

pub record LogConfig : Type 0 where
  pub format : Text
  pub level : Text

pub record Config : Type 0 where
  pub public_host : Text
  pub data_dir : Text
  pub cache_dir : Text
  pub master_key : Text
  pub admin : AdminConfig
  pub web : WebConfig
  pub imap : ImapConfig
  pub smtp : SmtpConfig
  pub git : GitConfig
  pub log : LogConfig
