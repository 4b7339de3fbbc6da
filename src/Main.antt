-- ===== src/Main.antt =====
-- cmd/git2imap/main.go: `run`, from the configuration to the servers that listen, and
-- internal/web/server.go: the two servers of the web. Signals and the end of the program are not
-- modelled.
pub mod Ready
pub mod Tests
use git2imap.Base.{
  ℕ, Bool, true, false, ◌||◌, Option, none, some, List, [], ◌∷◌, ◌++◌, Text, codes, beq, to_lower,
  if◌then◌else◌,
}
use git2imap.Store.{Db}
use git2imap.Config.{Config, WebConfig}
use git2imap.Config.Load.{Environment, Loaded, ok, err, load}
use git2imap.Service.Start.{Place, purge_legacy_repositories, ensure_all}
use git2imap.Listen.{Net, Server, imap_new, smtp_new, serve}

-- A step of the start: the program stops with an error, or goes on.
pub data Setup {ℓ} (A : Type ℓ) : Type ℓ where
  stop : Text → Setup A
  go : A → Setup A

infixl 5 ◌>>=◌
abbrev pub ◌>>=◌ {ℓ κ} : {X : Type ℓ} {Y : Type κ} → Setup X → (X → Setup Y) → Setup Y
stop problem >>= next = stop problem
go found >>= next = next found

abbrev pub check : Option Text → Setup (Unit {0})
check none = go tt
check (some problem) = stop problem

abbrev pub some_or {ℓ} : {A : Type ℓ} → Text → Option A → Setup A
some_or problem none = stop problem
some_or problem (some a) = go a

abbrev pub from_loaded : {e : Environment} → Loaded e → Setup Config
from_loaded (ok c) = go c
from_loaded (err problem) = stop problem

-- What the libraries and the operating system answer at the start. `read_config` is the
-- configuration that the defaults and the file give, `hash` the hash of a password.
pub record Outside : Type 1 where
  pub environment : Environment
  pub decode : Text → Option Text
  pub net : Net
  pub parse_flags : Option Text
  pub read_config : Setup Config
  pub make_dir : Text → Option Text
  pub open_store : Config → Setup Db
  pub new_box : Config → Option Text
  pub place : Config → Place
  pub hash : Text → Option Text
  pub tls_problem : Text
  pub hash_problem : Text

-- The web servers that listen, with the address of each and whether it speaks TLS.
unfoldable pub web_serve : WebConfig → List (Text × Bool)
web_serve cfg =
    (if beq cfg.addr [] then [] else (cfg.addr, false) ∷ [])
    ++ (if beq cfg.tls_addr [] || beq cfg.tls_cert [] then [] else (cfg.tls_addr, true) ∷ [])

-- newLogger: the level of the log.
pub data Level : Type 0 where
  debug info warn error : Level

unfoldable pub level_of : (ℕ → ℕ) → Text → Level
level_of unicode level =
    let name = to_lower unicode level in
    if beq name (codes "debug")
    then debug
    else if beq name (codes "warn")
    then warn
    else if beq name (codes "error")
    then error
    else info

module _ (o : Outside) where
  -- The program once its servers listen. `refreshing` are the repositories that it fetches anew.
  pub record Started : Type 0 where
    pub config : Config
    pub db : Db
    pub refreshing : List Text
    pub admin_hash : Text
    pub imap : List (Server o.net)
    pub smtp : List (Server o.net)
    pub web : List (Text × Bool)

  abbrev pub purged : (ℕ × Option Text) × Db → Setup Db
  purged ((count, none), db) = go db
  purged ((count, some e), db) = stop (codes "purge legacy repository accounts: " ++ e)

  -- The repositories and the store at the start.
  unfoldable pub recover : Place → Db → Setup (List Text × Db)
  unfolding purge_legacy_repositories ensure_all
  recover place db = do db' ← purged (purge_legacy_repositories place db); go (ensure_all place db')

  -- The servers, by their New and Serve.
  unfoldable pub listen : Config → List Text → Db → Setup Started
  unfolding imap_new smtp_new serve web_serve
  listen cfg refreshing db = do
    imap ← some_or o.tls_problem (imap_new o.net cfg.imap)
    smtp ← some_or o.tls_problem (smtp_new o.net cfg.smtp)
    admin_hash ← some_or o.hash_problem (o.hash cfg.admin.password)
    go (record {
      config = cfg;
      db = db;
      refreshing = refreshing;
      admin_hash = admin_hash;
      imap = serve o.net cfg.imap.tls_cert imap;
      smtp = serve o.net cfg.smtp.tls_cert smtp;
      web = web_serve cfg.web;
    })

  -- run, up to the servers.
  unfoldable pub run : Setup Started
  unfolding load recover listen
  run = do
    _ ← check o.parse_flags
    file ← o.read_config
    cfg ← from_loaded (load o.environment o.decode file)
    _ ← check (o.make_dir cfg.data_dir)
    _ ← check (o.make_dir cfg.cache_dir)
    db ← o.open_store cfg
    _ ← check (o.new_box cfg)
    (refreshing, db') ← recover (o.place cfg) db
    listen cfg refreshing db'
