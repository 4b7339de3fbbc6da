-- ===== src/Main/Ready.antt =====
-- cmd/git2imap/main.go: what holds once the program has started.
use git2imap.Base.{
  ◌≡◌, refl, sym, ap, ◌∙◌, Bool, false, not, Option, none, some, List, [], ◌∷◌, Text, beq, select,
  All, AllPairs, AllPairs-select, All-select, Bool-cases, inl, inr, subst,
}
use git2imap.Store.{Repository, Db}
use git2imap.Config.{Config}
use git2imap.Config.Load.{Environment, Loaded, ok, err, load, load_iff}
use git2imap.Config.Validate.{IsValid}
use git2imap.Service.Start.{Place, is_legacy, is_deleting, purge_legacy_repositories, ensure_all}
use git2imap.Service.Start.Purged.{purge_legacy_repositories_lem, ensure_all_lem}
use git2imap.Listen.{Servers, Guarded, imap_new, smtp_new, serve, serve-Guarded}
use git2imap.Main.{
  Setup, go, stop, Outside, Started, check, some_or, from_loaded, purged, web_serve, run, recover,
  listen, ◌>>=◌,
}

>>=-eq-go {ℓ κ} :
    {X : Type ℓ} {Y : Type κ} (first : Setup X) (next : X → Setup Y) {last : Y}
    → (first >>= next) ≡ go last
    → (found : X) × (first ≡ go found) × (next found ≡ go last)
>>=-eq-go (stop problem) next done = cc
>>=-eq-go (go found) next done = (found, refl, done)

pub go-injective {ℓ} : {X : Type ℓ} {a b : X} → go a ≡ go b → a ≡ b
go-injective {a = a} h = ap (λ r. elim r [ stop problem ↦ a | go x ↦ x ]) h

some_or-go {ℓ} :
    {X : Type ℓ} (problem : Text) (found : Option X) {a : X}
    → some_or problem found ≡ go a
    → found ≡ some a
some_or-go problem none h = cc
some_or-go problem (some x) h = ap some (go-injective h)

from_loaded-go :
    {e : Environment} (found : Loaded e) {cfg : Config}
    → from_loaded found ≡ go cfg
    → found ≡ ok cfg
from_loaded-go (err problem) h = cc
from_loaded-go (ok c) h = ap ok (go-injective h)

kept {ℓ} :
    {X : Type ℓ} (p : X → Bool) (xs : List X) → All (λ x. p x ≡ false) (select (λ x. not (p x)) xs)
unfolding select
kept p [] = tt
kept p (x ∷ xs) = elim (Bool-cases (p x)) [ inl e ↦ rw e (kept p xs) | inr e ↦ rw e (e, kept p xs) ]

-- The mail servers of a started program are guarded, and its accounts are all of the new format,
-- none of them half deleted.
pub record IsReady (o : Outside) (s : Started o) : Type 0 where
  pub valid : IsValid o.decode s.config
  pub imap_guarded : All (Guarded o.net s.config.imap.allow_insecure_auth) s.imap
  pub smtp_guarded : All (Guarded o.net s.config.smtp.allow_insecure_auth) s.smtp
  pub renewed : All (λ r. is_legacy (o.place s.config).unicode r ≡ false) s.db.repositories
  pub whole : All (λ r. is_deleting r ≡ false) s.db.repositories

module _ (o : Outside) where
  listen_lem :
      (cfg : Config) (refreshing : List Text) (db : Db) {s : Started o}
      → listen o cfg refreshing db ≡ go s
      → (s.config ≡ cfg)
        × (s.db ≡ db)
        × All (Guarded o.net cfg.imap.allow_insecure_auth) s.imap
        × All (Guarded o.net cfg.smtp.allow_insecure_auth) s.smtp
  unfolding listen
  listen_lem cfg refreshing db {s} h =
      let (imap, e, h₁) = >>=-eq-go (some_or o.tls_problem (imap_new o.net cfg.imap)) _ h in
      let (smtp, k, h₂) = >>=-eq-go (some_or o.tls_problem (smtp_new o.net cfg.smtp)) _ h₁ in
      let (admin_hash, u, h₃) =
        >>=-eq-go (some_or o.hash_problem (o.hash cfg.admin.password)) _ h₂ in
      let is = go-injective h₃ in
      let (imap_guarded, smtp_guarded) =
        serve-Guarded o.net cfg.imap cfg.smtp imap smtp (some_or-go o.tls_problem _ e)
          (some_or-go o.tls_problem _ k) in
      subst
        (λ (x : Started o).
          (x.config ≡ cfg)
          × (x.db ≡ db)
          × All (Guarded o.net cfg.imap.allow_insecure_auth) x.imap
          × All (Guarded o.net cfg.smtp.allow_insecure_auth) x.smtp)
        is (refl, refl, imap_guarded, smtp_guarded)

  recover_lem :
      (place : Place) (db : Db) {found : List Text × Db}
      → ((path : Text) → place.remove_all path ≡ none)
      → AllPairs (λ a b. beq b.id a.id ≡ false) db.repositories
      → recover o place db ≡ go found
      → All (λ r. is_legacy place.unicode r ≡ false) found.1.repositories
        × All (λ r. is_deleting r ≡ false) found.1.repositories
  unfolding recover
  recover_lem place db {found} removes apart h =
      let q = purge_legacy_repositories place db in
      let (count, rest, boxes) = purge_legacy_repositories_lem place removes db apart in
      let passed : purged o q ≡ go q.1 = ap (λ r. purged o (r, q.1)) count in
      let (db', e, h') = >>=-eq-go (purged o q) _ h in
      let same : q.1 ≡ db' = go-injective (sym passed ∙ e) in
      let is : ensure_all place q.1 ≡ found = ap (ensure_all place) same ∙ go-injective h' in
      let apart' : AllPairs (λ (a b : Repository). beq b.id a.id ≡ false) q.1.repositories =
        rw rest (AllPairs-select (λ a b. beq b.id a.id ≡ false) _ db.repositories apart) in
      let (started, rest', boxes') = ensure_all_lem place removes q.1 apart' in
      let renewed : All (λ r. is_legacy place.unicode r ≡ false) q.1.repositories =
        rw rest (kept (is_legacy place.unicode) db.repositories) in
      subst
        (λ (x : List Text × Db).
          All (λ r. is_legacy place.unicode r ≡ false) x.1.repositories
          × All (λ r. is_deleting r ≡ false) x.1.repositories)
        is
        (
          rw rest' (All-select _ _ q.1.repositories renewed),
          rw rest' (kept is_deleting q.1.repositories),
        )

  -- A program that gets as far as its servers runs on a valid configuration; each mail server that
  -- listens with TLS from the start has a certificate, and takes a password in the clear only if the
  -- configuration allows it or on a loopback address without a certificate; and no account of the
  -- old format and none that is being deleted is left. The ids in the store that is opened are
  -- unique, and every removal of files succeeds.
  pub run-IsReady :
      {s : Started o}
      → ((cfg : Config) (path : Text) → (o.place cfg).remove_all path ≡ none)
      → ((cfg : Config) (db : Db)
          → o.open_store cfg ≡ go db
          → AllPairs (λ a b. beq b.id a.id ≡ false) db.repositories)
      → run o ≡ go s
      → IsReady o s
  unfolding run
  run-IsReady {s} removes apart h =
      let (flags, e₁, h₁) = >>=-eq-go (check o.parse_flags) _ h in
      let (file, e₂, h₂) = >>=-eq-go o.read_config _ h₁ in
      let (cfg, e₃, h₃) = >>=-eq-go (from_loaded (load o.environment o.decode file)) _ h₂ in
      let (made, e₄, h₄) = >>=-eq-go (check (o.make_dir cfg.data_dir)) _ h₃ in
      let (made', e₅, h₅) = >>=-eq-go (check (o.make_dir cfg.cache_dir)) _ h₄ in
      let (db, e₆, h₆) = >>=-eq-go (o.open_store cfg) _ h₅ in
      let (box, e₇, h₇) = >>=-eq-go (check (o.new_box cfg)) _ h₆ in
      let (found, e₈, h₈) = >>=-eq-go (recover o (o.place cfg) db) _ h₇ in
      let (config, same, imap, smtp) = listen_lem cfg found.0 found.1 h₈ in
      let (renewed, whole) = recover_lem (o.place cfg) db (removes cfg) (apart cfg db e₆) e₈ in
      record {
        valid =
            subst (IsValid o.decode) (sym config)
              ((load_iff o.environment o.decode file cfg).0 (from_loaded-go _ e₃)).1;
        imap_guarded = rw config imap;
        smtp_guarded = rw config smtp;
        renewed =
            subst
              (λ (c : Config). All (λ r. is_legacy (o.place c).unicode r ≡ false) s.db.repositories)
              (sym config)
              (subst
                (λ (d : Db). All (λ r. is_legacy (o.place cfg).unicode r ≡ false) d.repositories)
                (sym same) renewed);
        whole = rw same whole;
      }

  -- It gets as far if the flags are read, the configuration is valid, its directories can be made,
  -- the store and the box can be opened, the certificates are loaded and the password is hashed.
  pub run-go :
      (file cfg : Config) (db : Db) (imap smtp : Servers o.net) (admin_hash : Text)
      → o.parse_flags ≡ none
      → o.read_config ≡ go file
      → load o.environment o.decode file ≡ ok cfg
      → (o.make_dir cfg.data_dir ≡ none) × (o.make_dir cfg.cache_dir ≡ none)
      → o.open_store cfg ≡ go db
      → o.new_box cfg ≡ none
      → ((path : Text) → (o.place cfg).remove_all path ≡ none)
      → AllPairs (λ a b. beq b.id a.id ≡ false) db.repositories
      → (imap_new o.net cfg.imap ≡ some imap) × (smtp_new o.net cfg.smtp ≡ some smtp)
      → o.hash cfg.admin.password ≡ some admin_hash
      → (s : Started o) × (run o ≡ go s)
  unfolding run recover listen
  run-go file cfg db imap smtp admin_hash flags read loaded (made, made') opened box removes apart
        (i, m) hashed =
      let q = purge_legacy_repositories (o.place cfg) db in
      let (count, rest, boxes) = purge_legacy_repositories_lem (o.place cfg) removes db apart in
      let passed : purged o q ≡ go q.1 = ap (λ r. purged o (r, q.1)) count in
      let found = ensure_all (o.place cfg) q.1 in
      (
        record {
          config = cfg;
          db = found.1;
          refreshing = found.0;
          admin_hash = admin_hash;
          imap = serve o.net cfg.imap.tls_cert imap;
          smtp = serve o.net cfg.smtp.tls_cert smtp;
          web = web_serve cfg.web;
        },
        rw (flags, read, loaded, made, made', opened, box, passed, i, m, hashed) refl,
      )
