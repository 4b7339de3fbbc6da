-- ===== src/Listen.antt =====
-- internal/imapserver/server.go and internal/smtpserver/server.go: `New` and `Serve`, which decide
-- what listens, and on which connections a password is taken without encryption. The two packages
-- have the same `loadTLSConfig` and `isLoopbackAddress`.
mod Tests
use git2imap.Base.{
  subst, Option-cases, ||-eq-false, ◌≡◌, ◌≢◌, refl, ap, ◌⊎◌, inl, inr, Bool, true, false, ◌&&◌,
  ◌||◌, Option, none, some, List, [], ◌∷◌, ◌++◌, Text, codes, beq, All, All-append, if◌then◌else◌,
  if-cases,
}
use git2imap.Config.{ImapConfig, SmtpConfig}

-- A certificate with its key, and what the code reads of an IP address.
pub record Net : Type 1 where
  pub Certificate : Type 0
  pub load_key_pair : Text → Text → Option Certificate
  pub split_host_port : Text → Option (Text × Text)
  pub parse_ip : Text → Option Bool

some-eq {ℓ} : {A : Type ℓ} {x y : A} → some x ≡ some y → x ≡ y
some-eq {x = x} h = ap (λ o. elim o [ none ↦ x | some z ↦ z ]) h

module _ (net : Net) where
  pub data Loaded : Type 0 where
    failed : Loaded
    loaded : Option net.Certificate → Loaded

  -- loadTLSConfig
  unfoldable pub load_tls_config : Text → Text → Loaded
  load_tls_config cert key =
      if beq cert [] && beq key []
      then loaded none
      else elim (net.load_key_pair cert key) [ none ↦ failed | some c ↦ loaded (some c) ]

  -- isLoopbackAddress; parse_ip tells of an address whether it is a loopback address.
  unfoldable pub is_loopback_address : Text → Bool
  is_loopback_address addr = elim (net.split_host_port addr) [
    | none ↦ false
    | some (host, port) ↦
        beq host (codes "localhost") || elim (net.parse_ip host) [ none ↦ false | some l ↦ l ]
  ]

  -- One of the servers of a package.
  pub record Server : Type 0 where
    pub addr : Text
    pub implicit : Bool
    pub tls : Option net.Certificate
    pub insecure_auth : Bool

  pub record Servers : Type 0 where
    pub plain : Server
    pub implicit : Server

  abbrev insecure : Bool → Option net.Certificate → Text → Bool
  insecure allow none addr = allow || is_loopback_address addr
  insecure allow (some c) addr = allow

  abbrev smtp_servers : SmtpConfig → Loaded → Option Servers
  smtp_servers cfg failed = none
  smtp_servers cfg (loaded tls) = some (record {
    plain = record {
      addr = cfg.addr;
      implicit = false;
      tls = tls;
      insecure_auth = insecure cfg.allow_insecure_auth tls cfg.addr;
    };
    implicit = record {
      addr = cfg.tls_addr;
      implicit = true;
      tls = tls;
      insecure_auth = insecure cfg.allow_insecure_auth tls cfg.tls_addr;
    };
  })

  -- smtpserver.New
  unfoldable pub smtp_new : SmtpConfig → Option Servers
  unfolding load_tls_config is_loopback_address
  smtp_new cfg = smtp_servers cfg (load_tls_config cfg.tls_cert cfg.tls_key)

  abbrev imap_servers : ImapConfig → Loaded → Option Servers
  imap_servers cfg failed = none
  imap_servers cfg (loaded tls) = some (record {
    plain = record {
      addr = cfg.addr;
      implicit = false;
      tls = tls;
      insecure_auth = insecure cfg.allow_insecure_auth tls cfg.addr;
    };
    implicit = record { addr = cfg.tls_addr; implicit = true; tls = tls; insecure_auth = false };
  })

  -- imapserver.New
  unfoldable pub imap_new : ImapConfig → Option Servers
  unfolding load_tls_config is_loopback_address
  imap_new cfg = imap_servers cfg (load_tls_config cfg.tls_cert cfg.tls_key)

  -- Serve: which servers listen.
  unfoldable pub serve : Text → Servers → List Server
  serve tls_cert s =
      (if beq s.plain.addr [] then [] else s.plain ∷ [])
      ++ (if beq s.implicit.addr [] || beq tls_cert [] then [] else s.implicit ∷ [])

  -- A server that listens with TLS from the start has a certificate, and takes passwords in the
  -- clear only if the configuration says so, or without a certificate on a loopback address.
  abbrev pub Guarded : Bool → Server → Type 0
  Guarded allow s =
      (s.implicit ≡ true → s.tls ≢ none)
      × (s.insecure_auth ≡ true
          → (allow ≡ true) ⊎ ((s.tls ≡ none) × (is_loopback_address s.addr ≡ true)))

  insecure_lem :
      (allow : Bool) (tls : Option net.Certificate) (addr : Text)
      → insecure allow tls addr ≡ true
      → (allow ≡ true) ⊎ ((tls ≡ none) × (is_loopback_address addr ≡ true))
  insecure_lem true tls addr h = inl refl
  insecure_lem false none addr h = inr (refl, h)
  insecure_lem false (some c) addr h = cc

  load_tls_config-some :
      (cert key : Text) {tls : Option net.Certificate}
      → beq cert [] ≡ false
      → load_tls_config cert key ≡ loaded tls
      → tls ≢ none
  unfolding load_tls_config
  load_tls_config-some cert key {tls} h e is = elim (Option-cases (net.load_key_pair cert key)) [
    | inl n ↦ cc (h, e, n)
    | inr (c, n) ↦ cc (h, e, is, n)
  ]

  serve-All :
      (P : Server → Type 0) (tls_cert : Text) (s : Servers)
      → P s.plain
      → (beq tls_cert [] ≡ false → P s.implicit)
      → All P (serve tls_cert s)
  unfolding serve
  serve-All P tls_cert s p q =
      All-append P _ _ (if-cases (All P) (beq s.plain.addr []) (λ _. tt) (λ _. (p, tt))) (
        if-cases (All P) (beq s.implicit.addr [] || beq tls_cert []) (λ _. tt)
          (λ h. (q (||-eq-false (beq s.implicit.addr []) (beq tls_cert []) h).1, tt)))

  smtp-Guarded :
      (cfg : SmtpConfig) (l : Loaded) {s : Servers}
      → load_tls_config cfg.tls_cert cfg.tls_key ≡ l
      → smtp_servers cfg l ≡ some s
      → All (Guarded cfg.allow_insecure_auth) (serve cfg.tls_cert s)
  smtp-Guarded cfg failed h e = cc
  smtp-Guarded cfg (loaded tls) {s} h e =
      subst (λ o. All (Guarded cfg.allow_insecure_auth) (serve cfg.tls_cert o)) (some-eq e)
        (serve-All (Guarded cfg.allow_insecure_auth) cfg.tls_cert _
          ((λ i. cc), insecure_lem cfg.allow_insecure_auth tls cfg.addr)
          (λ c. (
            (λ _. load_tls_config-some cfg.tls_cert cfg.tls_key c h),
            insecure_lem cfg.allow_insecure_auth tls cfg.tls_addr,
          )))

  imap-Guarded :
      (cfg : ImapConfig) (l : Loaded) {s : Servers}
      → load_tls_config cfg.tls_cert cfg.tls_key ≡ l
      → imap_servers cfg l ≡ some s
      → All (Guarded cfg.allow_insecure_auth) (serve cfg.tls_cert s)
  imap-Guarded cfg failed h e = cc
  imap-Guarded cfg (loaded tls) {s} h e =
      subst (λ o. All (Guarded cfg.allow_insecure_auth) (serve cfg.tls_cert o)) (some-eq e)
        (serve-All (Guarded cfg.allow_insecure_auth) cfg.tls_cert _
          ((λ i. cc), insecure_lem cfg.allow_insecure_auth tls cfg.addr)
          (λ c. ((λ _. load_tls_config-some cfg.tls_cert cfg.tls_key c h), λ i. cc)))

  -- Every server of mail that listens is guarded, whatever the configuration: one with TLS from the
  -- start has a certificate, and a password is taken in the clear only if the configuration allows
  -- it, or on a loopback address while there is no certificate.
  pub serve-Guarded :
      (imap : ImapConfig) (smtp : SmtpConfig) (s t : Servers)
      → imap_new imap ≡ some s
      → smtp_new smtp ≡ some t
      → All (Guarded imap.allow_insecure_auth) (serve imap.tls_cert s)
        × All (Guarded smtp.allow_insecure_auth) (serve smtp.tls_cert t)
  unfolding imap_new smtp_new
  serve-Guarded imap smtp s t h k = (imap-Guarded imap _ refl h, smtp-Guarded smtp _ refl k)
