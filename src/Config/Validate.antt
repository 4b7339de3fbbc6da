-- ===== src/Config/Validate.antt =====
-- internal/config/config.go: `Validate`. Go walks its two maps in any order; here the problems come
-- in the order in which the maps are written.
use mathlib.Core.List.{flatten}
use git2imap.Base.{
  zero, suc, ◌≡◌, ◌≢◌, ◌↔◌, ◌⊎◌, refl, Bool, true, false, not, ◌&&◌, ◌||◌, Option, none, some, List,
  [], ◌∷◌, ◌++◌, Text, codes, beq, beq_iff, All, contains_any, length, arith, ◌==◌, if◌then◌else◌,
}
use git2imap.Config.{ℤ, pos, negsuc, Config}

abbrev pub is_positive : ℤ → Bool
is_positive (pos zero) = false
is_positive (pos (suc n)) = true
is_positive (negsuc n) = false

abbrev report : Bool → Text → List Text
report true problem = problem ∷ []
report false problem = []

abbrev pub empty : Text → Bool
empty s = beq s []

-- The certificate or the key is set alone.
abbrev half_pair : Text → Text → Bool
half_pair cert key = not (empty cert) && empty key || empty cert && not (empty key)

-- A TLS address without a certificate or a key.
abbrev bare_listener : Text → Text → Text → Bool
bare_listener addr cert key = not (empty addr) && (empty cert || empty key)

abbrev bad_key : Option Text → Bool
bad_key none = true
bad_key (some key) = not (length key == 32)

-- strings.Join(problems, "; ")
abbrev joined : Text → List Text → Text
joined p [] = p
joined p (q ∷ qs) = p ++ codes "; " ++ joined q qs

-- A listener: certificate and key stand together, and a TLS address has both.
abbrev pub Listener : Text → Text → Text → Type 0
Listener addr cert key =
    (((cert ≡ []) × (key ≡ [])) ⊎ ((cert ≢ []) × (key ≢ [])))
    × ((addr ≡ []) ⊎ ((cert ≢ []) × (key ≢ [])))

flatten_nil : (xss : List (List Text)) → (flatten xss ≡ []) ↔ All (λ xs. xs ≡ []) xss
unfolding flatten
flatten_nil [] = ((λ h. tt), λ h. refl)
flatten_nil ([] ∷ xss) = ((λ h. (refl, (flatten_nil xss).0 h)), λ h. (flatten_nil xss).1 h.1)
flatten_nil ((x ∷ xs) ∷ xss) = ((λ h. cc), λ h. cc (h.0))

report_inv : (b : Bool) (p : Text) → report b p ≡ [] → b ≡ false
report_inv true p h = cc
report_inv false p h = refl

report_none : (b : Bool) (p : Text) → b ≡ false → report b p ≡ []
report_none b p h = rw h

Listener-iff :
    (addr cert key : Text)
    → ((half_pair cert key ≡ false) × (bare_listener addr cert key ≡ false))
      ↔ Listener addr cert key
Listener-iff addr cert key = (
  (λ h. ground (arith, beq_iff addr [], beq_iff cert [], beq_iff key [])),
  λ h. ground (arith, beq_iff addr [], beq_iff cert [], beq_iff key []),
)

module _ (decode : Text → Option Text) where
  -- What each test of the code reports, in order.
  unfoldable pub checks : Config → List (List Text)
  checks c =
      (if empty c.public_host
        then codes "public_host is required" ∷ []
        else report (contains_any c.public_host (codes "\r\n\t @"))
            (codes "public_host must be a hostname without whitespace"))
      ∷ report (empty c.data_dir || empty c.cache_dir) (codes "data_dir and cache_dir are required")
      ∷ report (bad_key (decode c.master_key))
          (codes "master_key must be base64 for exactly 32 bytes")
      ∷ report (empty c.admin.username || empty c.admin.password)
          (codes "admin username and password are required")
      ∷ report (not (is_positive c.git.clone_timeout) || not (is_positive c.git.fetch_timeout))
          (codes "git.clone_timeout and git.fetch_timeout must be positive")
      ∷ report (not (is_positive c.smtp.max_message))
          (codes "smtp.max_message_bytes must be positive")
      ∷ report (half_pair c.web.tls_cert c.web.tls_key)
          (codes "web TLS certificate and key must be configured together")
      ∷ report (half_pair c.imap.tls_cert c.imap.tls_key)
          (codes "imap TLS certificate and key must be configured together")
      ∷ report (half_pair c.smtp.tls_cert c.smtp.tls_key)
          (codes "smtp TLS certificate and key must be configured together")
      ∷ report (bare_listener c.web.tls_addr c.web.tls_cert c.web.tls_key)
          (codes "web tls_addr requires a TLS certificate and key")
      ∷ report (bare_listener c.imap.tls_addr c.imap.tls_cert c.imap.tls_key)
          (codes "imap tls_addr requires a TLS certificate and key")
      ∷ report (bare_listener c.smtp.tls_addr c.smtp.tls_cert c.smtp.tls_key)
          (codes "smtp tls_addr requires a TLS certificate and key")
      ∷ []

  unfoldable pub problems : Config → List Text
  unfolding checks flatten
  problems c = flatten (checks c)

  -- Validate: the problems joined by `; `, if there are any.
  unfoldable pub validate : Config → Option Text
  unfolding problems
  validate c = elim (problems c) [ [] ↦ none | p ∷ ps ↦ some (joined p ps) ]

  -- A configuration that the program runs with.
  pub record IsValid (c : Config) : Type 0 where
    pub host : (c.public_host ≢ []) × (contains_any c.public_host (codes "\r\n\t @") ≡ false)
    pub directories : (c.data_dir ≢ []) × (c.cache_dir ≢ [])
    pub key : (k : Text) × (decode c.master_key ≡ some k) × (length k ≡ 32)
    pub admin : (c.admin.username ≢ []) × (c.admin.password ≢ [])
    pub timeouts :
        (is_positive c.git.clone_timeout ≡ true) × (is_positive c.git.fetch_timeout ≡ true)
    pub message_limit : is_positive c.smtp.max_message ≡ true
    pub web : Listener c.web.tls_addr c.web.tls_cert c.web.tls_key
    pub imap : Listener c.imap.tls_addr c.imap.tls_cert c.imap.tls_key
    pub smtp : Listener c.smtp.tls_addr c.smtp.tls_cert c.smtp.tls_key

  validate-problems : (c : Config) → (validate c ≡ none) ↔ (problems c ≡ [])
  unfolding validate
  validate-problems c = (λ h. ground arith, λ h. ground arith)

  key_lem : (o : Option Text) → (bad_key o ≡ false) ↔ ((k : Text) × (o ≡ some k) × (length k ≡ 32))
  key_lem none = ((λ h. cc), λ h. cc (h.1))
  key_lem (some k) = ((λ h. (k, refl, ground arith)), λ h. ground (arith, h.1, h.2))

  host_lem :
      (host : Text)
      → ((if empty host
            then codes "public_host is required" ∷ []
            else report
                (contains_any host (codes "\r\n\t @"))
                (codes "public_host must be a hostname without whitespace"))
          ≡ [])
        ↔ ((host ≢ []) × (contains_any host (codes "\r\n\t @") ≡ false))
  host_lem host = ((λ h. ground (arith, beq_iff host [])), λ h. ground (arith, beq_iff host []))

  admin_lem : (a b : Text) (p : Text) → (report (empty a || empty b) p ≡ []) ↔ ((a ≢ []) × (b ≢ []))
  admin_lem a b p = (
    (λ h. ground (arith, beq_iff a [], beq_iff b [])),
    λ h. ground (arith, beq_iff a [], beq_iff b []),
  )

  timeouts_lem :
      (a b : ℤ) (p : Text)
      → (report (not (is_positive a) || not (is_positive b)) p ≡ [])
        ↔ ((is_positive a ≡ true) × (is_positive b ≡ true))
  timeouts_lem a b p = ((λ h. ground arith), λ h. ground arith)

  validate_sound : (c : Config) → validate c ≡ none → IsValid c
  unfolding problems
  validate_sound c h =
      let all = (flatten_nil (checks c)).0 ((validate-problems c).0 h) in
      record {
        host = (host_lem c.public_host).0 (all.0);
        directories = (admin_lem c.data_dir c.cache_dir _).0 (all.1.0);
        key = (key_lem (decode c.master_key)).0 (report_inv _ _ (all.1.1.0));
        admin = (admin_lem c.admin.username c.admin.password _).0 (all.1.1.1.0);
        timeouts = (timeouts_lem c.git.clone_timeout c.git.fetch_timeout _).0 (all.1.1.1.1.0);
        message_limit = ground (arith, report_inv _ _ (all.1.1.1.1.1.0));
        web =
            (Listener-iff c.web.tls_addr c.web.tls_cert c.web.tls_key).0
              (report_inv _ _ (all.1.1.1.1.1.1.0), report_inv _ _ (all.1.1.1.1.1.1.1.1.1.0));
        imap =
            (Listener-iff c.imap.tls_addr c.imap.tls_cert c.imap.tls_key).0
              (report_inv _ _ (all.1.1.1.1.1.1.1.0), report_inv _ _ (all.1.1.1.1.1.1.1.1.1.1.0));
        smtp =
            (Listener-iff c.smtp.tls_addr c.smtp.tls_cert c.smtp.tls_key).0 (
              report_inv _ _ (all.1.1.1.1.1.1.1.1.0),
              report_inv _ _ (all.1.1.1.1.1.1.1.1.1.1.1.0),
            );
      }

  validate_complete : (c : Config) → IsValid c → validate c ≡ none
  unfolding problems
  validate_complete c v =
      let web = (Listener-iff c.web.tls_addr c.web.tls_cert c.web.tls_key).1 v.web in
      let imap = (Listener-iff c.imap.tls_addr c.imap.tls_cert c.imap.tls_key).1 v.imap in
      let smtp = (Listener-iff c.smtp.tls_addr c.smtp.tls_cert c.smtp.tls_key).1 v.smtp in
      (validate-problems c).1 (
        (flatten_nil (checks c)).1 (
          (host_lem c.public_host).1 v.host,
          (
            (admin_lem c.data_dir c.cache_dir _).1 v.directories,
            (
              report_none _ _ ((key_lem (decode c.master_key)).1 v.key),
              (
                (admin_lem c.admin.username c.admin.password _).1 v.admin,
                (
                  (timeouts_lem c.git.clone_timeout c.git.fetch_timeout _).1 v.timeouts,
                  (
                    report_none _ _ (rw v.message_limit refl),
                    (
                      report_none _ _ web.0,
                      (
                        report_none _ _ imap.0,
                        (
                          report_none _ _ smtp.0,
                          (
                            report_none _ _ web.1,
                            (report_none _ _ imap.1, (report_none _ _ smtp.1, tt)),
                          ),
                        ),
                      ),
                    ),
                  ),
                ),
              ),
            ),
          ),
        ))

  -- `Validate` finds no problem in exactly the configurations that are valid.
  pub validate_iff : (c : Config) → (validate c ≡ none) ↔ IsValid c
  validate_iff c = (validate_sound c, validate_complete c)
