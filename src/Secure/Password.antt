-- ===== src/Secure/Password.antt =====
-- internal/secure/secure.go: `HashPassword` and `VerifyPassword`.
use git2imap.Base.{
  split, split_first, split_first-append, split_first-whole, beq_iff, ℕ, ◌≡◌, refl, ap, sym, ◌∙◌,
  Bool, true, false, Option, none, some, List, [], ◌∷◌, ◌++◌, Text, codes, beq, beq_refl, has,
  length, if◌then◌else◌,
}

-- argon2.IDKey, base64.RawStdEncoding and fmt.Sscanf with "m=%d,t=%d,p=%d", with their documented
-- laws: a key has the length that is asked for, what was encoded decodes to itself and holds no
-- dollar sign, and the scanner reads the three numbers that are written in this form. Costs of zero,
-- for which argon2 panics, are not told apart from others.
pub record Argon : Type 0 where
  pub id_key : Text → Text → ℕ → ℕ → ℕ → ℕ → Text
  pub encode : Text → Text
  pub decode : Text → Option Text
  pub scan_costs : Text → Option (ℕ × ℕ × ℕ)
  pub length-id_key :
      (password salt : Text) (time memory threads n : ℕ)
      → length (id_key password salt time memory threads n) ≡ n
  pub decode-encode : (s : Text) → decode (encode s) ≡ some s
  pub no_dollar : (s : Text) → has b'$' (encode s) ≡ false
  pub scan : scan_costs (codes "m=65536,t=3,p=2") ≡ some (65536, 3, 2)

module _ (a : Argon) where
  abbrev encoded : Text → Text → Text
  encoded salt key =
      codes "$argon2id$v=19$m=65536,t=3,p=2$" ++ (a.encode salt ++ b'$' ∷ a.encode key)

  -- HashPassword; the salt is what rand.Read gives, `none` for its error.
  unfoldable pub hash_password : Option Text → Text → Option Text
  hash_password none password = none
  hash_password (some salt) password = some (encoded salt (a.id_key password salt 3 65536 2 32))

  abbrev compared : Text → ℕ × ℕ × ℕ → Option Text → Option Text → Bool
  compared password (memory, time, threads) none expected = false
  compared password (memory, time, threads) (some salt) none = false
  compared password (memory, time, threads) (some salt) (some expected) =
      beq (a.id_key password salt time memory threads (length expected)) expected

  abbrev checked : Text → Text → Text → Option (ℕ × ℕ × ℕ) → Bool
  checked password salt key none = false
  checked password salt key (some costs) = compared password costs (a.decode salt) (a.decode key)

  abbrev verify_parts : Text → List Text → Bool
  verify_parts password (start ∷ kind ∷ version ∷ costs ∷ salt ∷ key ∷ []) =
      let ok = checked password salt key (a.scan_costs costs) in
      if beq kind (codes "argon2id") then ok else false
  verify_parts password parts = false

  -- VerifyPassword
  unfoldable pub verify_password : Text → Text → Bool
  unfolding split
  verify_password hash password = verify_parts password (split b'$' hash)

  split-encoded :
      (salt key : Text)
      → split b'$' (encoded salt key)
        ≡ []
          ∷ codes "argon2id"
          ∷ codes "v=19"
          ∷ codes "m=65536,t=3,p=2"
          ∷ a.encode salt
          ∷ a.encode key
          ∷ []
  unfolding split split_first
  split-encoded salt key =
      rw
        (
          split_first-append b'$' (a.encode salt) (a.encode key) (a.no_dollar salt),
          split_first-whole b'$' (a.encode key) (a.no_dollar key),
        )
        refl

  verify_password-encoded :
      (salt stored given : Text)
      → verify_password (encoded salt (a.id_key stored salt 3 65536 2 32)) given
        ≡ beq (a.id_key given salt 3 65536 2 32) (a.id_key stored salt 3 65536 2 32)
  unfolding verify_password beq
  verify_password-encoded salt stored given =
      let key = a.id_key stored salt 3 65536 2 32 in
      ap (verify_parts given) (split-encoded salt key)
      ∙ rw
          (
            a.scan,
            a.decode-encode salt,
            a.decode-encode key,
            a.length-id_key stored salt 3 65536 2 32,
          )
          refl

  -- The hash of a password, under any salt, accepts that password, and another one only if the key
  -- that is derived from it is the same.
  pub verify_password-hash_password :
      (salt stored : Text) {hash : Text}
      → hash_password (some salt) stored ≡ some hash
      → (verify_password hash stored ≡ true)
        × ((given : Text)
            → verify_password hash given ≡ true
            → a.id_key given salt 3 65536 2 32 ≡ a.id_key stored salt 3 65536 2 32)
  unfolding hash_password
  verify_password-hash_password salt stored {hash} h =
      let key = a.id_key stored salt 3 65536 2 32 in
      let is : encoded salt key ≡ hash =
        ap (λ o. elim o [ none ↦ encoded salt key | some x ↦ x ]) h in
      rw (← is) (
        verify_password-encoded salt stored stored ∙ beq_refl key,
        λ given e.
            (beq_iff (a.id_key given salt 3 65536 2 32) key).0
              (sym (verify_password-encoded salt stored given) ∙ e),
      )
