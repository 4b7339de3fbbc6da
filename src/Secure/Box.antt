-- ===== src/Secure/Box.antt =====
-- internal/secure/secure.go: `Encrypt` and `Decrypt`.
use git2imap.Base.{
  ℕ, ◌≡◌, refl, false, Option, none, some, ◌++◌, Text, arith, length, take, drop, ltb,
  if◌then◌else◌, length-append, ◌⊎◌, inl, inr, take-append, drop-append,
}

-- What the code uses of cipher.AEAD and of base64.RawStdEncoding, with their documented laws: what
-- was sealed opens under the same nonce, and what was encoded decodes to itself.
pub record Aead : Type 0 where
  pub nonce_size : ℕ
  pub seal : Text → Text → Text
  pub unseal : Text → Text → Option Text
  pub encode : Text → Text
  pub decode : Text → Option Text
  pub unseal-seal :
      (nonce plain : Text)
      → length nonce ≡ nonce_size
      → unseal nonce (seal nonce plain) ≡ some plain
  pub decode-encode : (s : Text) → decode (encode s) ≡ some s

pub data BoxError : Type 0 where
  nonce_failed invalid_encoding too_short not_decrypted : BoxError

pub data Result : Type 0 where
  ok : Text → Result
  err : BoxError → Result

module _ (a : Aead) where
  -- Encrypt; `nonce` is what rand.Read gives, `none` for its error.
  unfoldable pub encrypt : Option Text → Text → Result
  encrypt none plain = err nonce_failed
  encrypt (some nonce) plain = ok (a.encode (nonce ++ a.seal nonce plain))

  abbrev opened : Option Text → Result
  opened none = err not_decrypted
  opened (some plain) = ok plain

  abbrev decoded : Option Text → Result
  decoded none = err invalid_encoding
  decoded (some bytes) =
      if ltb (length bytes) a.nonce_size
      then err too_short
      else opened (a.unseal (take a.nonce_size bytes) (drop a.nonce_size bytes))

  -- Decrypt
  unfoldable pub decrypt : Text → Result
  decrypt encoded = decoded (a.decode encoded)

  decrypt_bytes :
      (nonce sealed : Text)
      → length nonce ≡ a.nonce_size
      → (ltb (length (nonce ++ sealed)) a.nonce_size ≡ false)
        × (take a.nonce_size (nonce ++ sealed) ≡ nonce)
        × (drop a.nonce_size (nonce ++ sealed) ≡ sealed)
  decrypt_bytes nonce sealed h = (
    ground (arith, length-append nonce sealed),
    rw (← h) (take-append nonce sealed),
    rw (← h) (drop-append nonce sealed),
  )

  pub decrypt-encrypt :
      (nonce : Option Text) (plain : Text)
      → ((n : Text) → nonce ≡ some n → length n ≡ a.nonce_size)
      → ((nonce ≡ none) × (encrypt nonce plain ≡ err nonce_failed))
        ⊎ ((secret : Text) × (encrypt nonce plain ≡ ok secret) × (decrypt secret ≡ ok plain))
  unfolding encrypt decrypt
  decrypt-encrypt none plain h = inl (refl, refl)
  decrypt-encrypt (some nonce) plain h =
      let size = h nonce refl in
      let (fits, front, back) = decrypt_bytes nonce (a.seal nonce plain) size in
      inr (
        a.encode (nonce ++ a.seal nonce plain),
        refl,
        rw (
          a.decode-encode (nonce ++ a.seal nonce plain),
          fits,
          front,
          back,
          a.unseal-seal nonce plain size,
        ),
      )
