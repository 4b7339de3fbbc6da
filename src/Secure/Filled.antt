-- ===== src/Secure/Filled.antt =====
-- internal/secure/secure.go as the service sees it: the interface `Secrets`, filled by the box and
-- the password hash.
use git2imap.Base.{◌≡◌, ap, sym, ◌∙◌, Option, none, some, Text, length, inl, inr}
use git2imap.Secure.Box.{Aead, Result, ok, err, encrypt, decrypt, decrypt-encrypt}
use git2imap.Secure.Password.{Argon, hash_password, verify_password, verify_password-hash_password}
use git2imap.Service.{Secrets}

abbrev answer : Result → Option Text
answer (ok s) = some s
answer (err e) = none

some-eq : {x y : Text} → some x ≡ some y → x ≡ y
some-eq {x = x} h = ap (λ o. elim o [ none ↦ x | some z ↦ z ]) h

module _ (box : Aead) (argon : Argon) (nonce salt : Text)
    (size : length nonce ≡ box.nonce_size) where
  pub box_back :
      (plain cipher : Text)
      → answer (encrypt box (some nonce) plain) ≡ some cipher
      → answer (decrypt box cipher) ≡ some plain
  box_back plain cipher h =
      elim (decrypt-encrypt box (some nonce) plain (λ n e. ap length (sym (some-eq e)) ∙ size)) [
        | inl (e, _) ↦ cc
        | inr (secret, e, d) ↦
            let same : secret ≡ cipher = some-eq (sym (ap answer e) ∙ h) in
            ap (λ c. answer (decrypt box c)) (sym same) ∙ ap answer d
      ]

  abbrev pub secrets : Secrets
  secrets = record {
    encrypt = λ plain. answer (encrypt box (some nonce) plain);
    decrypt = λ cipher. answer (decrypt box cipher);
    hash = hash_password argon (some salt);
    verify = verify_password argon;
    decrypt-encrypt = box_back;
    verify-hash = λ password h e. (verify_password-hash_password argon salt password e).0;
  }
