-- ===== src/Secure/Tests.antt =====
-- internal/secure/secure.go: a box with a nonce of two bytes, whose cipher flips the text around,
-- and keys that are the password, cut or filled up.
use mathlib.Core.List.{reverse, reverse-reverse}
use git2imap.Base.{
  ℕ, zero, suc, ◌+◌, ◌-◌, false, has, length, Option, ◌≡◌, refl, ap, some, [], ◌∷◌, ◌++◌, Text,
  codes, arith,
}
use git2imap.Secure.Password.{Argon}
use git2imap.Secure.Box.{Aead}

abbrev flipping : Aead
flipping = record {
  nonce_size = 2;
  seal = λ nonce plain. reverse plain;
  unseal = λ nonce sealed. some (reverse sealed);
  encode = λ s. s;
  decode = λ s. some s;
  unseal-seal = λ nonce plain h. ap some (reverse-reverse plain);
  decode-encode = λ s. refl;
}

abbrev nonce : Option Text
nonce = some (1 ∷ 2 ∷ [])

abbrev fill : ℕ → Text → Text
fill zero s = []
fill (suc n) [] = 0 ∷ fill n []
fill (suc n) (c ∷ s) = c ∷ fill n s

length-fill : (n : ℕ) (s : Text) → length (fill n s) ≡ n
length-fill zero s = refl
length-fill (suc n) [] = ap suc (length-fill n [])
length-fill (suc n) (c ∷ s) = ap suc (length-fill n s)

abbrev shift : Text → Text
shift [] = []
shift (c ∷ s) = (c + 100) ∷ shift s

abbrev unshift : Text → Text
unshift [] = []
unshift (c ∷ s) = (c - 100) ∷ unshift s

unshift-shift : (s : Text) → unshift (shift s) ≡ s
unshift-shift [] = refl
unshift-shift (c ∷ s) =
    let head : (c + 100) - 100 ≡ c = omega arith in rw (head, unshift-shift s) refl

shift_no_dollar : (s : Text) → has b'$' (shift s) ≡ false
unfolding has
shift_no_dollar [] = refl
shift_no_dollar (c ∷ s) = ground (arith, shift_no_dollar s)

abbrev filling : Argon
filling = record {
  id_key = λ password salt time memory threads n. fill n password;
  encode = shift;
  decode = λ s. some (unshift s);
  scan_costs = λ s. some (65536, 3, 2);
  length-id_key = λ password salt time memory threads n. length-fill n password;
  decode-encode = λ s. ap some (unshift-shift s);
  no_dollar = shift_no_dollar;
  scan = refl;
}

abbrev stored_hash : Text
stored_hash =
    codes "$argon2id$v=19$m=65536,t=3,p=2$"
    ++ (shift (codes "salt") ++ b'$' ∷ shift (fill 32 (codes "secret")))
