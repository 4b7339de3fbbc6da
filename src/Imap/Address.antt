-- ===== src/Imap/Address.antt =====
-- internal/imapserver/server.go: an address of the envelope, cut at the first `@`.
use git2imap.Base.{
  ℕ, ◌≡◌, refl, ap, ◌∙◌, true, false, [], ◌∷◌, ◌++◌, Text, codes, has, arith, ◌==◌, if◌then◌else◌,
  Option, none, some, Bool-cases, ◌⊎◌, inl, inr,
}

abbrev prepend : ℕ → Option (Text × Text) → Option (Text × Text)
prepend c none = none
prepend c (some (a, b)) = some (c ∷ a, b)

-- strings.SplitN(s, "@", 2): the parts around the first `@`, if there is one.
unfoldable pub cut : ℕ → Text → Option (Text × Text)
cut at [] = none
cut at (c ∷ s) = let rest = prepend c (cut at s) in if c == at then some ([], s) else rest

abbrev or_localhost : Text → Option (Text × Text) → Text × Text
or_localhost address none = (address, codes "localhost")
or_localhost address (some parts) = parts

-- splitAddress
unfoldable pub split_address : Text → Text × Text
unfolding cut
split_address address = or_localhost address (cut b'@' address)

-- What a cut gives, in both cases.
abbrev Cuts : ℕ → Text → Option (Text × Text) → Type 0
Cuts at s none = has at s ≡ false
Cuts at s (some (a, b)) = (s ≡ a ++ at ∷ b) × (has at a ≡ false)

cut_step :
    (at c : ℕ) (s : Text) (r : Option (Text × Text))
    → Cuts at s r
    → Cuts at (c ∷ s) (if c == at then some ([], s) else prepend c r)
unfolding has
cut_step at c s none h = elim (Bool-cases (c == at)) [
  | inl e ↦ rw e (ground arith, refl)
  | inr e ↦ ground (arith, h)
]
cut_step at c s (some (a, b)) (h, k) = elim (Bool-cases (c == at)) [
  | inl e ↦ rw e (ground arith, refl)
  | inr e ↦ rw e (ap (λ t. c ∷ t) h, ground (arith, k))
]

cut-Cuts : (at : ℕ) (s : Text) → Cuts at s (cut at s)
unfolding cut has
cut-Cuts at [] = refl
cut-Cuts at (c ∷ s) = cut_step at c s (cut at s) (cut-Cuts at s)

has-append : (at : ℕ) (a b : Text) → has at (a ++ at ∷ b) ≡ true
unfolding has
has-append at [] b = ground arith
has-append at (c ∷ a) b = ground (arith, has-append at a b)

abbrev Parts : Text → Text × Text → Type 0
Parts address p =
    ((has b'@' address ≡ true) × (address ≡ p.0 ++ b'@' ∷ p.1) × (has b'@' p.0 ≡ false))
    ⊎ ((has b'@' address ≡ false) × (p ≡ (address, codes "localhost")))

Cuts-Parts :
    (address : Text) (r : Option (Text × Text))
    → Cuts b'@' address r
    → Parts address (or_localhost address r)
Cuts-Parts address none h = inr (h, refl)
Cuts-Parts address (some (a, b)) (h, k) = inl (ap (has b'@') h ∙ has-append b'@' a b, h, k)

-- An address with an `@` is cut at the first one, so that its parts spell it; one without is a
-- mailbox at localhost.
split_address_lem :
    (address : Text)
    → ((has b'@' address ≡ true)
        × (address ≡ (split_address address).0 ++ b'@' ∷ (split_address address).1)
        × (has b'@' (split_address address).0 ≡ false))
      ⊎ ((has b'@' address ≡ false) × (split_address address ≡ (address, codes "localhost")))
unfolding split_address
split_address_lem address = Cuts-Parts address (cut b'@' address) (cut-Cuts b'@' address)
