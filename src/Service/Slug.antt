-- ===== src/Service/Slug.antt =====
-- internal/service/repository.go: `projectSlug`. `unicode` is unicode.ToLower beyond ASCII.
use git2imap.Base.{
  ℕ, zero, suc, ◌≤◌, ◌≡◌, ◌⊎◌, inl, inr, refl, Bool, true, false, not, ◌&&◌, ◌||◌, [], ◌∷◌, ◌++◌,
  Text, codes, beq, arith, length, take, sym, ◌∙◌, length-append, length-take-le, leb, ltb, ◌==◌,
  if◌then◌else◌, to_lower, trim, trim_left, All, All-append, Bool-cases,
}
use mathlib.Core.List.{reverse, reverse-cons, reverse-reverse}
use mathlib.Core.Bool.{false≢true}

unfoldable pub is_alnum : ℕ → Bool
is_alnum r = (leb b'a' r && leb r b'z') || (leb b'0' r && leb r b'9')

abbrev nonempty : Text → Bool
nonempty [] = false
nonempty (c ∷ s) = true

-- The text that was built, and `lastDash`.
abbrev Built : Type 0
Built = Text × Bool

-- One round of the loop.
unfoldable pub slug_step : ℕ → Built → Built
unfolding is_alnum
slug_step r (b, last_dash) =
    if is_alnum r
    then (b ++ r ∷ [], false)
    else if nonempty b && not last_dash
    then (b ++ b'-' ∷ [], true)
    else (b, last_dash)

unfoldable pub slug_from : Text → Built → Built
slug_from [] built = built
slug_from (r ∷ rs) built = slug_from rs (slug_step r built)

abbrev pub is_dash : ℕ → Bool
is_dash c = c == b'-'

unfoldable pub project_slug : (ℕ → ℕ) → Text → Text
project_slug unicode name =
    let trimmed = trim is_dash (slug_from (to_lower unicode name) ([], false)).0 in
    let base = if beq trimmed [] then codes "repo" else trimmed in
    trim is_dash (if ltb 48 (length base) then take 48 base else base)

-- The characters of a slug: lower-case letters, digits and dashes.
abbrev pub SlugChar : ℕ → Type 0
SlugChar c = (is_alnum c ≡ true) ⊎ (c ≡ b'-')

slug_step-All : (r : ℕ) (b : Text) (d : Bool) → All SlugChar b → All SlugChar (slug_step r (b, d)).0
unfolding slug_step
slug_step-All r b d h = elim (Bool-cases (is_alnum r)) [
  | inl e ↦ rw e (All-append SlugChar b (r ∷ []) h (inl e, tt))
  | inr e ↦ elim (Bool-cases (nonempty b && not d)) [
    | inl f ↦ rw (e, f) (All-append SlugChar b (b'-' ∷ []) h (inr refl, tt))
    | inr f ↦ rw (e, f) h
  ]
]

slug_from-All :
    (rs : Text) (built : Built) → All SlugChar built.0 → All SlugChar (slug_from rs built).0
unfolding slug_from
slug_from-All [] built h = h
slug_from-All (r ∷ rs) (b, d) h = slug_from-All rs (slug_step r (b, d)) (slug_step-All r b d h)

trim_left-All : (P : ℕ → Type 0) (p : ℕ → Bool) (s : Text) → All P s → All P (trim_left p s)
unfolding trim_left
trim_left-All P p [] h = tt
trim_left-All P p (c ∷ s) (hc, hs) = elim (Bool-cases (p c)) [
  | inl e ↦ rw e (trim_left-All P p s hs)
  | inr e ↦ rw e (hc, hs)
]

trim_left-length : (p : ℕ → Bool) (s : Text) → length (trim_left p s) ≤ length s
unfolding trim_left
trim_left-length p [] = omega arith
trim_left-length p (c ∷ s) = ground (arith, trim_left-length p s)

reverse-length : (s : Text) → length (reverse s) ≡ length s
reverse-length [] = refl
reverse-length (c ∷ s) =
    rw reverse-cons (omega (arith, length-append (reverse s) (c ∷ []), reverse-length s))

reverse-All : (P : ℕ → Type 0) (s : Text) → All P s → All P (reverse s)
reverse-All P [] h = tt
reverse-All P (c ∷ s) (hc, hs) =
    rw reverse-cons (All-append P (reverse s) (c ∷ []) (reverse-All P s hs) (hc, tt))

trim-All : (P : ℕ → Type 0) (p : ℕ → Bool) (s : Text) → All P s → All P (trim p s)
unfolding trim
trim-All P p s h =
    let back =
      trim_left-All P p (reverse (trim_left p s)) (reverse-All P _ (trim_left-All P p s h)) in
    reverse-All P _ back

trim-length : (p : ℕ → Bool) (s : Text) → length (trim p s) ≤ length s
unfolding trim
trim-length p s =
    let a = trim_left-length p s in
    let b = reverse-length (trim_left p s) in
    let c = trim_left-length p (reverse (trim_left p s)) in
    omega (arith, reverse-length (trim_left p (reverse (trim_left p s))))

take-All : (P : ℕ → Type 0) (n : ℕ) (s : Text) → All P s → All P (take n s)
take-All P zero s h = tt
take-All P (suc n) [] h = tt
take-All P (suc n) (c ∷ s) (hc, hs) = (hc, take-All P n s hs)

-- Whether the text ends with a character for which a test holds.
abbrev pub Starts : (ℕ → Bool) → Text → Type 0
Starts p [] = ⊥
Starts p (c ∷ s) = p c ≡ true

trim_left-Starts : (p : ℕ → Bool) (s : Text) → ¬ Starts p (trim_left p s)
unfolding trim_left
trim_left-Starts p [] = λ h. h
trim_left-Starts p (c ∷ s) = elim (Bool-cases (p c)) [
  | inl e ↦ rw e (trim_left-Starts p s)
  | inr e ↦ rw e (λ h. false≢true (sym e ∙ h))
]

trim-Starts : (p : ℕ → Bool) (s : Text) → ¬ Starts p (reverse (trim p s))
unfolding trim
trim-Starts p s = rw reverse-reverse (trim_left-Starts p (reverse (trim_left p s)))

repo-All : All SlugChar (codes "repo")
unfolding is_alnum
repo-All = (inl refl, (inl refl, (inl refl, (inl refl, tt))))

base-All : (t : Text) → All SlugChar t → All SlugChar (if beq t [] then codes "repo" else t)
base-All t h = elim (Bool-cases (beq t [])) [ inl e ↦ rw e repo-All | inr e ↦ rw e h ]

abbrev shortened : Text → Text
shortened base = if ltb 48 (length base) then take 48 base else base

shortened_lem :
    (t : Text) → All SlugChar t → All SlugChar (shortened t) × (length (shortened t) ≤ 48)
shortened_lem t h = elim (Bool-cases (ltb 48 (length t))) [
  | inl e ↦ rw e (take-All SlugChar 48 t h, length-take-le 48 t)
  | inr e ↦ rw e (h, ground (arith, e))
]

-- A slug has at most 48 characters, all of them lower-case letters, digits or dashes, and it does
-- not end with a dash.
pub project_slug_lem :
    (unicode : ℕ → ℕ) (name : Text)
    → All SlugChar (project_slug unicode name)
      × (length (project_slug unicode name) ≤ 48)
      × (¬ Starts is_dash (reverse (project_slug unicode name)))
unfolding project_slug
project_slug_lem unicode name =
    let trimmed = trim is_dash (slug_from (to_lower unicode name) ([], false)).0 in
    let base = if beq trimmed [] then codes "repo" else trimmed in
    let built =
      trim-All SlugChar is_dash _ (slug_from-All (to_lower unicode name) ([], false) tt) in
    let (chars, short) = shortened_lem base (base-All trimmed built) in
    (
      trim-All SlugChar is_dash (shortened base) chars,
      omega (arith, trim-length is_dash (shortened base)),
      trim-Starts is_dash (shortened base),
    )
