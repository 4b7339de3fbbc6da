-- ===== src/Imap/Search/Keys.antt =====
-- internal/imapserver/server.go: what each key of SEARCH asks of a message, told without the code's
-- tests.
use git2imap.Base.{
  ℕ, ◌*◌, ◌/◌, ◌≤◌, ◌<◌, ◌≡◌, ◌≢◌, ◌↔◌, ◌⊎◌, inl, inr, refl, Bool, true, false, not, ◌&&◌, ◌||◌,
  Option, none, some, List, [], ◌∷◌, ◌++◌, Text, codes, beq_iff, contains, length, leb, ◌==◌, All,
  arith,
}
use git2imap.Store.{Message}
use git2imap.Imap.{NumRange, Plain}
use git2imap.Imap.Sets.{InSet, seq_set_contains_iff, uid_set_contains_iff}
use git2imap.Imap.Search.{
  date_matches, all_seq, all_uid, flags_match, not_flags_match, headers_match, texts_match,
}

-- The start of the day on the clock of the place.
abbrev pub day_of : (ℕ → ℕ) → ℕ → ℕ
day_of local time = (local time / 86400) * 86400

abbrev pub Since : Option ℕ → ℕ → Type 0
Since none day = Unit
Since (some t) day = t ≤ day

abbrev pub Before : Option ℕ → ℕ → Type 0
Before none day = Unit
Before (some t) day = day < t

-- What the keys that stand side by side ask. LARGER and SMALLER with 0 are not given. A header key
-- asks that its name with a colon, and its value, occur somewhere in the message; body and text
-- keys that their values do.
pub record PlainMeets (local : ℕ → ℕ) (to_lower : Text → Text) (message : Message) (text : Text)
    (seq max_seq max_uid : ℕ) (c : Plain) : Type 0 where
  pub numbers : All (λ set. InSet set seq max_seq) c.seq_num
  pub uids : All (λ set. InSet set message.uid max_uid) c.uid
  pub since : Since c.since (day_of local message.authored_at)
  pub before : Before c.before (day_of local message.authored_at)
  pub sent_since : Since c.sent_since (day_of local message.authored_at)
  pub sent_before : Before c.sent_before (day_of local message.authored_at)
  pub flags : All (λ flag. flag ≡ []) c.flag
  pub not_flags : All (λ flag. flag ≢ []) c.not_flag
  pub larger : (c.larger ≡ 0) ⊎ (c.larger < length text)
  pub smaller : (c.smaller ≡ 0) ⊎ (length text < c.smaller)
  pub headers :
      All
        (λ (field : Text × Text).
          (contains (to_lower text) (to_lower field.0 ++ codes ":") ≡ true)
          × ((to_lower field.1 ≡ []) ⊎ (contains (to_lower text) (to_lower field.1) ≡ true)))
        c.header
  pub bodies : All (λ value. contains (to_lower text) (to_lower value) ≡ true) c.body
  pub texts : All (λ value. contains (to_lower text) (to_lower value) ≡ true) c.text

pub and_iff :
    {x y : Bool} {A B : Type 0} → (x ≡ true) ↔ A → (y ≡ true) ↔ B → ((x && y) ≡ true) ↔ (A × B)
and_iff {x} {y} f g = (
  λ h. let both : (x ≡ true) × (y ≡ true) = ground (arith, h) in (f.0 both.0, g.0 both.1),
  λ (a, b). ground (arith, f.1 a, g.1 b),
)

pub or_iff :
    {x y : Bool} {A B : Type 0} → (x ≡ true) ↔ A → (y ≡ true) ↔ B → ((x || y) ≡ true) ↔ (A ⊎ B)
or_iff {x = true} f g = ((λ h. inl (f.0 refl)), λ h. refl)
or_iff {x = false} f g = ((λ h. inr (g.0 h)), λ h. elim h [ inl a ↦ cc (f.1 a) | inr b ↦ g.1 b ])

pub not_iff : {x : Bool} {A : Type 0} → (x ≡ true) ↔ A → (not x ≡ true) ↔ ¬ A
not_iff {x = true} f = ((λ h a. cc), λ h. absurd (h (f.0 refl)))
not_iff {x = false} f = ((λ h a. cc (f.1 a)), λ h. refl)

same : {x : Bool} → (x ≡ true) ↔ (x ≡ true)
same = ((λ h. h), λ h. h)

pub all_seq_iff :
    (sets : List (List NumRange)) (seq top : ℕ)
    → (all_seq sets seq top ≡ true) ↔ All (λ set. InSet set seq top) sets
unfolding all_seq
all_seq_iff [] seq top = ((λ h. tt), λ h. refl)
all_seq_iff (set ∷ sets) seq top =
    and_iff (seq_set_contains_iff set seq top) (all_seq_iff sets seq top)

pub all_uid_iff :
    (sets : List (List NumRange)) (uid top : ℕ)
    → (all_uid sets uid top ≡ true) ↔ All (λ set. InSet set uid top) sets
unfolding all_uid
all_uid_iff [] uid top = ((λ h. tt), λ h. refl)
all_uid_iff (set ∷ sets) uid top =
    and_iff (uid_set_contains_iff set uid top) (all_uid_iff sets uid top)

pub date_matches_iff :
    (local : ℕ → ℕ) (time : ℕ) (since before : Option ℕ)
    → (date_matches local time since before ≡ true)
      ↔ (Since since (day_of local time) × Before before (day_of local time))
unfolding date_matches
date_matches_iff local time none none = ((λ h. (tt, tt)), λ h. refl)
date_matches_iff local time none (some t) =
    ((λ h. (tt, ground (arith, h))), λ (a, b). ground (arith, b))
date_matches_iff local time (some s) none =
    ((λ h. (ground (arith, h), tt)), λ (a, b). ground (arith, a))
date_matches_iff local time (some s) (some t) =
    ((λ h. (ground (arith, h), ground (arith, h))), λ (a, b). ground (arith, a, b))

pub flags_match_iff :
    (flags : List Text) → (flags_match flags ≡ true) ↔ All (λ flag. flag ≡ []) flags
unfolding flags_match
flags_match_iff [] = ((λ h. tt), λ h. refl)
flags_match_iff (flag ∷ flags) = and_iff (beq_iff flag []) (flags_match_iff flags)

pub not_flags_match_iff :
    (flags : List Text) → (not_flags_match flags ≡ true) ↔ All (λ flag. flag ≢ []) flags
unfolding not_flags_match
not_flags_match_iff [] = ((λ h. tt), λ h. refl)
not_flags_match_iff (flag ∷ flags) = and_iff (not_iff (beq_iff flag [])) (not_flags_match_iff flags)

pub texts_match_iff :
    (local : ℕ → ℕ) (to_lower : Text → Text) (lowered : Text) (values : List Text)
    → (texts_match local to_lower lowered values ≡ true)
      ↔ All (λ value. contains lowered (to_lower value) ≡ true) values
unfolding texts_match
texts_match_iff local to_lower lowered [] = ((λ h. tt), λ h. refl)
texts_match_iff local to_lower lowered (value ∷ values) =
    and_iff same (texts_match_iff local to_lower lowered values)

pub headers_match_iff :
    (local : ℕ → ℕ) (to_lower : Text → Text) (lowered : Text) (fields : List (Text × Text))
    → (headers_match local to_lower lowered fields ≡ true)
      ↔ All
          (λ (field : Text × Text).
            (contains lowered (to_lower field.0 ++ codes ":") ≡ true)
            × ((to_lower field.1 ≡ []) ⊎ (contains lowered (to_lower field.1) ≡ true)))
          fields
unfolding headers_match
headers_match_iff local to_lower lowered [] = ((λ h. tt), λ h. refl)
headers_match_iff local to_lower lowered ((key, value) ∷ fields) =
    and_iff (and_iff same (or_iff (beq_iff (to_lower value) []) same))
      (headers_match_iff local to_lower lowered fields)

pub All-split {ℓ} :
    {A : Type ℓ} (P : A → Type 0) (xs ys : List A) → All P (xs ++ ys) ↔ (All P xs × All P ys)
All-split P [] ys = ((λ h. (tt, h)), λ (a, b). b)
All-split P (x ∷ xs) ys =
    let rest = All-split P xs ys in
    (λ (p, h). let (a, b) = rest.0 h in ((p, a), b), λ ((p, a), b). (p, rest.1 (a, b)))

pub larger_iff : (n size : ℕ) → (not (not (n == 0) && leb size n) ≡ true) ↔ ((n ≡ 0) ⊎ (n < size))
larger_iff n size = ((λ h. ground (arith, h)), λ h. ground (arith, h))

pub smaller_iff : (n size : ℕ) → (not (not (n == 0) && leb n size) ≡ true) ↔ ((n ≡ 0) ⊎ (size < n))
smaller_iff n size = ((λ h. ground (arith, h)), λ h. ground (arith, h))
