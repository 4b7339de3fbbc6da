-- ===== src/Imap/Sets.antt =====
-- internal/imapserver/server.go: membership in the sets of messages that commands name.
use Prim.Native.Nat.{min, max}
use git2imap.Base.{
  ℕ, ◌≤◌, ◌≡◌, ◌↔◌, ◌⊎◌, inl, inr, Bool, true, false, ◌&&◌, List, [], ◌∷◌, arith, ltb, leb, ◌==◌,
  if◌then◌else◌, refl,
}
use git2imap.Imap.{NumRange, NumSet, seq_set, uid_set, other_set}

-- `*` is the largest number in the mailbox.
unfoldable pub resolve : ℕ → ℕ → ℕ
resolve top n = if n == 0 then top else n

-- One item: the ends are resolved, and swapped if they are out of order.
unfoldable pub range_contains : ℕ → ℕ → NumRange → Bool
unfolding resolve
range_contains value top item =
    let start = resolve top item.start in
    let stop = resolve top item.stop in
    if ltb stop start then leb stop value && leb value start else leb start value && leb value stop

-- seqSetContains
unfoldable pub seq_set_contains : List NumRange → ℕ → ℕ → Bool
unfolding range_contains
seq_set_contains [] value top = false
seq_set_contains (item ∷ set) value top =
    let rest = seq_set_contains set value top in
    if range_contains value top item then true else rest

-- uidSetContains
unfoldable pub uid_set_contains : List NumRange → ℕ → ℕ → Bool
unfolding range_contains
uid_set_contains [] value top = false
uid_set_contains (item ∷ set) value top =
    let rest = uid_set_contains set value top in
    if range_contains value top item then true else rest

-- numSetContains
unfoldable pub num_set_contains : NumSet → ℕ → ℕ → ℕ → ℕ → Bool
unfolding seq_set_contains uid_set_contains
num_set_contains (seq_set set) seq uid max_seq max_uid = seq_set_contains set seq max_seq
num_set_contains (uid_set set) seq uid max_seq max_uid = uid_set_contains set uid max_uid
num_set_contains other_set seq uid max_seq max_uid = false

-- RFC 3501: a number is in a range if it lies between its ends, whichever comes first.
abbrev pub Between : ℕ → ℕ → NumRange → Type 0
Between value top item =
    (min (resolve top item.start) (resolve top item.stop) ≤ value)
    × (value ≤ max (resolve top item.start) (resolve top item.stop))

abbrev pub InSet : List NumRange → ℕ → ℕ → Type 0
InSet [] value top = ⊥
InSet (item ∷ set) value top = Between value top item ⊎ InSet set value top

range_contains_iff :
    (value top : ℕ) (item : NumRange)
    → (range_contains value top item ≡ true) ↔ Between value top item
unfolding range_contains
range_contains_iff value top item = ((λ h. ground arith), λ h. ground arith)

pub seq_set_contains_iff :
    (set : List NumRange) (value top : ℕ)
    → (seq_set_contains set value top ≡ true) ↔ InSet set value top
unfolding seq_set_contains
seq_set_contains_iff [] value top = ((λ h. cc), λ h. absurd h)
seq_set_contains_iff (item ∷ set) value top =
    let here = range_contains_iff value top item in
    let there = seq_set_contains_iff set value top in
    (
      elim (range_contains value top item)
            as (λ t.
              (t ≡ true → Between value top item)
              → (if t then true else seq_set_contains set value top) ≡ true
              → InSet (item ∷ set) value top) [
                | true ↦ λ k h. inl (k refl)
                | false ↦ λ k h. inr (there.0 h)
              ]
          here.0,
      λ h. elim h [ inl a ↦ rw (here.1 a) | inr a ↦ ground (arith, there.1 a) ],
    )

uid-eq-seq :
    (set : List NumRange) (value top : ℕ)
    → uid_set_contains set value top ≡ seq_set_contains set value top
unfolding uid_set_contains seq_set_contains
uid-eq-seq [] value top = refl
uid-eq-seq (item ∷ set) value top = rw (uid-eq-seq set value top)

pub uid_set_contains_iff :
    (set : List NumRange) (value top : ℕ)
    → (uid_set_contains set value top ≡ true) ↔ InSet set value top
uid_set_contains_iff set value top =
    rw (uid-eq-seq set value top) (seq_set_contains_iff set value top)

-- What a set selects among the numbers of a mailbox, by the rule of RFC 3501.
abbrev pub Selects : NumSet → ℕ → ℕ → ℕ → ℕ → Type 0
Selects (seq_set set) seq uid max_seq max_uid = InSet set seq max_seq
Selects (uid_set set) seq uid max_seq max_uid = InSet set uid max_uid
Selects other_set seq uid max_seq max_uid = ⊥

-- The test of FETCH holds exactly for the numbers that the set selects: those between the ends of
-- one of its ranges, in either order, with `*` for the largest number.
pub num_set_contains_iff :
    (set : NumSet) (seq uid max_seq max_uid : ℕ)
    → (num_set_contains set seq uid max_seq max_uid ≡ true) ↔ Selects set seq uid max_seq max_uid
unfolding num_set_contains
num_set_contains_iff (seq_set set) seq uid max_seq max_uid = seq_set_contains_iff set seq max_seq
num_set_contains_iff (uid_set set) seq uid max_seq max_uid = uid_set_contains_iff set uid max_uid
num_set_contains_iff other_set seq uid max_seq max_uid = ((λ h. cc), λ h. absurd h)
