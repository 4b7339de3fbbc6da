-- ===== src/Imap/Search.antt =====
-- internal/imapserver/server.go: the SEARCH command. `raw` is what rendering the message gives,
-- `none` for an error; a result `none` is an error. `to_lower` is strings.ToLower on the bytes of a
-- text.
pub mod Meaning
pub mod Keys
pub mod Decides
pub mod Command
pub mod Results
use git2imap.Base.{
  ℕ, ◌+◌, ◌*◌, ◌/◌, Bool, true, false, not, ◌&&◌, ◌||◌, Option, none, some, List, [], ◌∷◌, ◌++◌,
  Text, codes, beq, contains, length, ltb, leb, ◌==◌, if◌then◌else◌,
}
use git2imap.Store.{Message}
use git2imap.Imap.{NumRange, Plain, Criteria, criteria, Nots, no_nots, and_not, Ors, no_ors, and_or}
use git2imap.Imap.Sets.{seq_set_contains, uid_set_contains}

infixl 5 ◌>>=◌
abbrev ◌>>=◌ : Option Bool → (Bool → Option Bool) → Option Bool
none >>= f = none
some b >>= f = f b

abbrev is_set {ℓ} : {A : Type ℓ} → List A → Bool
is_set [] = false
is_set (x ∷ xs) = true

-- dateMatches. `local` is the time zone: the seconds on the clock of the place.
unfoldable pub date_matches : (ℕ → ℕ) → ℕ → Option ℕ → Option ℕ → Bool
date_matches local value since before =
    let day = (local value / 86400) * 86400 in
    let from : Bool = elim since [ none ↦ true | some t ↦ not (ltb day t) ] in
    let until : Bool = elim before [ none ↦ true | some t ↦ ltb day t ] in from && until

-- The loops of `matches` over plain lists, each the test that none of its rounds returns false.
unfoldable pub all_seq : List (List NumRange) → ℕ → ℕ → Bool
all_seq [] seq top = true
all_seq (set ∷ sets) seq top = seq_set_contains set seq top && all_seq sets seq top

unfoldable pub all_uid : List (List NumRange) → ℕ → ℕ → Bool
all_uid [] uid top = true
all_uid (set ∷ sets) uid top = uid_set_contains set uid top && all_uid sets uid top

unfoldable pub flags_match : List Text → Bool
flags_match [] = true
flags_match (flag ∷ flags) = beq flag [] && flags_match flags

unfoldable pub not_flags_match : List Text → Bool
not_flags_match [] = true
not_flags_match (flag ∷ flags) = not (beq flag []) && not_flags_match flags

module _ (local : ℕ → ℕ) (to_lower : Text → Text) where
  -- `lowered` is the rendered message in lower case.
  unfoldable pub headers_match : Text → List (Text × Text) → Bool
  headers_match lowered [] = true
  headers_match lowered ((key, value) ∷ fields) =
      let needle = to_lower value in
      let found = contains lowered (to_lower key ++ codes ":") in
      (found && (beq needle [] || contains lowered needle)) && headers_match lowered fields

  unfoldable pub texts_match : Text → List Text → Bool
  texts_match lowered [] = true
  texts_match lowered (value ∷ values) =
      contains lowered (to_lower value) && texts_match lowered values

  unfoldable pub needs_raw : Plain → Bool
  needs_raw c =
      is_set c.header
      || is_set c.body
      || is_set c.text
      || not (c.larger == 0)
      || not (c.smaller == 0)

  -- The tests before the rendering.
  unfoldable pub plain_matches : Plain → Message → ℕ → ℕ → ℕ → Bool
  unfolding all_seq all_uid date_matches flags_match not_flags_match
  plain_matches c message seq max_seq max_uid =
      all_seq c.seq_num seq max_seq
      && all_uid c.uid message.uid max_uid
      && date_matches local message.authored_at c.since c.before
      && date_matches local message.authored_at c.sent_since c.sent_before
      && flags_match c.flag
      && not_flags_match c.not_flag

  -- The tests on the rendered message.
  unfoldable pub raw_matches : Plain → Text → Bool
  unfolding headers_match texts_match
  raw_matches c raw =
      let lowered = to_lower raw in
      not (not (c.larger == 0) && leb (length raw) c.larger)
      && not (not (c.smaller == 0) && leb c.smaller (length raw))
      && headers_match lowered c.header
      && texts_match lowered (c.body ++ c.text)

  module _ (message : Message) (raw : Option Text) (seq max_seq max_uid : ℕ) where
    -- The part of `matches` before its loops over `Not` and `Or`. Without need, `raw` is empty.
    unfoldable pub matches_head : Plain → Option Bool
    matches_head c =
        if plain_matches c message seq max_seq max_uid
        then (if needs_raw c
            then (elim raw [ none ↦ none | some text ↦ some (raw_matches c text) ])
            else some (raw_matches c []))
        else some false

    mutual
      pub matches : Criteria → Option Bool
      matches (criteria c nots ors) = elim (matches_head c) [
        | none ↦ none
        | some false ↦ some false
        | some true ↦ elim (matches_not nots) [
          | none ↦ none
          | some false ↦ some false
          | some true ↦ matches_or ors
        ]
      ]

      -- The loop over `Not`; true if it runs to its end.
      pub matches_not : Nots → Option Bool
      matches_not no_nots = some true
      matches_not (and_not c nots) = elim (matches c) [
        | none ↦ none
        | some true ↦ some false
        | some false ↦ matches_not nots
      ]

      -- The loop over `Or`: both sides are computed.
      pub matches_or : Ors → Option Bool
      matches_or no_ors = some true
      matches_or (and_or left right ors) = elim (matches left) [
        | none ↦ none
        | some l ↦ elim (matches right) [
          | none ↦ none
          | some r ↦ elim (l || r) [ false ↦ some false | true ↦ matches_or ors ]
        ]
      ]
