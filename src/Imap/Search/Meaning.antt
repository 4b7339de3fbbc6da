-- ===== src/Imap/Search/Meaning.antt =====
-- internal/imapserver/server.go: the criteria of SEARCH as one Boolean, and that `matches` computes it.
use git2imap.Base.{ℕ, ◌≡◌, refl, Bool, true, false, not, ◌&&◌, ◌||◌, some, [], Text, arith}
use git2imap.Store.{Message}
use git2imap.Imap.{Plain, Criteria, criteria, Nots, no_nots, and_not, Ors, no_ors, and_or}
use git2imap.Imap.Search.{
  headers_match, texts_match, needs_raw, plain_matches, raw_matches, matches_head, matches,
  matches_not, matches_or,
}

module _ (local : ℕ → ℕ) (to_lower : Text → Text) where
  -- Criteria that ask for no text and no size hold of every text.
  raw_matches_any :
      (c : Plain) (s : Text)
      → needs_raw local to_lower c ≡ false
      → raw_matches local to_lower c s ≡ true
  unfolding needs_raw raw_matches headers_match texts_match
  raw_matches_any c s h = ground arith

  module _ (message : Message) (text : Text) (seq max_seq max_uid : ℕ) where
    -- The criteria put together from the tests of their keys: every key of the conjunction, no
    -- negated criteria, and one side at least of each alternative.
    unfoldable mutual
      pub holds : Criteria → Bool
      holds (criteria c nots ors) =
          plain_matches local to_lower c message seq max_seq max_uid
          && raw_matches local to_lower c text
          && none_holds nots
          && each_holds ors

      pub none_holds : Nots → Bool
      none_holds no_nots = true
      none_holds (and_not c nots) = not (holds c) && none_holds nots

      pub each_holds : Ors → Bool
      each_holds no_ors = true
      each_holds (and_or left right ors) = (holds left || holds right) && each_holds ors

    head_lem :
        (c : Plain)
        → matches_head local to_lower message (some text) seq max_seq max_uid c
          ≡ some (
              plain_matches local to_lower c message seq max_seq max_uid
              && raw_matches local to_lower c text)
    unfolding matches_head
    head_lem c = ground (arith, raw_matches_any c [], raw_matches_any c text)

    mutual
      unfolding matches holds

      pub matches-holds :
          (c : Criteria)
          → matches local to_lower message (some text) seq max_seq max_uid c ≡ some (holds c)
      matches-holds (criteria c nots ors) =
          ground (arith, head_lem c, matches_not-none_holds nots, matches_or-each_holds ors)

      matches_not-none_holds :
          (nots : Nots)
          → matches_not local to_lower message (some text) seq max_seq max_uid nots
            ≡ some (none_holds nots)
      matches_not-none_holds no_nots = refl
      matches_not-none_holds (and_not c nots) =
          ground (arith, matches-holds c, matches_not-none_holds nots)

      matches_or-each_holds :
          (ors : Ors)
          → matches_or local to_lower message (some text) seq max_seq max_uid ors
            ≡ some (each_holds ors)
      matches_or-each_holds no_ors = refl
      matches_or-each_holds (and_or left right ors) =
          ground (arith, matches-holds left, matches-holds right, matches_or-each_holds ors)
