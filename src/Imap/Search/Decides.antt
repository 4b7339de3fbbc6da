-- ===== src/Imap/Search/Decides.antt =====
-- internal/imapserver/server.go: that `matches` decides what the criteria of SEARCH ask.
use git2imap.Base.{ℕ, ◌≡◌, ◌↔◌, ◌⊎◌, refl, Bool, true, ◌&&◌, some, ◌++◌, Text, contains, length}
use git2imap.Store.{Message}
use git2imap.Imap.{Plain, Criteria, criteria, Nots, no_nots, and_not, Ors, no_ors, and_or}
use git2imap.Imap.Search.{plain_matches, raw_matches, matches}
use git2imap.Imap.Search.Meaning.{holds, none_holds, each_holds, matches-holds}
use git2imap.Imap.Search.Keys.{
  PlainMeets, and_iff, or_iff, not_iff, all_seq_iff, all_uid_iff, date_matches_iff, flags_match_iff,
  not_flags_match_iff, texts_match_iff, headers_match_iff, All-split, larger_iff, smaller_iff,
}

module _ (local : ℕ → ℕ) (to_lower : Text → Text) (message : Message) (text : Text)
    (seq max_seq max_uid : ℕ) where
  abbrev MeetsPlain : Plain → Type 0
  MeetsPlain c = PlainMeets local to_lower message text seq max_seq max_uid c

  plain_iff :
      (c : Plain)
      → ((plain_matches local to_lower c message seq max_seq max_uid
            && raw_matches local to_lower c text)
          ≡ true)
        ↔ MeetsPlain c
  unfolding plain_matches raw_matches
  plain_iff c =
      let e =
        and_iff
          (and_iff
            (and_iff
              (and_iff
                (and_iff
                  (and_iff (all_seq_iff c.seq_num seq max_seq)
                    (all_uid_iff c.uid message.uid max_uid))
                  (date_matches_iff local message.authored_at c.since c.before))
                (date_matches_iff local message.authored_at c.sent_since c.sent_before))
              (flags_match_iff c.flag))
            (not_flags_match_iff c.not_flag))
          (and_iff
            (and_iff
              (and_iff (larger_iff c.larger (length text)) (smaller_iff c.smaller (length text)))
              (headers_match_iff local to_lower (to_lower text) c.header))
            (texts_match_iff local to_lower (to_lower text) (c.body ++ c.text))) in
      let both =
        All-split (λ value. contains (to_lower text) (to_lower value) ≡ true) c.body c.text in
      (
        λ h.
            let (
              (((((numbers, uids), date), sent), flags), not_flags),
              (((larger, smaller), headers), texts),
            ) =
              e.0 h in
            record {
              numbers = numbers;
              uids = uids;
              since = date.0;
              before = date.1;
              sent_since = sent.0;
              sent_before = sent.1;
              flags = flags;
              not_flags = not_flags;
              larger = larger;
              smaller = smaller;
              headers = headers;
              bodies = (both.0 texts).0;
              texts = (both.0 texts).1;
            },
        λ r. e.1 (
          (
            ((((r.numbers, r.uids), (r.since, r.before)), (r.sent_since, r.sent_before)), r.flags),
            r.not_flags,
          ),
          (((r.larger, r.smaller), r.headers), both.1 (r.bodies, r.texts)),
        ),
      )

  -- The message meets every key, none of the negated criteria, and of each alternative one side.
  mutual
    pub Meets : Criteria → Type 0
    Meets (criteria c nots ors) = MeetsPlain c × MeetsNone nots × MeetsEach ors

    pub MeetsNone : Nots → Type 0
    MeetsNone no_nots = Unit
    MeetsNone (and_not c nots) = (¬ Meets c) × MeetsNone nots

    pub MeetsEach : Ors → Type 0
    MeetsEach no_ors = Unit
    MeetsEach (and_or left right ors) = (Meets left ⊎ Meets right) × MeetsEach ors

  mutual
    unfolding holds Meets

    holds_iff :
        (c : Criteria) → (holds local to_lower message text seq max_seq max_uid c ≡ true) ↔ Meets c
    holds_iff (criteria c nots ors) =
        let all = and_iff (and_iff (plain_iff c) (none_holds_iff nots)) (each_holds_iff ors) in
        (
          λ h. let ((keys, nones), eaches) = all.0 h in (keys, nones, eaches),
          λ (keys, nones, eaches). all.1 ((keys, nones), eaches),
        )

    none_holds_iff :
        (nots : Nots)
        → (none_holds local to_lower message text seq max_seq max_uid nots ≡ true) ↔ MeetsNone nots
    none_holds_iff no_nots = ((λ h. tt), λ h. refl)
    none_holds_iff (and_not c nots) = and_iff (not_iff (holds_iff c)) (none_holds_iff nots)

    each_holds_iff :
        (ors : Ors)
        → (each_holds local to_lower message text seq max_seq max_uid ors ≡ true) ↔ MeetsEach ors
    each_holds_iff no_ors = ((λ h. tt), λ h. refl)
    each_holds_iff (and_or left right ors) =
        and_iff (or_iff (holds_iff left) (holds_iff right)) (each_holds_iff ors)

  -- When the message renders, SEARCH's test of it succeeds, and its answer is yes exactly if the
  -- message meets the criteria: every key, none of the negated criteria, and of each alternative
  -- one side at least, at every depth, although the text is rendered only for criteria that need
  -- it. The keys mean what PlainMeets says: in particular a header key is met by its name with a
  -- colon and its value anywhere in the message, and a body key by its value anywhere in it.
  pub matches_lem :
      (c : Criteria)
      → (b : Bool) × (matches local to_lower message (some text) seq max_seq max_uid c ≡ some b)
        × ((b ≡ true) ↔ Meets c)
  matches_lem c = (
    holds local to_lower message text seq max_seq max_uid c,
    matches-holds local to_lower message text seq max_seq max_uid c,
    holds_iff c,
  )
