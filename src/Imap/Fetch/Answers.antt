-- ===== src/Imap/Fetch/Answers.antt =====
-- internal/imapserver/server.go: what FETCH answers, told by the sets and the options alone.
use git2imap.Base.{ℕ, suc, ◌≡◌, ◌↔◌, true, Option, List, [], ◌∷◌, ◌++◌, map, Text, length}
use git2imap.Store.{Repository, Mailbox, Message}
use git2imap.Imap.{NumSet}
use git2imap.Imap.Sets.{Selects}
use git2imap.Imap.Fetch.Among.{Among}
use git2imap.Imap.Fetch.{
  FetchOptions, message_envelope, Item, uid_item, flags_item, date_item, size_item, envelope_item,
  structure_item, body_item, binary_item, binary_size_item, Response, needs_body, when, items,
}

module _ (branch_hash : Text → Text) (repo : Repository) (mailbox : Mailbox)
    (o : FetchOptions) where
  -- What the options ask for of a message with this text, item by item.
  abbrev pub Asked : Message → Text → Item → Type 0
  Asked m text (uid_item n) = n ≡ m.uid
  Asked m text flags_item = o.flags ≡ true
  Asked m text (date_item t) = (o.internal_date ≡ true) × (t ≡ m.authored_at)
  Asked m text (size_item n) = (o.rfc822_size ≡ true) × (n ≡ length text)
  Asked m text (envelope_item e) =
      (o.envelope ≡ true) × (e ≡ message_envelope branch_hash repo mailbox m)
  Asked m text (structure_item t) = (o.body_structure ≡ true) × (t ≡ text)
  Asked m text (body_item s t) = Among s o.body_section × (t ≡ text)
  Asked m text (binary_item s t) = Among s o.binary_section × (t ≡ text)
  Asked m text (binary_size_item s t) = Among s o.binary_section_size × (t ≡ text)

  -- A response names its message and holds what is asked of it, and nothing else.
  pub record Answers (seq : ℕ) (m : Message) (text : Text) (r : Response) : Type 0 where
    pub number : r.seq ≡ seq
    pub holds : (i : Item) → Among i r.items ↔ Asked m text i

  -- One response for each message that the set selects, and for no other, in their order.
  pub data Responses (text : Message → Text) (set : NumSet) (max_seq max_uid : ℕ)
      : ℕ → List Message → List Response → Type 0 where
    no_more : {seq : ℕ} → Responses text set max_seq max_uid seq [] []
    chosen :
        {seq : ℕ} {m : Message} {ms : List Message} {r : Response} {rs : List Response}
        → Selects set seq m.uid max_seq max_uid
        → Answers seq m (text m) r
        → Responses text set max_seq max_uid (suc seq) ms rs
        → Responses text set max_seq max_uid seq (m ∷ ms) (r ∷ rs)
    passed :
        {seq : ℕ} {m : Message} {ms : List Message} {rs : List Response}
        → ¬ Selects set seq m.uid max_seq max_uid
        → Responses text set max_seq max_uid (suc seq) ms rs
        → Responses text set max_seq max_uid seq (m ∷ ms) rs

  -- An item that holds the text is asked for only if the text is rendered.
  module _ (render : Message → Option Text) (m : Message) (raw text : Text)
      (rendered : needs_body o ≡ true → raw ≡ text) where
    -- The items up to each of the options.
    abbrev to_flags : List Item
    to_flags = uid_item m.uid ∷ when o.flags flags_item

    abbrev part_date : List Item
    part_date = when o.internal_date (date_item m.authored_at)

    abbrev to_date : List Item
    to_date = to_flags ++ part_date

    abbrev part_size : List Item
    part_size = when o.rfc822_size (size_item (length raw))

    abbrev to_size : List Item
    to_size = to_date ++ part_size

    abbrev part_envelope : List Item
    part_envelope = when o.envelope (envelope_item (message_envelope branch_hash repo mailbox m))

    abbrev to_envelope : List Item
    to_envelope = to_size ++ part_envelope

    abbrev part_structure : List Item
    part_structure = when o.body_structure (structure_item raw)

    abbrev to_structure : List Item
    to_structure = to_envelope ++ part_structure

    abbrev part_bodies : List Item
    part_bodies = map (λ s. body_item s raw) o.body_section

    abbrev to_bodies : List Item
    to_bodies = to_structure ++ part_bodies

    abbrev part_binaries : List Item
    part_binaries = map (λ s. binary_item s raw) o.binary_section

    abbrev to_binaries : List Item
    to_binaries = to_bodies ++ part_binaries

    abbrev part_sizes : List Item
    part_sizes = map (λ s. binary_size_item s raw) o.binary_section_size

    abbrev to_sizes : List Item
    to_sizes = to_binaries ++ part_sizes
