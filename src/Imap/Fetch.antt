-- ===== src/Imap/Fetch.antt =====
-- internal/imapserver/server.go: the FETCH command. What is written for a section is named by the
-- section and the rendered message; extracting it is package go-imap's.
-- An error in writing to the connection is not modelled.
pub mod Among
pub mod Answers
use git2imap.Base.{
  ℕ, suc, ◌≡◌, refl, Bool, true, false, ◌||◌, Option, none, some, List, [], ◌∷◌, ◌++◌, map, Text,
  codes, arith, length, if◌then◌else◌,
}
use git2imap.Store.{Repository, Mailbox, Message}
use git2imap.Imap.{NumSet}
use git2imap.Imap.Sets.{num_set_contains}
use git2imap.Imap.Address.{split_address}
use git2imap.Imap.Search.Command.{last_uid}

-- A section is known by a number.
pub record FetchOptions : Type 0 where
  pub flags : Bool
  pub internal_date : Bool
  pub rfc822_size : Bool
  pub envelope : Bool
  pub body_structure : Bool
  pub body_section : List ℕ
  pub binary_section : List ℕ
  pub binary_section_size : List ℕ

pub record Address : Type 0 where
  pub name : Text
  pub mailbox : Text
  pub host : Text

pub record Envelope : Type 0 where
  pub date : ℕ
  pub subject : Text
  pub from : List Address
  pub sender : List Address
  pub reply_to : List Address
  pub to : List Address
  pub message_id : Text

-- imapAddress
unfoldable pub imap_address : Text → Address
unfolding split_address
imap_address address =
    let (mailbox, host) = split_address address in
    record { name = []; mailbox = mailbox; host = host }

-- messageEnvelope; `branch_hash` prints the first six bytes of the SHA-256 of the branch.
unfoldable pub message_envelope : (Text → Text) → Repository → Mailbox → Message → Envelope
unfolding imap_address split_address
message_envelope branch_hash repo mailbox message =
    let (from_mailbox, from_host) = split_address message.author_email in
    let author : List Address =
      (record { name = message.author_name; mailbox = from_mailbox; host = from_host }) ∷ [] in
    record {
      date = message.authored_at;
      subject = message.subject;
      from = author;
      sender = author;
      reply_to = author;
      to = imap_address repo.mail_username ∷ [];
      message_id =
          message.commit_oid
          ++ codes "."
          ++ branch_hash mailbox.branch
          ++ codes "."
          ++ repo.id
          ++ codes "@git2imap";
    }

pub data Item : Type 0 where
  uid_item : ℕ → Item
  flags_item : Item
  date_item : ℕ → Item
  size_item : ℕ → Item
  envelope_item : Envelope → Item
  structure_item : Text → Item
  body_item : ℕ → Text → Item
  binary_item : ℕ → Text → Item
  binary_size_item : ℕ → Text → Item

pub record Response : Type 0 where
  pub seq : ℕ
  pub items : List Item

abbrev pub is_set {ℓ} : {A : Type ℓ} → List A → Bool
is_set [] = false
is_set (x ∷ xs) = true

unfoldable pub needs_body : FetchOptions → Bool
needs_body o =
    o.rfc822_size
    || o.envelope
    || o.body_structure
    || is_set o.body_section
    || is_set o.binary_section
    || is_set o.binary_section_size

abbrev pub when : Bool → Item → List Item
when true i = i ∷ []
when false i = []

module _ (branch_hash : Text → Text) (render : Message → Option Text) (repo : Repository)
    (mailbox : Mailbox) (o : FetchOptions) where
  -- The items of a response, in the order in which they are written.
  unfoldable pub items : Message → Text → List Item
  unfolding message_envelope
  items m raw =
      uid_item m.uid ∷ when o.flags flags_item
      ++ when o.internal_date (date_item m.authored_at)
      ++ when o.rfc822_size (size_item (length raw))
      ++ when o.envelope (envelope_item (message_envelope branch_hash repo mailbox m))
      ++ when o.body_structure (structure_item raw)
      ++ map (λ s. body_item s raw) o.body_section
      ++ map (λ s. binary_item s raw) o.binary_section
      ++ map (λ s. binary_size_item s raw) o.binary_section_size

  -- The body that a response is made from; without need it is empty.
  unfoldable pub body : Message → Option Text
  unfolding needs_body
  body m = if needs_body o then render m else some []

  -- The loop of Fetch: the responses that are written, and whether it ended with an error.
  unfoldable pub fetch_from : NumSet → ℕ → ℕ → ℕ → List Message → List Response × Bool
  fetch_from set max_seq max_uid seq [] = ([], false)
  fetch_from set max_seq max_uid seq (m ∷ ms) =
      let (rest, failed) = fetch_from set max_seq max_uid (suc seq) ms in
      if num_set_contains set seq m.uid max_seq max_uid
      then (elim (body m) [
        | none ↦ ([], true)
        | some raw ↦ ((record { seq = seq; items = items m raw }) ∷ rest, failed)
      ])
      else (rest, failed)

  -- Fetch, on the messages of the selected mailbox.
  unfoldable pub fetch_messages : NumSet → List Message → List Response × Bool
  unfolding fetch_from last_uid
  fetch_messages set ms = fetch_from set (length ms) (last_uid ms) 1 ms
