-- ===== src/Store/Replace/Uids.antt =====
-- internal/store/store.go: the uids that a mail client sees across `ReplaceMailboxes`, through the
-- query of `Messages`.
use git2imap.Base.{
  ℕ, ◌+◌, ◌≤◌, ◌<◌, ◌^◌, ◌≡◌, ◌≢◌, sym, ap, ◌∙◌, true, some, List, [], ◌∷◌, ◌++◌, Text, beq, find,
  arith, length, All, All-append, Ascending, sort_by-Ascending, subst, Bool-cases, inl, inr,
}
use git2imap.Store.{Mailbox, Message, BranchSnapshot, Db, ok}
use git2imap.Store.Mailboxes.{uid_le, messages}
use git2imap.Store.Replace.{Clock, u32, needs_rebuild, mailbox_name, replace_mailboxes}
use git2imap.Store.Replace.Commits.{held, uid_lt, Within}
use git2imap.Store.Replace.Rows.{row}
use git2imap.Store.Replace.Branch.{Kept}
use git2imap.Store.Replace.Outcome.{DistinctNames, Fits, Outcome}
use git2imap.Store.Replace.Contract.{AllApart, replace_mailboxes-Outcome}

-- The uids of a mailbox ascend strictly, start at 1 and lie below its next uid.
pub record Numbered (m : Mailbox) (db : Db) : Type 0 where
  pub ascending : Ascending uid_lt (held m.id db)
  pub within : All (Within m.id 1 m.next_uid) (held m.id db)

uid_lt-le :
    (m : Message) (ms : List Message)
    → All (λ y. uid_lt m y ≡ true) ms
    → All (λ y. uid_le m y ≡ true) ms
uid_lt-le m [] h = tt
uid_lt-le m (y ∷ ms) (h, hs) = (ground arith, uid_lt-le m ms hs)

Ascending-weaken : (ms : List Message) → Ascending uid_lt ms → Ascending uid_le ms
Ascending-weaken [] h = tt
Ascending-weaken (m ∷ ms) (h, hs) = (uid_lt-le m ms h, Ascending-weaken ms hs)

-- The query returns the rows in the order in which they were inserted.
pub messages-held : (id : ℕ) (db : Db) → Ascending uid_lt (held id db) → messages id db ≡ held id db
unfolding messages
messages-held id db h = sort_by-Ascending uid_le (held id db) (Ascending-weaken _ h)

above :
    (id low high : ℕ) (m : Message) (ms : List Message)
    → m.uid < low
    → All (Within id low high) ms
    → All (λ y. uid_lt m y ≡ true) ms
above id low high m [] h a = tt
above id low high m (n ∷ ms) h (a, as') = (ground arith, above id low high m ms h as')

Ascending-append :
    (id low mid high : ℕ) (xs ys : List Message)
    → Ascending uid_lt xs
    → All (Within id low mid) xs
    → Ascending uid_lt ys
    → All (Within id mid high) ys
    → Ascending uid_lt (xs ++ ys)
Ascending-append id low mid high [] ys ax bx ay by' = ay
Ascending-append id low mid high (x ∷ xs) ys (h, ax) (b, bx) ay by' = (
  All-append (λ y. uid_lt x y ≡ true) xs ys h (above id mid high x ys (omega arith) by'),
  Ascending-append id low mid high xs ys ax bx ay by',
)

Within-weaken :
    (id low high low' high' : ℕ) (ms : List Message)
    → low' ≤ low
    → high ≤ high'
    → All (Within id low high) ms
    → All (Within id low' high') ms
Within-weaken id low high low' high' [] h k a = tt
Within-weaken id low high low' high' (m ∷ ms) h k (a, as') =
    (ground arith, Within-weaken id low high low' high' ms h k as')

pub Kept-Numbered :
    (m : Mailbox) (b : BranchSnapshot) (after before : Db)
    → 1 ≤ m.next_uid
    → Numbered m before
    → Kept m b after before
    → Numbered
        (record m { next_uid = m.next_uid + length b.new_commits; head_oid = b.head_oid })
        after
Kept-Numbered m b after before one n k =
    let high = m.next_uid + length b.new_commits in
    record {
      ascending = rw k.appended (
          Ascending-append m.id 1 m.next_uid high (held m.id before) k.new n.ascending n.within
            k.ascending k.within);
      within = rw k.appended (
          All-append (Within m.id 1 high) (held m.id before) k.new
            (Within-weaken m.id 1 m.next_uid 1 high _ (omega arith) (omega arith) n.within)
            (Within-weaken m.id m.next_uid high 1 high _ one (omega arith) k.within));
    }

pub some-injective : {a b : Mailbox} → some a ≡ some b → a ≡ b
some-injective h = ground arith

pub next_validity : (v : ℕ) → v < 2 ^ 32 → u32 (v + 1) ≢ v
next_validity v h = omega arith

module _ (clock : Text → Clock) (repo_id default : Text) (bs : List BranchSnapshot)
    (b : BranchSnapshot) (m m' : Mailbox) (db : Db) {db' : Db} (apart : AllApart db.mailboxes)
    (distinct : DistinctNames bs) (le : m.id ≤ db.last_mailbox_id) (at : row m.id db ≡ some m)
    (mine : m.repository_id ≡ repo_id) (seen : find (λ c. beq c.name m.branch) bs ≡ some b)
    (fits : Fits m b) (h : replace_mailboxes clock repo_id default bs db ≡ ok db')
    (after : row m.id db' ≡ some m') (one : 1 ≤ m.next_uid) (numbered : Numbered m db) where
  outcome : Outcome default m b db' db
  outcome =
      replace_mailboxes-Outcome clock repo_id default bs b m db apart distinct le at mine seen fits
        h

  -- A refresh that commits keeps the uids of a mailbox strictly ascending from 1 and below its next
  -- uid, for apart rows, distinct branch names and uids below 2 ^ 32.
  pub replace_mailboxes-Numbered : Numbered m' db'
  replace_mailboxes-Numbered = elim (Bool-cases (needs_rebuild (mailbox_name default b.name) b m)) [
    | inl e ↦
        let r = outcome.rebuilt e in
        subst (λ x. Numbered x db') (some-injective (sym r.at ∙ after))
          (record { ascending = r.ascending; within = r.within })
    | inr e ↦
        let k = outcome.kept e in
        subst (λ x. Numbered x db') (some-injective (sym k.at ∙ after))
          (Kept-Numbered m b db' db one numbered k)
  ]

  -- Under the same conditions, if a refresh leaves the UIDVALIDITY of a mailbox as it was, then the query of its messages
  -- returns the same messages as before with the same uids, followed by new ones, whose uids are
  -- at least the old next uid.
  pub uid_contract :
      m.uid_validity < 2 ^ 32
      → m'.uid_validity ≡ m.uid_validity
      → (new : List Message) × (messages m.id db' ≡ messages m.id db ++ new)
        × All (Within m.id m.next_uid (m.next_uid + length b.new_commits)) new
  uid_contract small same = elim (Bool-cases (needs_rebuild (mailbox_name default b.name) b m)) [
    | inl e ↦
        let is = some-injective (sym (outcome.rebuilt e).at ∙ after) in
        absurd (next_validity m.uid_validity small (ap (λ (x : Mailbox). x.uid_validity) is ∙ same))
    | inr e ↦
        let k = outcome.kept e in
        let id : m'.id ≡ m.id =
          sym (ap (λ (x : Mailbox). x.id) (some-injective (sym k.at ∙ after))) in
        let asc =
          subst (λ i. Ascending uid_lt (held i db')) id replace_mailboxes-Numbered.ascending in
        (
          k.new,
          messages-held m.id db' asc
              ∙ k.appended
              ∙ ap (λ ms. ms ++ k.new) (sym (messages-held m.id db numbered.ascending)),
          k.within,
        )
  ]
