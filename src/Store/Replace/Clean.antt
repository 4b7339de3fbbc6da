-- ===== src/Store/Replace/Clean.antt =====
-- internal/store/store.go: the deletions at the end of `ReplaceMailboxes`.
use mathlib.Core.Bool.{false≢true}
use git2imap.Base.{
  ℕ, ◌≡◌, ◌≢◌, refl, sym, ap, ◌∙◌, Bool, not, true, false, List, [], ◌∷◌, Text, beq, beq_iff, any,
  select, ◌==◌, arith, All, All-implies, All-both, All-select, AllPairs-select, Bool-cases, inl,
  inr, if◌then◌else◌,
}
use git2imap.Store.{Mailbox, BranchSnapshot, Db}
use git2imap.Store.Mailboxes.{delete_mailbox, delete_messages}
use git2imap.Store.Replace.{delete_unseen}
use git2imap.Store.Replace.Contract.{Apart, AllApart}
use git2imap.Store.Replace.Stage.{at}

pub if_either :
    (P : Db → Type 0) (t : Bool) (x y : Db)
    → (t ≡ true → P x)
    → (t ≡ false → P y)
    → P (if t then x else y)
if_either P true x y h k = h refl
if_either P false x y h k = k refl

module _ (bs : List BranchSnapshot) where
  abbrev pub unseen : Mailbox → Bool
  unseen o = not (any (λ b. beq b.name o.branch) bs)

  -- What the deletion of each unseen mailbox keeps, the loop keeps.
  delete_unseen_lem :
      (P : Db → Type 0) (ms : List Mailbox) (db : Db)
      → All (λ m. unseen m ≡ true → (d : Db) → P d → P (delete_mailbox m.id d)) ms
      → P db
      → P (delete_unseen bs ms db)
  unfolding delete_unseen
  delete_unseen_lem P [] db keeps h = h
  delete_unseen_lem P (m ∷ ms) db (keep, keeps) h =
      delete_unseen_lem P ms
        (if any (λ b. beq b.name m.branch) bs then db else delete_mailbox m.id db) keeps
        (if_either P (any (λ b. beq b.name m.branch) bs) db (delete_mailbox m.id db) (λ e. h)
          (λ e. keep (ap not e) db h))

  always :
      (P : Db → Type 0) (ms : List Mailbox)
      → ((i : ℕ) (d : Db) → P d → P (delete_mailbox i d))
      → All (λ m. unseen m ≡ true → (d : Db) → P d → P (delete_mailbox m.id d)) ms
  always P [] k = tt
  always P (m ∷ ms) k = ((λ e. k m.id), always P ms k)

  pub delete_unseen-All :
      (P : Mailbox → Type 0) (ms : List Mailbox) (db : Db)
      → All P db.mailboxes
      → All P (delete_unseen bs ms db).mailboxes
  unfolding delete_mailbox delete_messages
  delete_unseen-All P ms db =
      delete_unseen_lem (λ d. All P d.mailboxes) ms db
        (always _ ms (λ i d. All-select P (λ r. not (r.id == i)) d.mailboxes))

  pub delete_unseen-AllApart :
      (ms : List Mailbox) (db : Db)
      → AllApart db.mailboxes
      → AllApart (delete_unseen bs ms db).mailboxes
  unfolding delete_mailbox delete_messages
  delete_unseen-AllApart ms db =
      delete_unseen_lem (λ d. AllApart d.mailboxes) ms db
        (always _ ms (λ i d. AllPairs-select Apart (λ r. not (r.id == i)) d.mailboxes))

  pub delete_unseen-last :
      (ms : List Mailbox) (db : Db) → (delete_unseen bs ms db).last_mailbox_id ≡ db.last_mailbox_id
  unfolding delete_mailbox delete_messages
  delete_unseen-last ms db =
      delete_unseen_lem (λ d. d.last_mailbox_id ≡ db.last_mailbox_id) ms db
        (always _ ms (λ i d e. e)) refl

  select-gone : (i : ℕ) (ms : List Mailbox) → All (λ r. r.id ≢ i) (select (λ r. not (r.id == i)) ms)
  unfolding select
  select-gone i [] = tt
  select-gone i (m ∷ ms) = elim (Bool-cases (m.id == i)) [
    | inl e ↦ rw e (select-gone i ms)
    | inr e ↦ rw e (ground arith, select-gone i ms)
  ]

  -- No row is left for a mailbox whose branch is unseen.
  pub delete_unseen-gone :
      (ms : List Mailbox) (db : Db)
      → All (λ r. All (λ o. unseen o ≡ true → r.id ≢ o.id) ms) (delete_unseen bs ms db).mailboxes
  unfolding delete_unseen delete_mailbox delete_messages
  delete_unseen-gone [] db = all_tt db.mailboxes
    where
      all_tt : (rs : List Mailbox) → All (λ r. Unit {0}) rs
      all_tt [] = tt
      all_tt (r ∷ rs) = (tt, all_tt rs)
  delete_unseen-gone (m ∷ ms) db =
      let t = any (λ b. beq b.name m.branch) bs in
      let next = if t then db else delete_mailbox m.id db in
      let first =
        if_either (λ d. All (λ r. unseen m ≡ true → r.id ≢ m.id) d.mailboxes) t db
          (delete_mailbox m.id db) (λ e. never db.mailboxes (λ u. false≢true (rw e at u)))
          (λ e. All-implies _ _ _ (select-gone m.id db.mailboxes) (λ r ne u. ne)) in
      All-both _ _ _ (delete_unseen-All (λ r. unseen m ≡ true → r.id ≢ m.id) ms next first)
        (delete_unseen-gone ms next)
    where
      never : (rs : List Mailbox) → (unseen m ≢ true) → All (λ r. unseen m ≡ true → r.id ≢ m.id) rs
      never [] k = tt
      never (r ∷ rs) k = ((λ u same. k u), never rs k)

  any-select :
      (p q : Mailbox → Bool) (ms : List Mailbox)
      → All (λ r. p r ≡ true → q r ≡ true) ms
      → any p ms ≡ true
      → any p (select q ms) ≡ true
  unfolding any select
  any-select p q [] h e = e
  any-select p q (m ∷ ms) (h, hs) e = ground (arith, any-select p q ms hs)

  -- The mailbox of a branch that is there stays.
  pub delete_unseen-present :
      (repo_id y : Text) (ms : List Mailbox) (db : Db)
      → any (λ b. beq b.name y) bs ≡ true
      → All (λ r. All (λ o. o.id ≡ r.id → r.branch ≡ o.branch) ms) db.mailboxes
      → any (at repo_id y) db.mailboxes ≡ true
      → any (at repo_id y) (delete_unseen bs ms db).mailboxes ≡ true
  unfolding delete_unseen delete_mailbox delete_messages
  delete_unseen-present repo_id y [] db seen owned h = h
  delete_unseen-present repo_id y (m ∷ ms) db seen owned h =
      let t = any (λ b. beq b.name m.branch) bs in
      let own = All-implies _ _ db.mailboxes owned (λ r k. k.1) in
      let (own', there) =
        if_either
          (λ d.
            All (λ r. All (λ o. o.id ≡ r.id → r.branch ≡ o.branch) ms) d.mailboxes
            × (any (at repo_id y) d.mailboxes ≡ true))
          t db (delete_mailbox m.id db) (λ e. (own, h))
          (λ e. (
            All-select _ (λ r. not (r.id == m.id)) db.mailboxes own,
            any-select (at repo_id y) (λ r. not (r.id == m.id)) db.mailboxes
                (All-implies _ _ db.mailboxes owned (λ r k is.
                  let ne : r.id ≢ m.id = λ same. other m r is e seen (k.0 (sym same)) in
                  ground arith))
                h,
          )) in
      delete_unseen-present repo_id y ms (if t then db else delete_mailbox m.id db) seen own' there
    where
      other :
          (m r : Mailbox)
          → at repo_id y r ≡ true
          → any (λ b. beq b.name m.branch) bs ≡ false
          → any (λ b. beq b.name y) bs ≡ true
          → r.branch ≢ m.branch
      other m r is e seen same =
          let is_y : r.branch ≡ y = ground (arith, beq_iff r.branch y) in
          false≢true (sym e ∙ ap (λ x. any (λ b. beq b.name x) bs) (sym same ∙ is_y) ∙ seen)
