-- ===== src/Store/Sound/Rows.antt =====
-- internal/store/store.go: `ReplaceMailboxes` keeps the references and the keys of the messages.
use git2imap.Base.{
  ℕ, ◌+◌, ◌≡◌, refl, ap, ◌∙◌, Bool, true, List, [], ◌∷◌, map, Text, any, any-map, All-none, ◌==◌,
  All, All-append, All-implies, All-map, All-select, AllPairs-append, AllPairs-select, Bool-cases,
  inl, inr,
}
use git2imap.Store.{Mailbox, CommitSnapshot, BranchSnapshot, Db, ok}
use git2imap.Store.Mailboxes.{
  new_message, message_conflict, insert_message, update_mailboxes, delete_messages,
}
use git2imap.Store.Replace.{u32, rebuild, insert_commits, append_commits}
use git2imap.Store.Replace.Commits.{insert_message-SameRest}
use git2imap.Store.Replace.Rows.{update_mailboxes-eq-ok, apply_if}
use git2imap.Store.Sound.{has_repository, has_mailbox, Linked}

-- A change of the mailboxes that keeps their ids and repositories.
module _ (g : Mailbox → Mailbox)
    (keeps : (m : Mailbox) → ((g m).id ≡ m.id) × ((g m).repository_id ≡ m.repository_id)) where
  has_mailbox-map :
      (i : ℕ) (db : Db)
      → has_mailbox i (record db { mailboxes = map g db.mailboxes }) ≡ has_mailbox i db
  has_mailbox-map i db = any-map (λ m. m.id == i) g db.mailboxes (λ m. ap (λ k. k == i) (keeps m).0)

  Linked-map : (db : Db) → Linked db → Linked (record db { mailboxes = map g db.mailboxes })
  Linked-map db h = record {
    homed = All-map _ _ g db.mailboxes h.homed (λ m k. rw (keeps m).1 k);
    lodged = All-implies _ _ db.messages h.lodged (λ s k. has_mailbox-map s.mailbox_id db ∙ k);
    numbered = h.numbered;
  }

-- The mailboxes, and the ones that the transaction has read, are all there.
pub record Held (existing : List Mailbox) (repo_id : Text) (db : Db) : Type 0 where
  pub linked : Linked db
  pub still : All (λ o. has_mailbox o.id db ≡ true) existing
  pub home : has_repository repo_id db ≡ true

Linked-insert_message :
    (id uid : ℕ) (c : CommitSnapshot) (db : Db)
    → has_mailbox id db ≡ true
    → Linked db
    → Linked (insert_message id uid c db)
unfolding insert_message
Linked-insert_message id uid c db there h =
    elim (Bool-cases (any (message_conflict (new_message id uid c)) db.messages)) [
      | inl e ↦ rw e h
      | inr e ↦ rw e (record {
        homed = h.homed;
        lodged = All-append _ db.messages (new_message id uid c ∷ []) h.lodged (there, tt);
        numbered =
            AllPairs-append _ db.messages (new_message id uid c) h.numbered
              (All-none _ db.messages e);
      })
    ]

module _ (existing : List Mailbox) (repo_id : Text) where
  Held-rest :
      {a b : Db}
      → a.mailboxes ≡ b.mailboxes
      → a.repositories ≡ b.repositories
      → Linked a
      → Held existing repo_id b
      → Held existing repo_id a
  Held-rest rows repositories linked h = record {
    linked = linked;
    still = rw rows h.still;
    home = rw repositories h.home;
  }

  insert_commits-Held :
      (id next : ℕ) (cs : List CommitSnapshot) (db : Db)
      → has_mailbox id db ≡ true
      → Held existing repo_id db
      → Held existing repo_id (insert_commits id next cs db).1
  unfolding insert_commits
  insert_commits-Held id next [] db there h = h
  insert_commits-Held id next (c ∷ cs) db there h =
      let same = insert_message-SameRest id next c db in
      insert_commits-Held id (u32 (next + 1)) cs (insert_message id next c db)
        (rw same.mailboxes there)
        (Held-rest same.mailboxes same.repositories
          (Linked-insert_message id next c db there h.linked) h)

  delete_messages-Held :
      (id : ℕ) (db : Db) → Held existing repo_id db → Held existing repo_id (delete_messages id db)
  unfolding delete_messages
  delete_messages-Held id db h =
      Held-rest refl refl
        (record {
          homed = h.linked.homed;
          lodged = All-select _ _ db.messages h.linked.lodged;
          numbered = AllPairs-select _ _ db.messages h.linked.numbered;
        })
        h

  pub update_mailboxes-Held :
      (p : Mailbox → Bool) (f : Mailbox → Mailbox) (db : Db) {db' : Db}
      → ((m : Mailbox) → ((f m).id ≡ m.id) × ((f m).repository_id ≡ m.repository_id))
      → update_mailboxes p f db ≡ ok db'
      → Held existing repo_id db
      → Held existing repo_id db' × ((i : ℕ) → has_mailbox i db' ≡ has_mailbox i db)
  update_mailboxes-Held p f db {db'} keeps h k =
      let g = apply_if p f in
      let g_keeps : (m : Mailbox) → ((g m).id ≡ m.id) × ((g m).repository_id ≡ m.repository_id) =
        λ m. elim (Bool-cases (p m)) [ inl e ↦ rw e (keeps m) | inr e ↦ rw e (refl, refl) ] in
      rw (update_mailboxes-eq-ok p f db h) (
        (record {
          linked = Linked-map g g_keeps db k.linked;
          still =
              All-implies _ _ existing k.still
                (λ o there. has_mailbox-map g g_keeps o.id db ∙ there);
          home = k.home;
        }),
        λ i. has_mailbox-map g g_keeps i db,
      )

  pub append_commits-Held :
      (name : Text) (b : BranchSnapshot) (id next : ℕ) (db : Db) {db' : Db}
      → has_mailbox id db ≡ true
      → append_commits name b id next db ≡ ok db'
      → Held existing repo_id db
      → Held existing repo_id db'
  unfolding append_commits
  append_commits-Held name b id next db there h k =
      (update_mailboxes-Held _ _ (insert_commits id next b.new_commits db).1 (λ m. (refl, refl)) h
        (insert_commits-Held id next b.new_commits db there k)).0

  pub rebuild-Held :
      (validity : ℕ) (name : Text) (b : BranchSnapshot) (old : Mailbox) (db : Db) {db' : Db}
      → rebuild validity name b old db ≡ ok db'
      → Held existing repo_id db
      → Held existing repo_id db' × ((i : ℕ) → has_mailbox i db' ≡ has_mailbox i db)
  unfolding rebuild
  rebuild-Held validity name b old db h k =
      let (held, same) =
        update_mailboxes-Held _ _ (delete_messages old.id db) (λ m. (refl, refl)) h
          (delete_messages-Held old.id db k) in
      (held, (λ i. unfold delete_messages in same i))
