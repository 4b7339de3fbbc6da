-- ===== src/Store/Sound/Transaction.antt =====
-- internal/store/store.go: the references and the message keys through all of `ReplaceMailboxes`.
use git2imap.Base.{
  ℕ, suc, ◌+◌, ◌≡◌, refl, ◌∙◌, not, true, Option, none, some, List, [], ◌∷◌, ◌++◌, Text, beq, any,
  any-append, any-select, All-select-implies, ◌==◌, ==_refl, arith, All, All-append, All-implies,
  All-select, AllPairs-select, subst, inl, inr, if◌then◌else◌,
}
use git2imap.Store.{Mailbox, BranchSnapshot, Db, ok}
use git2imap.Store.Mailboxes.{
  in_mailbox, insert_mailbox, update_mailboxes, delete_mailbox, delete_messages,
}
use git2imap.Store.Replace.{
  Clock, u32, updating_name, insert_branch, rebuild, sync_branch, sync_branches, delete_unseen,
  old_mailbox, mailbox_name, replace_mailboxes, load_mailbox_state,
}
use git2imap.Store.Replace.Rows.{>>=-eq-ok}
use git2imap.Store.Replace.Branch.{sync_branch_cases}
use git2imap.Store.Replace.Contract.{All-find}
use git2imap.Store.Replace.Clean.{if_either}
use git2imap.Store.Sound.{has_repository, has_mailbox, Linked}
use git2imap.Store.Sound.Rows.{Held, append_commits-Held, rebuild-Held, update_mailboxes-Held}

module _ (existing : List Mailbox) (repo_id : Text) where
  insert_mailbox-Held :
      (branch name : Text) (validity : ℕ) (head : Text) (db : Db) {r : ℕ × Db}
      → insert_mailbox repo_id branch name validity head db ≡ ok r
      → Held existing repo_id db
      → Held existing repo_id r.1 × (has_mailbox r.0 r.1 ≡ true)
  unfolding insert_mailbox any
  insert_mailbox-Held branch name validity head db {r} h k =
      let row : Mailbox = record {
        id = suc db.last_mailbox_id;
        repository_id = repo_id;
        branch = branch;
        name = name;
        uid_validity = validity;
        next_uid = 1;
        head_oid = head;
      } in
      let d = record db { mailboxes = db.mailboxes ++ row ∷ []; last_mailbox_id = row.id } in
      let is : (row.id, d) ≡ r = ground arith in
      let more : (i : ℕ) → has_mailbox i db ≡ true → has_mailbox i d ≡ true =
        λ i e. any-append (λ m. m.id == i) db.mailboxes (row ∷ []) ∙ rw e refl in
      subst (λ (s : ℕ × Db). Held existing repo_id s.1 × (has_mailbox s.0 s.1 ≡ true)) is
        (
          record {
            linked = record {
              homed = All-append _ db.mailboxes (row ∷ []) k.linked.homed (k.home, tt);
              lodged = All-implies _ _ db.messages k.linked.lodged (λ s. more s.mailbox_id);
              numbered = k.linked.numbered;
            };
            still = All-implies _ _ existing k.still (λ o. more o.id);
            home = k.home;
          },
          any-append (λ m. m.id == row.id) db.mailboxes (row ∷ []) ∙ ground (arith, ==_refl row.id),
        )

  insert_branch-Held :
      (clock : Clock) (name : Text) (b : BranchSnapshot) (db : Db) {r : Mailbox × Db}
      → insert_branch clock repo_id name b db ≡ ok r
      → Held existing repo_id db
      → Held existing repo_id r.1 × (has_mailbox r.0.id r.1 ≡ true)
  unfolding insert_branch
  insert_branch-Held clock name b db {r} h k =
      let ((id, d), e, h') =
        >>=-eq-ok (insert_mailbox repo_id b.name name (u32 clock.inserted) b.head_oid db) _ h in
      let after : d ≡ r.1 = ground arith in
      let same : id ≡ r.0.id = ground arith in
      let (held, there) = insert_mailbox-Held b.name name (u32 clock.inserted) b.head_oid db e k in
      (
        subst (Held existing repo_id) after held,
        subst (λ j. has_mailbox j r.1 ≡ true) same
            (subst (λ x. has_mailbox id x ≡ true) after there),
      )

  sync_branch-Held :
      (clock : Clock) (name : Text) (b : BranchSnapshot) (old : Option Mailbox) (db : Db) {db' : Db}
      → ((o : Mailbox) → old ≡ some o → has_mailbox o.id db ≡ true)
      → sync_branch clock repo_id name b old db ≡ ok db'
      → Held existing repo_id db
      → Held existing repo_id db'
  unfolding sync_branch
  sync_branch-Held clock name b none db is h k =
      let (r, e₁, h₁) = >>=-eq-ok (insert_branch clock repo_id name b db) _ h in
      let (d, e₂, h₂) = >>=-eq-ok (rebuild r.0.uid_validity name b r.0 r.1) _ h₁ in
      let (k₁, there) = insert_branch-Held clock name b db e₁ k in
      let (k₂, same) = rebuild-Held existing repo_id r.0.uid_validity name b r.0 r.1 e₂ k₁ in
      append_commits-Held existing repo_id name b r.0.id 1 d (same r.0.id ∙ there) h₂ k₂
  sync_branch-Held clock name b (some old) db is h k =
      elim (sync_branch_cases clock repo_id name b old db h) [
        | inl (d, e, h₂) ↦
            let (k₂, same) =
              rebuild-Held existing repo_id (u32 (old.uid_validity + 1)) name b old db e k in
            append_commits-Held existing repo_id name b old.id 1 d (same old.id ∙ is old refl) h₂ k₂
        | inr h₂ ↦
            append_commits-Held existing repo_id name b old.id old.next_uid db (is old refl) h₂ k
      ]

  sync_branches-Held :
      (clock : Text → Clock) (default : Text) (bs : List BranchSnapshot) (db : Db) {db' : Db}
      → sync_branches clock repo_id default existing bs db ≡ ok db'
      → Held existing repo_id db
      → Held existing repo_id db'
  unfolding sync_branches old_mailbox
  sync_branches-Held clock default [] db {db'} h k =
      let e : db ≡ db' = ground arith in subst (Held existing repo_id) e k
  sync_branches-Held clock default (b ∷ bs) db h k =
      let name = mailbox_name default b.name in
      let old = old_mailbox b.name existing in
      let (d, e, h') = >>=-eq-ok (sync_branch (clock b.name) repo_id name b old db) _ h in
      sync_branches-Held clock default bs d h' (
        sync_branch-Held (clock b.name) name b old db
          (λ o at. (All-find _ (λ m. beq m.branch b.name) existing k.still at).0) e k)

-- A deletion takes the messages of its mailbox along.
delete_mailbox-Linked : (id : ℕ) (db : Db) → Linked db → Linked (delete_mailbox id db)
unfolding delete_mailbox delete_messages
delete_mailbox-Linked id db h = record {
  homed = All-select _ _ db.mailboxes h.homed;
  lodged =
      All-select-implies _ _ (λ s. not (in_mailbox id s)) db.messages h.lodged
        (λ s k e.
          any-select (λ m. m.id == s.mailbox_id) (λ m. not (m.id == id)) db.mailboxes
            (λ m at. ground arith)
          ∙ k);
  numbered = AllPairs-select _ _ db.messages h.numbered;
}

delete_unseen-Linked :
    (bs : List BranchSnapshot) (ms : List Mailbox) (db : Db)
    → Linked db
    → Linked (delete_unseen bs ms db)
unfolding delete_unseen
delete_unseen-Linked bs [] db h = h
delete_unseen-Linked bs (m ∷ ms) db h =
    delete_unseen-Linked bs ms
      (if any (λ b. beq b.name m.branch) bs then db else delete_mailbox m.id db)
      (if_either Linked (any (λ b. beq b.name m.branch) bs) db (delete_mailbox m.id db) (λ e. h)
        (λ e. delete_mailbox-Linked m.id db h))

each_there :
    (all ms : List Mailbox)
    → ((i : ℕ) → any (λ m. m.id == i) ms ≡ true → any (λ m. m.id == i) all ≡ true)
    → All (λ o. any (λ m. m.id == o.id) all ≡ true) ms
unfolding any
each_there all [] k = tt
each_there all (m ∷ ms) k =
    (k m.id (ground (arith, ==_refl m.id)), each_there all ms (λ i e. k i (ground arith)))

-- A transaction that commits keeps the references and the keys of the messages.
pub replace_mailboxes-Linked :
    (clock : Text → Clock) (repo_id default : Text) (bs : List BranchSnapshot) (db : Db) {db' : Db}
    → has_repository repo_id db ≡ true
    → replace_mailboxes clock repo_id default bs db ≡ ok db'
    → Linked db
    → Linked db'
unfolding replace_mailboxes load_mailbox_state
replace_mailboxes-Linked clock repo_id default bs db {db'} home h linked =
    let existing = load_mailbox_state repo_id db in
    let (d, e, h₁) =
      >>=-eq-ok
        (update_mailboxes (λ m. beq m.repository_id repo_id)
          (λ m. record m { name = updating_name m.id }) db)
        _ h in
    let (d', e', h₂) = >>=-eq-ok (sync_branches clock repo_id default existing bs d) _ h₁ in
    let held : Held existing repo_id db = record {
      linked = linked;
      still = All-select _ _ db.mailboxes (each_there db.mailboxes db.mailboxes (λ i e. e));
      home = home;
    } in
    let (held₁, same) = update_mailboxes-Held existing repo_id _ _ db (λ m. (refl, refl)) e held in
    let held₂ = sync_branches-Held existing repo_id clock default bs d e' held₁ in
    let is : delete_unseen bs existing d' ≡ db' = ground arith in
    subst Linked is (delete_unseen-Linked bs existing d' held₂.linked)
