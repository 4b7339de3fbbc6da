-- ===== src/Store/Replace/Tables.antt =====
-- internal/store/store.go: the tables that `ReplaceMailboxes` does not write.
use git2imap.Base.{
  ℕ, ◌+◌, ◌≡◌, refl, sym, ap, ◌∙◌, Bool, Option, none, some, List, [], ◌∷◌, Text, arith, beq, any,
  if◌then◌else◌, inl, inr,
}
use git2imap.Store.{Mailbox, BranchSnapshot, Db, ok}
use git2imap.Store.Mailboxes.{insert_mailbox, delete_messages, delete_mailbox, update_mailboxes}
use git2imap.Store.Replace.{
  Clock, mailbox_name, u32, load_mailbox_state, updating_name, old_mailbox, insert_branch, rebuild,
  append_commits, insert_commits, sync_branch, sync_branches, delete_unseen, replace_mailboxes,
}
use git2imap.Store.Replace.Commits.{insert_commits-SameRest}
use git2imap.Store.Replace.Rows.{>>=-eq-ok, update_mailboxes-eq-ok}
use git2imap.Store.Replace.Branch.{sync_branch_cases}

update_mailboxes-repositories :
    (p : Mailbox → Bool) (f : Mailbox → Mailbox) (db : Db) {db' : Db}
    → update_mailboxes p f db ≡ ok db'
    → db'.repositories ≡ db.repositories
update_mailboxes-repositories p f db h = ap (λ d. d.repositories) (update_mailboxes-eq-ok p f db h)

append_commits-repositories :
    (name : Text) (b : BranchSnapshot) (id next : ℕ) (db : Db) {db' : Db}
    → append_commits name b id next db ≡ ok db'
    → db'.repositories ≡ db.repositories
unfolding append_commits
append_commits-repositories name b id next db h =
    update_mailboxes-repositories _ _ (insert_commits id next b.new_commits db).1 h
    ∙ (insert_commits-SameRest id next b.new_commits db).repositories

rebuild-repositories :
    (validity : ℕ) (name : Text) (b : BranchSnapshot) (old : Mailbox) (db : Db) {db' : Db}
    → rebuild validity name b old db ≡ ok db'
    → db'.repositories ≡ db.repositories
unfolding rebuild delete_messages
rebuild-repositories validity name b old db h =
    update_mailboxes-repositories _ _ (delete_messages old.id db) h

insert_mailbox-repositories :
    (repo_id branch name : Text) (validity : ℕ) (head : Text) (db : Db) {r : ℕ × Db}
    → insert_mailbox repo_id branch name validity head db ≡ ok r
    → r.1.repositories ≡ db.repositories
unfolding insert_mailbox
insert_mailbox-repositories repo_id branch name validity head db h = ground arith

insert_branch-repositories :
    (clock : Clock) (repo_id name : Text) (b : BranchSnapshot) (db : Db) {r : Mailbox × Db}
    → insert_branch clock repo_id name b db ≡ ok r
    → r.1.repositories ≡ db.repositories
unfolding insert_branch
insert_branch-repositories clock repo_id name b db {r} h =
    let (s, e, k) =
      >>=-eq-ok (insert_mailbox repo_id b.name name (u32 clock.inserted) b.head_oid db) _ h in
    let after : r.1 ≡ s.1 = ground arith in
    ap (λ d. d.repositories) after
    ∙ insert_mailbox-repositories repo_id b.name name (u32 clock.inserted) b.head_oid db e

sync_branch-repositories :
    (clock : Clock) (repo_id name : Text) (b : BranchSnapshot) (old : Option Mailbox) (db : Db)
    {db' : Db}
    → sync_branch clock repo_id name b old db ≡ ok db'
    → db'.repositories ≡ db.repositories
unfolding sync_branch
sync_branch-repositories clock repo_id name b none db h =
    let (r, e₁, h₁) = >>=-eq-ok (insert_branch clock repo_id name b db) _ h in
    let (d, e₂, h₂) = >>=-eq-ok (rebuild r.0.uid_validity name b r.0 r.1) _ h₁ in
    append_commits-repositories name b r.0.id 1 d h₂
    ∙ rebuild-repositories r.0.uid_validity name b r.0 r.1 e₂
    ∙ insert_branch-repositories clock repo_id name b db e₁
sync_branch-repositories clock repo_id name b (some old) db h =
    elim (sync_branch_cases clock repo_id name b old db h) [
      | inl (d, e, k) ↦
          append_commits-repositories name b old.id 1 d k
          ∙ rebuild-repositories (u32 (old.uid_validity + 1)) name b old db e
      | inr k ↦ append_commits-repositories name b old.id old.next_uid db k
    ]

module _ (clock : Text → Clock) (repo_id default : Text) where
  sync_branches-repositories :
      (existing : List Mailbox) (bs : List BranchSnapshot) (db : Db) {db' : Db}
      → sync_branches clock repo_id default existing bs db ≡ ok db'
      → db'.repositories ≡ db.repositories
  unfolding sync_branches
  sync_branches-repositories existing [] db h = ground arith
  sync_branches-repositories existing (b ∷ bs) db h =
      let name = mailbox_name default b.name in
      let old = old_mailbox b.name existing in
      let (d, e, k) = >>=-eq-ok (sync_branch (clock b.name) repo_id name b old db) _ h in
      sync_branches-repositories existing bs d k
      ∙ sync_branch-repositories (clock b.name) repo_id name b old db e

  delete_unseen-repositories :
      (bs : List BranchSnapshot) (ms : List Mailbox) (db : Db)
      → (delete_unseen bs ms db).repositories ≡ db.repositories
  unfolding delete_unseen
  delete_unseen-repositories bs [] db = refl
  delete_unseen-repositories bs (m ∷ ms) db =
      delete_unseen-repositories bs ms
        (if any (λ b. beq b.name m.branch) bs then db else delete_mailbox m.id db)
      ∙ (unfold delete_mailbox delete_messages in ground arith)

  pub replace_mailboxes-repositories :
      (bs : List BranchSnapshot) (db : Db) {db' : Db}
      → replace_mailboxes clock repo_id default bs db ≡ ok db'
      → db'.repositories ≡ db.repositories
  unfolding replace_mailboxes
  replace_mailboxes-repositories bs db {db'} h =
      let existing = load_mailbox_state repo_id db in
      let (d, e, k) =
        >>=-eq-ok
          (update_mailboxes (λ m. beq m.repository_id repo_id)
            (λ m. record m { name = updating_name m.id }) db)
          _ h in
      let (d', e', k') = >>=-eq-ok (sync_branches clock repo_id default existing bs d) _ k in
      let is : delete_unseen bs existing d' ≡ db' = ground arith in
      ap (λ x. x.repositories) (sym is)
      ∙ delete_unseen-repositories bs existing d'
      ∙ sync_branches-repositories existing bs d e'
      ∙ update_mailboxes-repositories _ _ db e
