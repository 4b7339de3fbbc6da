-- ===== src/Store/Replace/Branch.antt =====
-- internal/store/store.go: one round of the loop over the branches in `ReplaceMailboxes`.
use git2imap.Base.{
  ◌⊎◌, Bool-cases, inl, inr, ℕ, suc, ◌+◌, ◌≤◌, ◌<◌, ◌^◌, ◌≡◌, ◌≢◌, refl, ap, ◌∙◌, true, false,
  Option, none, some, List, [], ◌++◌, Text, beq_iff, find, ◌==◌, arith, length, All, Ascending,
  subst,
}
use git2imap.Store.{Mailbox, Message, CommitSnapshot, BranchSnapshot, Db, ok}
use git2imap.Store.Mailboxes.{insert_mailbox, delete_messages}
use git2imap.Store.Replace.{
  Clock, u32, needs_rebuild, insert_branch, rebuild, insert_commits, append_commits, sync_branch,
}
use git2imap.Store.Replace.Commits.{
  held, added, held-insert_commits, held-insert_commits_ne, insert_commits-SameRest,
  next-insert_commits, Within, added-Within, added-Ascending, uid_lt,
}
use git2imap.Store.Replace.Rows.{
  >>=-eq-ok, row, Untouched, Untouched-trans, update_mailboxes-Untouched, update_mailboxes-row,
  update_mailboxes-last, delete_messages-Untouched, delete_messages-held, insert_mailbox-Untouched,
}

insert_commits-Untouched :
    (i id next : ℕ) (cs : List CommitSnapshot) (db : Db)
    → i ≢ id
    → Untouched i (insert_commits id next cs db).1 db
insert_commits-Untouched i id next cs db ne = record {
  row_same = ap (find (λ m. m.id == i)) (insert_commits-SameRest id next cs db).mailboxes;
  held_same = held-insert_commits_ne i id next cs db ne;
}

-- A step leaves mailbox `i` alone and takes back no id.
pub record Leaves (i : ℕ) (after before : Db) : Type 0 where
  pub untouched : Untouched i after before
  pub last_le : before.last_mailbox_id ≤ after.last_mailbox_id

pub Leaves-trans : {i : ℕ} {a b c : Db} → Leaves i a b → Leaves i b c → Leaves i a c
Leaves-trans h k = record {
  untouched = Untouched-trans h.untouched k.untouched;
  last_le = omega (arith, h.last_le, k.last_le);
}

append_commits-last :
    (name : Text) (b : BranchSnapshot) (id next : ℕ) (db : Db) {db' : Db}
    → append_commits name b id next db ≡ ok db'
    → db'.last_mailbox_id ≡ db.last_mailbox_id
unfolding append_commits
append_commits-last name b id next db h =
    update_mailboxes-last _ _ (insert_commits id next b.new_commits db).1 h
    ∙ (insert_commits-SameRest id next b.new_commits db).last_mailbox_id

rebuild-last :
    (validity : ℕ) (name : Text) (b : BranchSnapshot) (old : Mailbox) (db : Db) {db' : Db}
    → rebuild validity name b old db ≡ ok db'
    → db'.last_mailbox_id ≡ db.last_mailbox_id
unfolding rebuild delete_messages
rebuild-last validity name b old db h = update_mailboxes-last _ _ (delete_messages old.id db) h

append_commits-Leaves :
    (i : ℕ) (name : Text) (b : BranchSnapshot) (id next : ℕ) (db : Db) {db' : Db}
    → i ≢ id
    → append_commits name b id next db ≡ ok db'
    → Leaves i db' db
unfolding append_commits
append_commits-Leaves i name b id next db ne h =
    let mid = (insert_commits id next b.new_commits db).1 in
    record {
      untouched =
          Untouched-trans (update_mailboxes-Untouched i id _ mid ne (λ m. refl) h)
            (insert_commits-Untouched i id next b.new_commits db ne);
      last_le = omega (arith, append_commits-last name b id next db h);
    }

rebuild-Leaves :
    (i validity : ℕ) (name : Text) (b : BranchSnapshot) (old : Mailbox) (db : Db) {db' : Db}
    → i ≢ old.id
    → rebuild validity name b old db ≡ ok db'
    → Leaves i db' db
unfolding rebuild
rebuild-Leaves i validity name b old db ne h =
    let mid = delete_messages old.id db in
    record {
      untouched =
          Untouched-trans (update_mailboxes-Untouched i old.id _ mid ne (λ m. refl) h)
            (delete_messages-Untouched i old.id db ne);
      last_le = omega (arith, rebuild-last validity name b old db h);
    }

-- The row and the messages after the loop over the commits.
append_commits-row :
    (name : Text) (b : BranchSnapshot) (id next : ℕ) (db : Db) {db' : Db} {m : Mailbox}
    → next + length b.new_commits < 2 ^ 32
    → row id db ≡ some m
    → append_commits name b id next db ≡ ok db'
    → (row id db'
        ≡ some (record m {
          name = name;
          next_uid = next + length b.new_commits;
          head_oid = b.head_oid;
        }))
      × (held id db' ≡ held id db ++ added id next b.new_commits db)
unfolding append_commits
append_commits-row name b id next db {db'} {m} fits at h =
    let mid = (insert_commits id next b.new_commits db).1 in
    let same = insert_commits-SameRest id next b.new_commits db in
    let at' : row id mid ≡ some m = ap (find (λ m. m.id == id)) same.mailboxes ∙ at in
    let next' = (insert_commits id next b.new_commits db).0 in
    let (there, kept) =
      update_mailboxes-row id
        (λ r. record r { name = name; next_uid = next'; head_oid = b.head_oid }) mid (λ r. refl) at'
        h in
    (
      subst (λ n. row id db' ≡ some (record m { name = name; next_uid = n; head_oid = b.head_oid }))
          (next-insert_commits id next b.new_commits db fits) there,
      kept ∙ held-insert_commits id next b.new_commits db,
    )

rebuild-row :
    (validity : ℕ) (name : Text) (b : BranchSnapshot) (old : Mailbox) (db : Db) {db' : Db}
    {m : Mailbox}
    → row old.id db ≡ some m
    → rebuild validity name b old db ≡ ok db'
    → (row old.id db'
        ≡ some (record m {
          name = name;
          uid_validity = validity;
          next_uid = 1;
          head_oid = b.head_oid;
        }))
      × (held old.id db' ≡ [])
unfolding rebuild
rebuild-row validity name b old db {m} at h =
    let mid = delete_messages old.id db in
    let at' : row old.id mid ≡ some m = unfold delete_messages in at in
    let (there, kept) =
      update_mailboxes-row old.id
        (λ r. record r {
          name = name;
          uid_validity = validity;
          next_uid = 1;
          head_oid = b.head_oid;
        })
        mid (λ r. refl) at' h in
    (there, kept ∙ delete_messages-held old.id db)

insert_branch-Leaves :
    (i : ℕ) (clock : Clock) (repo_id name : Text) (b : BranchSnapshot) (db : Db) {r : Mailbox × Db}
    → i ≤ db.last_mailbox_id
    → insert_branch clock repo_id name b db ≡ ok r
    → Leaves i r.1 db × (r.0.id ≡ suc db.last_mailbox_id)
unfolding insert_branch
insert_branch-Leaves i clock repo_id name b db {r} le h =
    let validity = u32 clock.inserted in
    let (s, e, k) = >>=-eq-ok (insert_mailbox repo_id b.name name validity b.head_oid db) _ h in
    let (same, fresh, last) =
      insert_mailbox-Untouched i repo_id b.name name validity b.head_oid db le e in
    let after : r.1 ≡ s.1 = ground arith in
    let id : r.0.id ≡ s.0 = ground arith in
    (rw after (record { untouched = same; last_le = omega (arith, last, fresh) }), id ∙ fresh)

-- What a round for a known mailbox runs.
abbrev pub Ran : ℕ → Text → BranchSnapshot → Mailbox → ℕ → Db → Db → Type 0
Ran validity name b old next db db' =
    ((d : Db) × (rebuild validity name b old db ≡ ok d)
      × (append_commits name b old.id 1 d ≡ ok db'))
    ⊎ (append_commits name b old.id next db ≡ ok db')

pub sync_branch_cases :
    (clock : Clock) (repo_id name : Text) (b : BranchSnapshot) (old : Mailbox) (db : Db) {db' : Db}
    → sync_branch clock repo_id name b (some old) db ≡ ok db'
    → Ran (u32 (old.uid_validity + 1)) name b old old.next_uid db db'
unfolding sync_branch
sync_branch_cases clock repo_id name b old db {db'} h =
    elim (Bool-cases (needs_rebuild name b old)) [
      | inl e ↦ inl (>>=-eq-ok (rebuild (u32 (old.uid_validity + 1)) name b old db) _ (rw e at h))
      | inr e ↦ inr (rw e at h)
    ]

-- A round for another branch leaves mailbox `i` alone.
pub sync_branch-Leaves :
    (i : ℕ) (clock : Clock) (repo_id name : Text) (b : BranchSnapshot) (old : Option Mailbox)
    (db : Db) {db' : Db}
    → i ≤ db.last_mailbox_id
    → ((o : Mailbox) → old ≡ some o → i ≢ o.id)
    → sync_branch clock repo_id name b old db ≡ ok db'
    → Leaves i db' db
unfolding sync_branch
sync_branch-Leaves i clock repo_id name b none db le other h =
    let ((old, db₁), e₁, h₁) = >>=-eq-ok (insert_branch clock repo_id name b db) _ h in
    let (new, fresh) = insert_branch-Leaves i clock repo_id name b db le e₁ in
    let (db₂, e₂, h₂) = >>=-eq-ok (rebuild old.uid_validity name b old db₁) _ h₁ in
    let ne : i ≢ old.id = omega (arith, fresh) in
    Leaves-trans (append_commits-Leaves i name b old.id 1 db₂ ne h₂)
      (Leaves-trans (rebuild-Leaves i old.uid_validity name b old db₁ ne e₂) new)
sync_branch-Leaves i clock repo_id name b (some old) db le other h =
    let ne = other old refl in
    elim (sync_branch_cases clock repo_id name b old db h) [
      | inl (d, e, k) ↦
          Leaves-trans (append_commits-Leaves i name b old.id 1 d ne k)
            (rebuild-Leaves i (u32 (old.uid_validity + 1)) name b old db ne e)
      | inr k ↦ append_commits-Leaves i name b old.id old.next_uid db ne k
    ]

pub sync_branch-last :
    (clock : Clock) (repo_id name : Text) (b : BranchSnapshot) (old : Mailbox) (db : Db) {db' : Db}
    → sync_branch clock repo_id name b (some old) db ≡ ok db'
    → db'.last_mailbox_id ≡ db.last_mailbox_id
sync_branch-last clock repo_id name b old db h =
    elim (sync_branch_cases clock repo_id name b old db h) [
      | inl (d, e, k) ↦
          append_commits-last name b old.id 1 d k
          ∙ rebuild-last (u32 (old.uid_validity + 1)) name b old db e
      | inr k ↦ append_commits-last name b old.id old.next_uid db k
    ]

-- What a fast-forward leaves of mailbox `m`: its UIDVALIDITY and all its messages with their uids.
-- The new ones come behind them, in ascending order from the old next uid.
pub record Kept (m : Mailbox) (b : BranchSnapshot) (after before : Db) : Type 0 where
  pub at :
      row m.id after
      ≡ some (record m { next_uid = m.next_uid + length b.new_commits; head_oid = b.head_oid })
  pub new : List Message
  pub appended : held m.id after ≡ held m.id before ++ new
  pub within : All (Within m.id m.next_uid (m.next_uid + length b.new_commits)) new
  pub ascending : Ascending uid_lt new

-- What a rebuild leaves: another UIDVALIDITY, and messages numbered afresh from 1.
pub record Rebuilt (m : Mailbox) (name : Text) (b : BranchSnapshot) (after : Db) : Type 0 where
  pub at :
      row m.id after
      ≡ some (record m {
        name = name;
        uid_validity = u32 (m.uid_validity + 1);
        next_uid = 1 + length b.new_commits;
        head_oid = b.head_oid;
      })
  pub within : All (Within m.id 1 (1 + length b.new_commits)) (held m.id after)
  pub ascending : Ascending uid_lt (held m.id after)

module _ (clock : Clock) (repo_id name : Text) (b : BranchSnapshot) (m : Mailbox) (db : Db)
    {db' : Db} {aside : Text} (at : row m.id db ≡ some (record m { name = aside }))
    (h : sync_branch clock repo_id name b (some m) db ≡ ok db') where
  pub sync_branch-Kept :
      m.next_uid + length b.new_commits < 2 ^ 32 → needs_rebuild name b m ≡ false → Kept m b db' db
  unfolding sync_branch needs_rebuild
  sync_branch-Kept fits keep =
      let run : append_commits name b m.id m.next_uid db ≡ ok db' = rw keep at h in
      let same : m.name ≡ name = ground (arith, beq_iff m.name name) in
      let (there, app) = append_commits-row name b m.id m.next_uid db fits at run in
      record {
        at = rw (← same) at there;
        new = added m.id m.next_uid b.new_commits db;
        appended = app;
        within = added-Within m.id m.next_uid b.new_commits db fits;
        ascending = added-Ascending m.id m.next_uid b.new_commits db fits;
      }

  pub sync_branch-Rebuilt :
      1 + length b.new_commits < 2 ^ 32 → needs_rebuild name b m ≡ true → Rebuilt m name b db'
  unfolding sync_branch
  sync_branch-Rebuilt fits redo =
      let validity = u32 (m.uid_validity + 1) in
      let run = >>=-eq-ok (rebuild validity name b m db) _ (rw redo at h) in
      let (d, e, k) = run in
      let (reset, emptied) = rebuild-row validity name b m db at e in
      let (there, app) = append_commits-row name b m.id 1 d fits reset k in
      let all : held m.id db' ≡ added m.id 1 b.new_commits d =
        app ∙ ap (λ ms. ms ++ added m.id 1 b.new_commits d) emptied in
      record {
        at = there;
        within = rw all (added-Within m.id 1 b.new_commits d fits);
        ascending = rw all (added-Ascending m.id 1 b.new_commits d fits);
      }
