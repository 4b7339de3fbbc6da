-- ===== src/Store/Replace/Progress.antt =====
-- internal/store/store.go: each round of the loop over the branches in `ReplaceMailboxes` is carried
-- out, and brings the mailbox of its branch to its final name.
use git2imap.Base.{
  ℕ, suc, ◌+◌, ◌≡◌, refl, sym, ap, ◌∙◌, Bool, true, false, ◌||◌, inl, inr, Option, none, some, List,
  [], ◌∷◌, ◌++◌, Text, beq, beq_iff, any, find, arith, All, All-implies, All-both, subst,
  Bool-cases,
}
use git2imap.Store.{Mailbox, BranchSnapshot, Db, ok}
use git2imap.Store.Mailboxes.{insert_mailbox, delete_messages}
use git2imap.Store.Replace.{
  Clock, u32, mailbox_name, old_mailbox, insert_branch, rebuild, insert_commits, append_commits,
  sync_branch, sync_branches, needs_rebuild,
}
use git2imap.Store.Replace.Commits.{insert_commits-SameRest}
use git2imap.Store.Replace.Contract.{All-find}
use git2imap.Store.Replace.Outcome.{DistinctNames}
use git2imap.Store.Replace.Stage.{mark, Stage, Ready, Ready-update}
use git2imap.Store.Replace.Inserted.{inserted_clear, inserted_Ready}

-- The branches that the loop is over after `bs`.
abbrev pub over : List BranchSnapshot → (Text → Bool) → Text → Bool
over bs processed y = any (λ b. beq b.name y) bs || processed y

module _ (repo_id default : Text) (existing : List Mailbox) where
  Ready-same :
      {i : ℕ} {x : Text} {processed : Text → Bool} {a b : Db}
      → a.mailboxes ≡ b.mailboxes
      → a.repositories ≡ b.repositories
      → a.last_mailbox_id ≡ b.last_mailbox_id
      → Ready repo_id default existing i x processed b
      → Ready repo_id default existing i x processed a
  Ready-same rows repositories last h = record {
    stage = record {
      apart = rw rows h.stage.apart;
      facts = rw (rows, last) h.stage.facts;
      older = rw last h.stage.older;
      present = rw rows h.stage.present;
      repository = rw repositories h.stage.repository;
    };
    target = rw rows h.target;
    known = h.known;
    there = rw rows h.there;
  }

  pub Stage-same :
      {p q : Text → Bool} {db : Db}
      → ((y : Text) → p y ≡ q y)
      → Stage repo_id default existing p db
      → Stage repo_id default existing q db
  Stage-same {p} {q} {db} same h =
      let e : p ≡ q = λ i y. same y i in subst (λ r. Stage repo_id default existing r db) e h

  module _ (processed : Text → Bool) (b : BranchSnapshot) (old : Mailbox) (db : Db)
      (h : Ready repo_id default existing old.id b.name processed db) where
    rebuild_total :
        (validity : ℕ)
        → (d : Db) × (rebuild validity (mailbox_name default b.name) b old db ≡ ok d)
          × Ready repo_id default existing old.id b.name (mark b.name processed) d
    unfolding rebuild delete_messages
    rebuild_total validity =
        Ready-update repo_id default existing old.id b.name processed _
          (λ r. (refl, refl, refl, refl)) (delete_messages old.id db) (Ready-same refl refl refl h)

    append_commits_total :
        (next : ℕ)
        → (d : Db) × (append_commits (mailbox_name default b.name) b old.id next db ≡ ok d)
          × Ready repo_id default existing old.id b.name (mark b.name processed) d
    unfolding append_commits
    append_commits_total next =
        let same = insert_commits-SameRest old.id next b.new_commits db in
        Ready-update repo_id default existing old.id b.name processed _
          (λ r. (refl, refl, refl, refl)) (insert_commits old.id next b.new_commits db).1
          (Ready-same same.mailboxes same.repositories same.last_mailbox_id h)

  find-any :
      (y : Text) (ms : List Mailbox) {o : Mailbox}
      → old_mailbox y ms ≡ some o
      → any (λ m. beq m.branch y) ms ≡ true
  unfolding old_mailbox find any
  find-any y [] e = cc
  find-any y (m ∷ ms) {o} e = ground (arith, find-any y ms {o = o})

  -- The mailbox of a branch that is known already.
  Ready-known :
      (processed : Text → Bool) (x : Text) (old : Mailbox) (db : Db)
      → Stage repo_id default existing processed db
      → old_mailbox x existing ≡ some old
      → Ready repo_id default existing old.id x processed db
  unfolding old_mailbox
  Ready-known processed x old db h at_x = record {
    stage = h;
    target = All-implies _ _ db.mailboxes h.facts (λ r fact is.
        let (own, is_x) = All-find _ (λ m. beq m.branch x) existing fact.owned at_x in
        let (mine, same) = own (sym is) in (mine, same ∙ (beq_iff old.branch x).0 is_x));
    known = λ o e. let same : o ≡ old = ground arith in ap (λ (m : Mailbox). m.id) same;
    there = h.present x (ground (arith, find-any x existing at_x));
  }

  insert_branch_total :
      (processed : Text → Bool) (clock : Clock) (b : BranchSnapshot) (db : Db)
      → Stage repo_id default existing processed db
      → processed b.name ≡ false
      → old_mailbox b.name existing ≡ none
      → (old : Mailbox) × (d : Db) × (insert_branch clock repo_id (mailbox_name default b.name) b db
          ≡ ok (old, d))
        × Ready repo_id default existing old.id b.name (mark b.name processed) d
  unfolding insert_branch insert_mailbox
  insert_branch_total processed clock b db h fresh no_old =
      let row : Mailbox = record {
        id = suc db.last_mailbox_id;
        repository_id = repo_id;
        branch = b.name;
        name = mailbox_name default b.name;
        uid_validity = u32 clock.inserted;
        next_uid = 1;
        head_oid = b.head_oid;
      } in
      let clear =
        inserted_clear repo_id default existing processed b.name db row (refl, refl, refl, refl) h
          fresh no_old in
      (
        record row { uid_validity = u32 clock.returned; head_oid = [] },
        record db {
          mailboxes = db.mailboxes ++ row ∷ [];
          last_mailbox_id = suc db.last_mailbox_id;
        },
        rw (h.repository, clear) refl,
        inserted_Ready repo_id default existing processed b.name db row (refl, refl, refl, refl) h
            fresh no_old,
      )

  -- Every round is carried out.
  sync_branch_total :
      (processed : Text → Bool) (clock : Clock) (b : BranchSnapshot) (old : Option Mailbox)
      (db : Db)
      → Stage repo_id default existing processed db
      → processed b.name ≡ false
      → old_mailbox b.name existing ≡ old
      → (d : Db) × (sync_branch clock repo_id (mailbox_name default b.name) b old db ≡ ok d)
        × Stage repo_id default existing (mark b.name processed) d
  unfolding sync_branch
  sync_branch_total processed clock b none db h fresh known =
      let over = mark b.name processed in
      let (old, d₁, e₁, h₁) = insert_branch_total processed clock b db h fresh known in
      let (d₂, e₂, h₂) = rebuild_total over b old d₁ h₁ old.uid_validity in
      let (d₃, e₃, h₃) = append_commits_total (mark b.name over) b old d₂ h₂ 1 in
      (d₃, rw (e₁, e₂) e₃, Stage-same (λ y. ground arith) h₃.stage)
  sync_branch_total processed clock b (some old) db h fresh known =
      let ready = Ready-known processed b.name old db h known in
      elim (Bool-cases (needs_rebuild (mailbox_name default b.name) b old)) [
        | inl t ↦
            let (d₂, e₂, h₂) =
              rebuild_total processed b old db ready (u32 (old.uid_validity + 1)) in
            let (d₃, e₃, h₃) = append_commits_total (mark b.name processed) b old d₂ h₂ 1 in
            (d₃, rw (t, e₂) e₃, Stage-same (λ y. ground arith) h₃.stage)
        | inr t ↦
            let (d₃, e₃, h₃) = append_commits_total processed b old db ready old.next_uid in
            (d₃, rw t e₃, h₃.stage)
      ]

  pub sync_branches_total :
      (clock : Text → Clock) (processed : Text → Bool) (bs : List BranchSnapshot) (db : Db)
      → Stage repo_id default existing processed db
      → DistinctNames bs
      → All (λ b. processed b.name ≡ false) bs
      → (d : Db) × (sync_branches clock repo_id default existing bs db ≡ ok d)
        × Stage repo_id default existing (over bs processed) d
  unfolding sync_branches any
  sync_branches_total clock processed [] db h distinct fresh = (db, refl, h)
  sync_branches_total clock processed (b ∷ bs) db h (apart, distinct) (f, fresh) =
      let (d, e, k) =
        sync_branch_total processed (clock b.name) b (old_mailbox b.name existing) db h f refl in
      let next = sync_branches_total clock (mark b.name processed) bs d k distinct (
        All-implies _ _ bs (All-both _ _ bs apart fresh)
          (λ c u. ground (arith, u.0, u.1, beq_iff b.name c.name))) in
      let (d', e', k') = next in (d', rw e e', Stage-same (λ y. ground arith) k')
