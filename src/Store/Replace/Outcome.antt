-- ===== src/Store/Replace/Outcome.antt =====
-- internal/store/store.go: the loop over the branches in `ReplaceMailboxes`, followed for
-- one mailbox.
use mathlib.Core.Bool.{false≢true}
use git2imap.Base.{
  ◌+◌, ◌≤◌, ◌<◌, ◌^◌, ◌≡◌, ◌≢◌, sym, ap, ◌∙◌, true, false, some, List, [], ◌∷◌, ◌++◌, Text, beq,
  beq_iff, any, find, arith, length, All, subst, Bool-cases, inl, inr,
}
use git2imap.Store.{Mailbox, BranchSnapshot, Db, ok}
use git2imap.Store.Mailboxes.{delete_mailbox}
use git2imap.Store.Replace.{
  Clock, needs_rebuild, mailbox_name, old_mailbox, sync_branch, sync_branches, delete_unseen,
}
use git2imap.Store.Replace.Commits.{held}
use git2imap.Store.Replace.Rows.{
  >>=-eq-ok, row, Untouched, Untouched-refl, Untouched-trans, delete_mailbox-Untouched,
}
use git2imap.Store.Replace.Branch.{
  Leaves, Leaves-trans, sync_branch-Leaves, sync_branch-last, Kept, Rebuilt, sync_branch-Kept,
  sync_branch-Rebuilt,
}

-- No two snapshots are for one branch: `git for-each-ref` lists a ref once.
abbrev pub DistinctNames : List BranchSnapshot → Type 0
DistinctNames [] = Unit
DistinctNames (b ∷ bs) = All (λ c. c.name ≢ b.name) bs × DistinctNames bs

-- `existing` holds the id of `m` for the branch of `m` only.
abbrev pub Owns : Mailbox → List Mailbox → Type 0
Owns m = All (λ o. o.id ≡ m.id → o.branch ≡ m.branch)

Owns-other :
    (m : Mailbox) (existing : List Mailbox) (x : Text) (o : Mailbox)
    → Owns m existing
    → x ≢ m.branch
    → old_mailbox x existing ≡ some o
    → m.id ≢ o.id
unfolding old_mailbox
Owns-other m [] x o h ne e = cc
Owns-other m (p ∷ ps) x o (h, hs) ne e = elim (Bool-cases (beq p.branch x)) [
  | inl t ↦
      let is : p ≡ o = ground arith in
      λ same. ground (arith, beq_iff p.branch x, h, ap (λ (q : Mailbox). q.id) is)
  | inr t ↦ Owns-other m ps x o hs ne (rw t at e)
]

-- Room for the uids of a branch's commits in 32 bits.
abbrev pub Fits : Mailbox → BranchSnapshot → Type 0
Fits m b = (m.next_uid + length b.new_commits < 2 ^ 32) × (1 + length b.new_commits < 2 ^ 32)

module _ (default : Text) (m : Mailbox) where
  -- What becomes of the mailbox, by the test that the code makes.
  pub record Outcome (b : BranchSnapshot) (after before : Db) : Type 0 where
    pub kept : needs_rebuild (mailbox_name default b.name) b m ≡ false → Kept m b after before
    pub rebuilt :
        needs_rebuild (mailbox_name default b.name) b m ≡ true
        → Rebuilt m (mailbox_name default b.name) b after

  Kept-Leaves :
      (b : BranchSnapshot) {after mid before : Db}
      → Untouched m.id after mid
      → Kept m b mid before
      → Kept m b after before
  Kept-Leaves b u k = record {
    at = u.row_same ∙ k.at;
    new = k.new;
    appended = u.held_same ∙ k.appended;
    within = k.within;
    ascending = k.ascending;
  }

  Kept-before :
      (b : BranchSnapshot) {after mid before : Db}
      → held m.id mid ≡ held m.id before
      → Kept m b after mid
      → Kept m b after before
  Kept-before b u k = record {
    at = k.at;
    new = k.new;
    appended = k.appended ∙ ap (λ ms. ms ++ k.new) u;
    within = k.within;
    ascending = k.ascending;
  }

  Rebuilt-Leaves :
      (name : Text) (b : BranchSnapshot) {after mid : Db}
      → Untouched m.id after mid
      → Rebuilt m name b mid
      → Rebuilt m name b after
  Rebuilt-Leaves name b u k = record {
    at = u.row_same ∙ k.at;
    within = rw u.held_same k.within;
    ascending = rw u.held_same k.ascending;
  }

  pub Outcome-before :
      (b : BranchSnapshot) {after mid before : Db}
      → held m.id mid ≡ held m.id before
      → Outcome b after mid
      → Outcome b after before
  Outcome-before b u o = record { kept = λ e. Kept-before b u (o.kept e); rebuilt = o.rebuilt }

  pub Outcome-Leaves :
      (b : BranchSnapshot) {after mid before : Db}
      → Untouched m.id after mid
      → Outcome b mid before
      → Outcome b after before
  Outcome-Leaves b u o = record {
    kept = λ e. Kept-Leaves b u (o.kept e);
    rebuilt = λ e. Rebuilt-Leaves (mailbox_name default b.name) b u (o.rebuilt e);
  }

module _ (clock : Text → Clock) (repo_id default : Text) (existing : List Mailbox) (m : Mailbox)
    (owns : Owns m existing) where
  sync_branches-Leaves :
      (bs : List BranchSnapshot) (db : Db) {db' : Db}
      → All (λ b. b.name ≢ m.branch) bs
      → m.id ≤ db.last_mailbox_id
      → sync_branches clock repo_id default existing bs db ≡ ok db'
      → Leaves m.id db' db
  unfolding sync_branches
  sync_branches-Leaves [] db {db'} others le h =
      let e : db ≡ db' = ground arith in
      rw (← e) (record { untouched = Untouched-refl m.id db; last_le = omega arith })
  sync_branches-Leaves (b ∷ bs) db (ne, others) le h =
      let name = mailbox_name default b.name in
      let old = old_mailbox b.name existing in
      let (d, e, k) = >>=-eq-ok (sync_branch (clock b.name) repo_id name b old db) _ h in
      let first =
        sync_branch-Leaves m.id (clock b.name) repo_id name b old db le
          (λ o. Owns-other m existing b.name o owns ne) e in
      Leaves-trans (sync_branches-Leaves bs d others (omega (arith, first.last_le)) k) first

  pub delete_unseen-Leaves :
      (bs : List BranchSnapshot) (ms : List Mailbox) (db : Db)
      → any (λ b. beq b.name m.branch) bs ≡ true
      → Owns m ms
      → Untouched m.id (delete_unseen bs ms db) db
  unfolding delete_unseen
  delete_unseen-Leaves bs [] db seen h = Untouched-refl m.id db
  delete_unseen-Leaves bs (o ∷ ms) db seen (h, hs) =
      elim (Bool-cases (any (λ b. beq b.name o.branch) bs)) [
        | inl e ↦ rw e (delete_unseen-Leaves bs ms db seen hs)
        | inr e ↦
            let ne : m.id ≢ o.id = λ same. false≢true (sym e ∙ rw (h (sym same)) seen) in
            rw e (
              Untouched-trans (delete_unseen-Leaves bs ms (delete_mailbox o.id db) seen hs)
                (delete_mailbox-Untouched m.id o.id db ne))
      ]

  -- The round for the branch of the mailbox.
  sync_branch-Outcome :
      (b : BranchSnapshot) (db : Db) {db' : Db} {aside : Text}
      → row m.id db ≡ some (record m { name = aside })
      → Fits m b
      → sync_branch (clock b.name) repo_id (mailbox_name default b.name) b (some m) db ≡ ok db'
      → Outcome default m b db' db
  sync_branch-Outcome b db at fits h =
      let name = mailbox_name default b.name in
      record {
        kept = sync_branch-Kept (clock b.name) repo_id name b m db at h fits.0;
        rebuilt = sync_branch-Rebuilt (clock b.name) repo_id name b m db at h fits.1;
      }

  pub sync_branches-Outcome :
      (bs : List BranchSnapshot) (b : BranchSnapshot) (db : Db) {db' : Db} {aside : Text}
      → DistinctNames bs
      → find (λ c. beq c.name m.branch) bs ≡ some b
      → old_mailbox m.branch existing ≡ some m
      → m.id ≤ db.last_mailbox_id
      → row m.id db ≡ some (record m { name = aside })
      → Fits m b
      → sync_branches clock repo_id default existing bs db ≡ ok db'
      → Outcome default m b db' db
  unfolding sync_branches find
  sync_branches-Outcome [] b db distinct seen old le at fits h = cc
  sync_branches-Outcome (c ∷ bs) b db {db'} (apart, distinct) seen old le at fits h =
      let name = mailbox_name default c.name in
      let before = old_mailbox c.name existing in
      let (d, e, k) = >>=-eq-ok (sync_branch (clock c.name) repo_id name c before db) _ h in
      elim (Bool-cases (beq c.name m.branch)) [
        | inl t ↦
            let same = (beq_iff c.name m.branch).0 t in
            let is : c ≡ b = ground arith in
            let run : sync_branch (clock c.name) repo_id name c (some m) db ≡ ok d =
              subst (λ o. sync_branch (clock c.name) repo_id name c o db ≡ ok d)
                (ap (λ x. old_mailbox x existing) same ∙ old) e in
            let apart' = subst (λ x. All (λ a. a.name ≢ x) bs) same apart in
            let le' : m.id ≤ d.last_mailbox_id =
              omega (arith, sync_branch-last (clock c.name) repo_id name c m db run) in
            subst (λ x. Outcome default m x db' db) is
              (Outcome-Leaves default m c (sync_branches-Leaves bs d apart' le' k).untouched
                (sync_branch-Outcome c db at (subst (Fits m) (sym is) fits) run))
        | inr t ↦
            let ne : c.name ≢ m.branch =
              λ same. false≢true (sym t ∙ (beq_iff c.name m.branch).1 same) in
            let first =
              sync_branch-Leaves m.id (clock c.name) repo_id name c before db le
                (λ o. Owns-other m existing c.name o owns ne) e in
            let later =
              sync_branches-Outcome bs b d distinct (rw t at seen) old
                (omega (arith, first.last_le)) (first.untouched.row_same ∙ at) fits k in
            Outcome-before default m b first.untouched.held_same later
      ]
