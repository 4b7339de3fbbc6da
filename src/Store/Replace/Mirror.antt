-- ===== src/Store/Replace/Mirror.antt =====
-- internal/store/store.go: `ReplaceMailboxes` succeeds on a tidy database, and the mailboxes that it
-- leaves to the repository mirror the branches.
use mathlib.Core.Bool.{false≢true}
use git2imap.Base.{
  ◌≡◌, ◌≢◌, refl, sym, ap, ◌∙◌, true, false, inl, inr, List, [], ◌∷◌, Text, beq, beq_iff, any,
  any-none, arith, All, All-implies, All-both, Bool-cases,
}
use git2imap.Store.{Mailbox, BranchSnapshot, Db, ok}
use git2imap.Store.Replace.{
  Clock, mailbox_name, old_mailbox, load_mailbox_state, delete_unseen, replace_mailboxes,
}
use git2imap.Store.Replace.Names.{mailbox_name-≢-updating_name}
use git2imap.Store.Replace.Outcome.{DistinctNames}
use git2imap.Store.Replace.Contract.{All-find}
use git2imap.Store.Replace.Stage.{Settled, at, Fact, Stage}
use git2imap.Store.Replace.Clean.{
  unseen, delete_unseen-All, delete_unseen-AllApart, delete_unseen-last, delete_unseen-gone,
  delete_unseen-present,
}
use git2imap.Store.Replace.Progress.{over, sync_branches_total}
use git2imap.Store.Replace.Aside.{Tidy, aside_total}

-- The repository has one mailbox for each branch, under the name of the branch, and no other.
pub record Mirrors (repo_id default : Text) (bs : List BranchSnapshot) (db : Db) : Type 0 where
  pub named :
      All (λ m. m.repository_id ≡ repo_id → m.name ≡ mailbox_name default m.branch) db.mailboxes
  pub exact : (y : Text) → any (at repo_id y) db.mailboxes ≡ any (λ b. beq b.name y) bs

-- The rows after the loop and the deletions.
module _ (repo_id default : Text) (existing : List Mailbox) (bs : List BranchSnapshot) (db : Db)
    (h : Stage repo_id default existing (over bs (λ y. false)) db) where
  abbrev cleaned : Db
  cleaned = delete_unseen bs existing db

  abbrev Final : Mailbox → Type 0
  Final r =
      (r.repository_id ≡ repo_id
        → (r.name ≡ mailbox_name default r.branch) × (any (λ b. beq b.name r.branch) bs ≡ true))
      × (r.repository_id ≢ repo_id → Settled r)

  cleaned-Final : All Final cleaned.mailboxes
  unfolding old_mailbox
  cleaned-Final =
      All-implies _ _ cleaned.mailboxes
        (All-both _ _ cleaned.mailboxes (delete_unseen-All bs _ existing db h.facts)
          (delete_unseen-gone bs existing db))
        (λ r k. (final r k.0 k.1, k.0.settled))
    where
      final :
          (r : Mailbox)
          → Fact repo_id default existing (over bs (λ y. false)) db.last_mailbox_id r
          → All (λ o. unseen bs o ≡ true → r.id ≢ o.id) existing
          → r.repository_id ≡ repo_id
          → (r.name ≡ mailbox_name default r.branch) × (any (λ b. beq b.name r.branch) bs ≡ true)
      final r fact gone own = elim (fact.named own) [
        | inl (n, t) ↦ (n, ground arith)
        | inr (n, w, (o, old, same)) ↦
            let (go, is) = All-find _ (λ m. beq m.branch r.branch) existing gone old in
            let gone_branch : unseen bs o ≡ true =
              rw ((beq_iff o.branch r.branch).0 is) (ground arith) in
            absurd (go gone_branch (sym same))
      ]

  cleaned-Tidy : Tidy cleaned
  cleaned-Tidy = record {
    apart = delete_unseen-AllApart bs existing db h.apart;
    below = rw (delete_unseen-last bs existing db) (
        All-implies _ _ cleaned.mailboxes (delete_unseen-All bs _ existing db h.facts)
          (λ r k. k.below));
    settled = All-implies _ _ cleaned.mailboxes cleaned-Final (λ r k i e.
        elim (Bool-cases (beq r.repository_id repo_id)) [
          | inl t ↦
              mailbox_name-≢-updating_name default r.branch i
                (sym (k.0 ((beq_iff r.repository_id repo_id).0 t)).0 ∙ e)
          | inr t ↦ k.1 (λ same. false≢true (sym t ∙ (beq_iff r.repository_id repo_id).1 same)) i e
        ]);
  }

  cleaned-Mirrors : Mirrors repo_id default bs cleaned
  cleaned-Mirrors = record {
    named = All-implies _ _ cleaned.mailboxes cleaned-Final (λ r k own. (k.0 own).0);
    exact = λ y. elim (Bool-cases (any (λ b. beq b.name y) bs)) [
      | inl e ↦
          delete_unseen-present bs repo_id y existing db e
            (All-implies _ _ db.mailboxes h.facts
              (λ r k. All-implies _ _ existing k.owned (λ o u same. (u same).1)))
            (h.present y (rw e refl))
          ∙ sym e
      | inr e ↦
          any-none (at repo_id y) cleaned.mailboxes
            (All-implies _ _ cleaned.mailboxes cleaned-Final (λ r k. other y e r k))
          ∙ sym e
    ];
  }
    where
      other :
          (y : Text)
          → any (λ b. beq b.name y) bs ≡ false
          → (r : Mailbox) → Final r
          → at repo_id y r ≡ false
      other y e r k = elim (Bool-cases (at repo_id y r)) [
        | inl t ↦
            let own : r.repository_id ≡ repo_id = ground (arith, beq_iff r.repository_id repo_id) in
            let is_y : r.branch ≡ y = ground (arith, beq_iff r.branch y) in
            absurd
              (false≢true (sym e ∙ ap (λ x. any (λ b. beq b.name x) bs) (sym is_y) ∙ (k.0 own).1))
        | inr t ↦ t
      ]

-- `ReplaceMailboxes` succeeds on a tidy database that has the repository, for branches with
-- distinct names: no statement meets a UNIQUE clause or the foreign key. The database is tidy
-- afterwards, and the repository has exactly one mailbox for each of the branches, INBOX for the
-- default one, and none for any other.
pub replace_mailboxes-Mirrors :
    (clock : Text → Clock) (repo_id default : Text) (bs : List BranchSnapshot) (db : Db)
    → Tidy db
    → any (λ r. beq r.id repo_id) db.repositories ≡ true
    → DistinctNames bs
    → (after : Db) × (replace_mailboxes clock repo_id default bs db ≡ ok after)
      × Tidy after
      × Mirrors repo_id default bs after
unfolding replace_mailboxes
replace_mailboxes-Mirrors clock repo_id default bs db tidy there distinct =
    let existing = load_mailbox_state repo_id db in
    let (d, e, h) = aside_total repo_id default db tidy there in
    let (d', e', h') =
      sync_branches_total repo_id default existing clock (λ y. false) bs d h distinct
        (nothing_over bs) in
    (
      delete_unseen bs existing d',
      rw (e, e') refl,
      cleaned-Tidy repo_id default existing bs d' h',
      cleaned-Mirrors repo_id default existing bs d' h',
    )
  where
    nothing_over : (bs : List BranchSnapshot) → All (λ b. false ≡ false) bs
    nothing_over [] = tt
    nothing_over (b ∷ bs) = (refl, nothing_over bs)
