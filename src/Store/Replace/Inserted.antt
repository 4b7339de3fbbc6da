-- ===== src/Store/Replace/Inserted.antt =====
-- internal/store/store.go: the row that `ReplaceMailboxes` inserts for a branch with no mailbox
-- clashes with no other.
use mathlib.Core.Bool.{false≢true}
use git2imap.Base.{
  suc, ◌≡◌, ◌≢◌, refl, sym, ap, ◌∙◌, Bool, true, false, inl, inr, none, some, List, [], ◌∷◌, ◌++◌,
  Text, beq, beq_iff, beq_refl, any, any-append, any-none, AllPairs-append, arith, All, All-append,
  All-implies, subst, Bool-cases,
}
use git2imap.Store.{Mailbox, Db}
use git2imap.Store.Mailboxes.{conflict}
use git2imap.Store.Replace.{mailbox_name, old_mailbox}
use git2imap.Store.Replace.Names.{mailbox_name-injective, mailbox_name-≢-updating_name}
use git2imap.Store.Replace.Contract.{Apart, AllApart}
use git2imap.Store.Replace.Total.{conflict_none}
use git2imap.Store.Replace.Stage.{mark, at, Named, Named-mark, Fact, Stage, Ready}

module _ (repo_id default : Text) (existing : List Mailbox) where
  none≢some : {o : Mailbox} → none ≢ some o
  none≢some = cc

  -- No mailbox of the repository is for a branch that is not known and not over.
  new_branch :
      (processed : Text → Bool) (x : Text)
      → processed x ≡ false
      → old_mailbox x existing ≡ none
      → (r : Mailbox) → Named repo_id default existing processed r
      → r.branch ≢ x
  new_branch processed x fresh no_old r (inl (n, t)) same =
      false≢true (sym fresh ∙ ap processed (sym same) ∙ t)
  new_branch processed x fresh no_old r (inr (n, w, (o, old, e))) same =
      none≢some (sym no_old ∙ ap (λ y. old_mailbox y existing) (sym same) ∙ old)

  -- The row that is inserted for a branch with no mailbox.
  module _ (processed : Text → Bool) (x : Text) (db : Db) (row : Mailbox)
      (is_row : (row.id ≡ suc db.last_mailbox_id)
        × (row.repository_id ≡ repo_id)
        × (row.branch ≡ x)
        × (row.name ≡ mailbox_name default x))
      (h : Stage repo_id default existing processed db) (fresh : processed x ≡ false)
      (no_old : old_mailbox x existing ≡ none) where
    pub inserted_clear : any (conflict row) db.mailboxes ≡ false
    inserted_clear =
        let (id, mine, branch, name) = is_row in
        any-none (conflict row) db.mailboxes (
          All-implies _ _ db.mailboxes h.facts (λ r fact. conflict_none row r (λ same.
            let named = fact.named (sym same ∙ mine) in
            (
              (λ e. new_branch processed x fresh no_old r named (sym e ∙ branch)),
              (λ e. elim (fact.named (sym same ∙ mine)) [
                | inl (n, t) ↦
                    new_branch processed x fresh no_old r named
                      (sym (mailbox_name-injective default x r.branch (sym name ∙ e ∙ n)))
                | inr (n, t, w) ↦ mailbox_name-≢-updating_name default x r.id (sym name ∙ e ∙ n)
              ]),
            ))))

    inserted_apart : AllApart (db.mailboxes ++ row ∷ [])
    inserted_apart =
        let (id, mine, branch, name) = is_row in
        AllPairs-append Apart db.mailboxes row h.apart (
          All-implies _ _ db.mailboxes h.facts (λ r fact. (
            (λ e. omega (arith, fact.below, e, id)),
            (λ same e.
                new_branch processed x fresh no_old r (fact.named (same ∙ mine)) (e ∙ branch)),
          )))

    inserted_facts :
        All
          (Fact repo_id default existing (mark x processed) (suc db.last_mailbox_id))
          (db.mailboxes ++ row ∷ [])
    inserted_facts =
        let (id, mine, branch, name) = is_row in
        All-append _ db.mailboxes (row ∷ [])
          (All-implies _ _ db.mailboxes h.facts (λ r fact. record {
            below = omega (arith, fact.below);
            named = λ own.
                Named-mark repo_id default existing x processed r
                  (λ o old. absurd (none≢some (sym no_old ∙ old))) (fact.named own);
            settled = fact.settled;
            owned = fact.owned;
          }))
          (
            record {
              below = omega (arith, id);
              named = λ own.
                  inl (name ∙ ap (mailbox_name default) (sym branch), rw (branch, beq_refl x) refl);
              settled = λ ne. absurd (ne mine);
              owned = All-implies _ _ existing h.older (λ o le e. ground (arith, le, e, id));
            },
            tt,
          )

    inserted_there : any (at repo_id x) (db.mailboxes ++ row ∷ []) ≡ true
    unfolding any
    inserted_there =
        let (id, mine, branch, name) = is_row in
        let own : at repo_id x row ≡ true = rw (mine, branch, beq_refl repo_id, beq_refl x) refl in
        any-append (at repo_id x) db.mailboxes (row ∷ []) ∙ ground (arith, own)

    pub inserted_Ready : Ready repo_id default existing row.id x (mark x processed) (record db {
      mailboxes = db.mailboxes ++ row ∷ [];
      last_mailbox_id = suc db.last_mailbox_id;
    })
    inserted_Ready =
        let (id, mine, branch, name) = is_row in
        record {
          stage = record {
            apart = inserted_apart;
            facts = inserted_facts;
            older = All-implies _ _ existing h.older (λ o le. omega (arith, le));
            present = λ y e. elim (Bool-cases (beq x y)) [
              | inl k ↦
                  subst (λ z. any (at repo_id z) (db.mailboxes ++ row ∷ []) ≡ true)
                    ((beq_iff x y).0 k) inserted_there
              | inr k ↦
                  any-append (at repo_id y) db.mailboxes (row ∷ [])
                  ∙ rw (h.present y (rw k at e)) refl
            ];
            repository = h.repository;
          };
          target =
              All-append _ db.mailboxes (row ∷ [])
                (All-implies _ _ db.mailboxes h.facts
                  (λ r fact e. ground (arith, fact.below, e, id)))
                ((λ e. (mine, branch)), tt);
          known = λ o e. absurd (none≢some (sym no_old ∙ e));
          there = inserted_there;
        }
