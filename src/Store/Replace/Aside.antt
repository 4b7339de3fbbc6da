-- ===== src/Store/Replace/Aside.antt =====
-- internal/store/store.go: the first statement of `ReplaceMailboxes`, which sets the names of the
-- mailboxes aside.
use mathlib.Core.Bool.{false≢true}
use git2imap.Base.{
  ℕ, ◌≤◌, ◌≡◌, refl, sym, ◌∙◌, Bool, true, false, inl, inr, some, List, [], ◌∷◌, map, Text, beq,
  beq_iff, beq_refl, any, find, select, any-map, arith, All, All-implies, All-both, All-map,
  All-select, Bool-cases,
}
use git2imap.Store.{Mailbox, Db, ok}
use git2imap.Store.Mailboxes.{conflict, update_mailboxes}
use git2imap.Store.Replace.{updating_name, old_mailbox, load_mailbox_state}
use git2imap.Store.Replace.Names.{updating_name-injective}
use git2imap.Store.Replace.Rows.{apply_if}
use git2imap.Store.Replace.Contract.{Apart, AllApart}
use git2imap.Store.Replace.Total.{
  Clear, conflict_none, Apart-AllClear, AllApart-map, update_mailboxes_total,
}
use git2imap.Store.Replace.Stage.{Settled, at, Fact, Stage}

-- The table `mailboxes` between transactions: ids and branches are apart, AUTOINCREMENT is past all
-- ids, and no mailbox is left under the name of an update.
pub record Tidy (db : Db) : Type 0 where
  pub apart : AllApart db.mailboxes
  pub below : All (λ m. m.id ≤ db.last_mailbox_id) db.mailboxes
  pub settled : All Settled db.mailboxes

module _ (repo_id default : Text) where
  abbrev mine : Mailbox → Bool
  mine m = beq m.repository_id repo_id

  abbrev aside : Mailbox → Mailbox
  aside m = record m { name = updating_name m.id }

  aside-Clear : (r o : Mailbox) → Settled r → Settled o → Apart r o → Clear mine aside r o
  aside-Clear r o h k apart is =
      let plain : conflict (aside r) o ≡ false =
        conflict_none (aside r) o (λ same. (apart.1 same, (λ e. k r.id (sym e)))) in
      elim (Bool-cases (mine o)) [
        | inl e ↦ (
          plain,
          rw e (
              conflict_none (aside r) (aside o)
                (λ same. (apart.1 same, (λ e. apart.0 (updating_name-injective r.id o.id e))))),
        )
        | inr e ↦ (plain, rw e plain)
      ]

  aside_keeps :
      (r : Mailbox)
      → ((apply_if mine aside r).id ≡ r.id)
        × ((apply_if mine aside r).repository_id ≡ r.repository_id)
        × ((apply_if mine aside r).branch ≡ r.branch)
  aside_keeps r = elim (Bool-cases (mine r)) [
    | inl e ↦ rw e (refl, refl, refl)
    | inr e ↦ rw e (refl, refl, refl)
  ]

  -- A row of the repository is the one that `existing` holds for its branch.
  old_of :
      (ms : List Mailbox)
      → AllApart ms
      → All (λ r. r.repository_id ≡ repo_id → old_mailbox r.branch (select mine ms) ≡ some r) ms
  unfolding old_mailbox select find
  old_of [] apart = tt
  old_of (m ∷ ms) (a, apart) = (
    (λ same. ground (arith, same, beq_iff m.repository_id repo_id, beq_refl m.branch)),
    All-implies _ _ ms (All-both _ _ ms a (old_of ms apart)) (λ r h same.
        ground
          (arith, h.0.1, h.1, same, beq_iff m.repository_id repo_id, beq_iff m.branch r.branch)),
  )

  abbrev Owned : Mailbox → Mailbox → Type 0
  Owned r o = o.id ≡ r.id → (r.repository_id ≡ repo_id) × (r.branch ≡ o.branch)

  select-Owned : (ms : List Mailbox) → AllApart ms → All (λ r. All (Owned r) (select mine ms)) ms
  unfolding select
  select-Owned [] apart = tt
  select-Owned (m ∷ ms) (a, apart) =
      let others : All (Owned m) (select mine ms) =
        All-select _ mine ms (All-implies _ _ ms a (λ o h e. absurd (h.0 (sym e)))) in
      let rest = All-both _ _ ms a (select-Owned ms apart) in
      elim (Bool-cases (mine m)) [
        | inl e ↦ (
          rw e ((λ same. ((beq_iff m.repository_id repo_id).0 e, refl)), others),
          All-implies _ _ ms rest (λ r h. rw e ((λ same. absurd (h.0.0 same)), h.1)),
        )
        | inr e ↦ (rw e others, All-implies _ _ ms rest (λ r h. rw e h.1))
      ]

  any-select-mine :
      (y : Text) (ms : List Mailbox)
      → any (λ o. beq o.branch y) (select mine ms) ≡ any (at repo_id y) ms
  unfolding any select
  any-select-mine y [] = refl
  any-select-mine y (m ∷ ms) = ground (arith, any-select-mine y ms)

  -- The first UPDATE is carried out, and the loop starts with every mailbox set aside.
  pub aside_total :
      (db : Db)
      → Tidy db
      → any (λ r. beq r.id repo_id) db.repositories ≡ true
      → (d : Db) × (update_mailboxes mine aside db ≡ ok d)
        × Stage repo_id default (load_mailbox_state repo_id db) (λ y. false) d
  unfolding load_mailbox_state
  aside_total db tidy there =
      let g = apply_if mine aside in
      let ms = db.mailboxes in
      let rows =
        All-both _ _ ms (All-both _ _ ms tidy.below tidy.settled)
          (All-both _ _ ms (old_of ms tidy.apart) (select-Owned ms tidy.apart)) in
      (
        record db { mailboxes = map g ms },
        update_mailboxes_total mine aside db
            (Apart-AllClear mine aside Settled aside-Clear ms tidy.apart tidy.settled),
        record {
          apart = AllApart-map g aside_keeps ms tidy.apart;
          facts =
              All-map _ _ g ms rows
                (λ r h. aside_fact (select mine ms) db.last_mailbox_id r h.0.0 h.0.1 h.1.0 h.1.1);
          older = All-select _ mine ms tidy.below;
          present =
              λ y e. any-map (at repo_id y) g ms (at-aside y) ∙ sym (any-select-mine y ms) ∙ e;
          repository = there;
        },
      )
    where
      at-aside : (y : Text) (r : Mailbox) → at repo_id y (apply_if mine aside r) ≡ at repo_id y r
      at-aside y r = let (a, b, c) = aside_keeps r in rw (b, c) refl

      aside_fact :
          (existing : List Mailbox) (last : ℕ) (r : Mailbox)
          → r.id ≤ last
          → Settled r
          → (r.repository_id ≡ repo_id → old_mailbox r.branch existing ≡ some r)
          → All (Owned r) existing
          → Fact repo_id default existing (λ y. false) last (apply_if mine aside r)
      aside_fact existing last r le settled old owned = elim (Bool-cases (mine r)) [
        | inl e ↦ rw e (record {
          below = le;
          named = λ same. inr (refl, refl, (r, old same, refl));
          settled = λ ne. absurd (ne ((beq_iff r.repository_id repo_id).0 e));
          owned = owned;
        })
        | inr e ↦ rw e (record {
          below = le;
          named = λ same. absurd (false≢true (sym e ∙ (beq_iff r.repository_id repo_id).1 same));
          settled = λ ne. settled;
          owned = owned;
        })
      ]
