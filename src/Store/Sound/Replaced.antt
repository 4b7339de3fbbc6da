-- ===== src/Store/Sound/Replaced.antt =====
-- internal/store/store.go: `ReplaceMailboxes` keeps the database sound.
use mathlib.Core.Bool.{false≢true}
use git2imap.Base.{
  ◌≡◌, refl, sym, ap, ◌∙◌, Bool, false, List, [], ◌∷◌, map, Text, beq, beq_iff, find, select, arith,
  All, All-implies, subst, Bool-cases, inl, inr,
}
use git2imap.Store.{Mailbox, BranchSnapshot, Db, ok}
use git2imap.Store.Mailboxes.{update_mailboxes, insert_mailbox}
use git2imap.Store.Replace.{
  Clock, updating_name, insert_branch, sync_branch, sync_branches, delete_unseen, old_mailbox,
  replace_mailboxes, load_mailbox_state,
}
use git2imap.Store.Replace.Rows.{>>=-eq-ok, update_mailboxes-eq-ok, apply_if}
use git2imap.Store.Replace.Outcome.{DistinctNames}
use git2imap.Store.Replace.Tables.{replace_mailboxes-repositories}
use git2imap.Store.Replace.Aside.{Tidy}
use git2imap.Store.Replace.Mirror.{replace_mailboxes-Mirrors}
use git2imap.Store.Sound.{has_repository, Sound}
use git2imap.Store.Sound.Transaction.{replace_mailboxes-Linked}

map_elsewhere :
    (p : Mailbox → Bool) (f : Mailbox → Mailbox) (ms : List Mailbox)
    → All (λ m. p m ≡ false) ms
    → map (apply_if p f) ms ≡ ms
map_elsewhere p f [] h = refl
map_elsewhere p f (m ∷ ms) (h, hs) = rw (h, map_elsewhere p f ms hs) refl

select_elsewhere :
    (p : Mailbox → Bool) (ms : List Mailbox) → All (λ m. p m ≡ false) ms → select p ms ≡ []
unfolding select
select_elsewhere p [] h = refl
select_elsewhere p (m ∷ ms) (h, hs) = rw (h, select_elsewhere p ms hs) refl

sync_branches-unknown :
    (clock : Text → Clock) (repo_id default : Text) (bs : List BranchSnapshot) (db : Db) {db' : Db}
    → has_repository repo_id db ≡ false
    → sync_branches clock repo_id default [] bs db ≡ ok db'
    → db' ≡ db
unfolding sync_branches sync_branch insert_branch insert_mailbox old_mailbox find
sync_branches-unknown clock repo_id default [] db {db'} no_home h = ground arith
sync_branches-unknown clock repo_id default (b ∷ bs) db {db'} no_home h = ground (arith, no_home)

-- For a repository that is not there, the transaction fails or has nothing to do.
replace_mailboxes-unknown :
    (clock : Text → Clock) (repo_id default : Text) (bs : List BranchSnapshot) (db : Db) {db' : Db}
    → Sound db
    → has_repository repo_id db ≡ false
    → replace_mailboxes clock repo_id default bs db ≡ ok db'
    → db' ≡ db
unfolding replace_mailboxes load_mailbox_state delete_unseen
replace_mailboxes-unknown clock repo_id default bs db {db'} sound no_home h =
    let p = λ (m : Mailbox). beq m.repository_id repo_id in
    let aside = λ (m : Mailbox). record m { name = updating_name m.id } in
    let elsewhere : All (λ m. p m ≡ false) db.mailboxes =
      All-implies _ _ db.mailboxes sound.linked.homed (λ m at. elim (Bool-cases (p m)) [
        | inl e ↦ absurd (
            false≢true (
              sym no_home
              ∙ ap (λ x. has_repository x db) (sym ((beq_iff m.repository_id repo_id).0 e))
              ∙ at))
        | inr e ↦ e
      ]) in
    let existing = load_mailbox_state repo_id db in
    let (d, e, h₁) = >>=-eq-ok (update_mailboxes p aside db) _ h in
    let (d', e', h₂) = >>=-eq-ok (sync_branches clock repo_id default existing bs d) _ h₁ in
    let same : d ≡ db =
      update_mailboxes-eq-ok p aside db e
      ∙ ap (λ ms. record db { mailboxes = ms }) (map_elsewhere p aside db.mailboxes elsewhere) in
    let none_there : existing ≡ [] = select_elsewhere p db.mailboxes elsewhere in
    let run : sync_branches clock repo_id default [] bs db ≡ ok d' =
      subst (λ ms. sync_branches clock repo_id default ms bs db ≡ ok d') none_there
        (subst (λ x. sync_branches clock repo_id default existing bs x ≡ ok d') same e') in
    let result : delete_unseen bs existing d' ≡ db' = ground arith in
    sym result
    ∙ ap (λ ms. delete_unseen bs ms d') none_there
    ∙ sync_branches-unknown clock repo_id default bs db no_home run

pub Sound-replace_mailboxes :
    (clock : Text → Clock) (repo_id default : Text) (bs : List BranchSnapshot) (db : Db) {db' : Db}
    → DistinctNames bs
    → replace_mailboxes clock repo_id default bs db ≡ ok db'
    → Sound db
    → Sound db'
Sound-replace_mailboxes clock repo_id default bs db {db'} distinct h sound =
    elim (Bool-cases (has_repository repo_id db)) [
      | inl e ↦
          let (after, run, tidy, mirrors) =
            replace_mailboxes-Mirrors clock repo_id default bs db sound.tidy e distinct in
          let is : after ≡ db' = ok-injective (sym run ∙ h) in
          record {
            known = rw (replace_mailboxes-repositories clock repo_id default bs db h) sound.known;
            tidy = subst Tidy is tidy;
            linked = replace_mailboxes-Linked clock repo_id default bs db e h sound.linked;
          }
      | inr e ↦
          subst Sound (sym (replace_mailboxes-unknown clock repo_id default bs db sound e h)) sound
    ]
  where
    ok-injective : {a b : Db} → ok a ≡ ok b → a ≡ b
    ok-injective e = cc
