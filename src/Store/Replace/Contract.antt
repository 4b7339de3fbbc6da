-- ===== src/Store/Replace/Contract.antt =====
-- internal/store/store.go: what `ReplaceMailboxes` does to a mailbox whose branch is still there.
use git2imap.Base.{
  ℕ, ◌≤◌, ◌≡◌, ◌≢◌, refl, sym, Bool, true, some, List, [], ◌∷◌, map, Text, beq, beq_iff, select,
  any, find, ◌==◌, arith, All, All-select, AllPairs, subst, Bool-cases, inl, inr,
}
use git2imap.Store.{Mailbox, BranchSnapshot, Db, ok}
use git2imap.Store.Mailboxes.{update_mailboxes}
use git2imap.Store.Replace.{
  Clock, updating_name, load_mailbox_state, old_mailbox, sync_branches, delete_unseen,
  replace_mailboxes,
}
use git2imap.Store.Replace.Commits.{held}
use git2imap.Store.Replace.Rows.{>>=-eq-ok, row, update_mailboxes-eq-ok, apply_if}
use git2imap.Store.Replace.Outcome.{
  DistinctNames, Owns, Fits, Outcome, Outcome-Leaves, Outcome-before, sync_branches-Outcome,
  delete_unseen-Leaves,
}

-- Two rows have different ids, and in one repository different branches.
abbrev pub Apart : Mailbox → Mailbox → Type 0
Apart a b = (a.id ≢ b.id) × (a.repository_id ≡ b.repository_id → a.branch ≢ b.branch)

abbrev pub AllApart : List Mailbox → Type 0
AllApart = AllPairs Apart

pub All-find :
    (P : Mailbox → Type 0) (p : Mailbox → Bool) (ms : List Mailbox) {m : Mailbox}
    → All P ms
    → find p ms ≡ some m
    → P m × (p m ≡ true)
unfolding find
All-find P p [] h e = cc
All-find P p (x ∷ ms) {m} (h, hs) e = elim (Bool-cases (p x)) [
  | inl t ↦ let is : x ≡ m = ground arith in (subst P is h, rw (← is) t)
  | inr t ↦ All-find P p ms hs (rw t at e)
]

Owns-row :
    (i : ℕ) (ms : List Mailbox) {m : Mailbox}
    → AllApart ms
    → find (λ o. o.id == i) ms ≡ some m
    → Owns m ms
unfolding find
Owns-row i [] apart e = tt
Owns-row i (x ∷ ms) {m} (h, hs) e = elim (Bool-cases (x.id == i)) [
  | inl t ↦
      let is : x ≡ m = ground arith in
      subst (λ n. Owns n (x ∷ ms)) is ((λ _. refl), Owns_apart x ms h)
  | inr t ↦
      let (a, b) = All-find (Apart x) (λ o. o.id == i) ms h (rw t at e) in
      ((λ same. absurd (a.0 same)), Owns-row i ms hs (rw t at e))
]
  where
    Owns_apart : (x : Mailbox) (ms : List Mailbox) → All (Apart x) ms → Owns x ms
    Owns_apart x [] h = tt
    Owns_apart x (o ∷ ms) (h, hs) = ((λ same. absurd (h.0 (sym same))), Owns_apart x ms hs)

pub old_mailbox-row :
    (i : ℕ) (repo_id : Text) (ms : List Mailbox) {m : Mailbox}
    → AllApart ms
    → m.repository_id ≡ repo_id
    → find (λ o. o.id == i) ms ≡ some m
    → old_mailbox m.branch (select (λ o. beq o.repository_id repo_id) ms) ≡ some m
unfolding find old_mailbox select
old_mailbox-row i repo_id [] apart mine e = cc
old_mailbox-row i repo_id (x ∷ ms) {m} (h, hs) mine e = elim (Bool-cases (x.id == i)) [
  | inl t ↦
      let is : x ≡ m = ground arith in
      ground (arith, is, beq_iff x.repository_id repo_id, beq_iff x.branch m.branch)
  | inr t ↦
      let (a, b) = All-find (Apart x) (λ o. o.id == i) ms h (rw t at e) in
      ground (
        arith,
        a.1,
        beq_iff x.repository_id repo_id,
        beq_iff x.branch m.branch,
        old_mailbox-row i repo_id ms hs mine (rw t at e),
      )
]

find-any :
    (x : Text) (bs : List BranchSnapshot) {b : BranchSnapshot}
    → find (λ c. beq c.name x) bs ≡ some b
    → any (λ c. beq c.name x) bs ≡ true
unfolding find any
find-any x [] e = cc
find-any x (c ∷ bs) {b} e = ground (arith, find-any x bs {b = b})

row-rename :
    (p : Mailbox → Bool) (i : ℕ) (ms : List Mailbox) {m : Mailbox}
    → find (λ o. o.id == i) ms ≡ some m
    → p m ≡ true
    → find (λ o. o.id == i) (map (apply_if p (λ r. record r { name = updating_name r.id })) ms)
      ≡ some (record m { name = updating_name m.id })
unfolding find
row-rename p i [] e mine = cc
row-rename p i (x ∷ ms) {m} e mine = elim (Bool-cases (x.id == i)) [
  | inl t ↦ let is : x ≡ m = ground arith in ground (arith, is)
  | inr t ↦ ground (arith, row-rename p i ms (rw t at e) mine)
]

-- What `ReplaceMailboxes` does to a mailbox whose branch it is given, when it commits. If the
-- name, the head and the fast-forward mark allow, the UIDVALIDITY, the messages and their uids
-- stay, and the new commits follow in ascending order from the old next uid. Otherwise the
-- UIDVALIDITY is the next one, and the messages are numbered afresh from 1. The rows of the table
-- are apart in id and branch, the branches have distinct names, and the uids stay below 2 ^ 32.
pub replace_mailboxes-Outcome :
    (clock : Text → Clock) (repo_id default : Text) (bs : List BranchSnapshot) (b : BranchSnapshot)
    (m : Mailbox) (db : Db) {db' : Db}
    → AllApart db.mailboxes
    → DistinctNames bs
    → m.id ≤ db.last_mailbox_id
    → row m.id db ≡ some m
    → m.repository_id ≡ repo_id
    → find (λ c. beq c.name m.branch) bs ≡ some b
    → Fits m b
    → replace_mailboxes clock repo_id default bs db ≡ ok db'
    → Outcome default m b db' db
unfolding replace_mailboxes load_mailbox_state
replace_mailboxes-Outcome clock repo_id default bs b m db {db'} apart distinct le at mine seen fits
      h =
    let p = λ (o : Mailbox). beq o.repository_id repo_id in
    let aside = λ (o : Mailbox). record o { name = updating_name o.id } in
    let existing = load_mailbox_state repo_id db in
    let (db₁, e₁, h₁) = >>=-eq-ok (update_mailboxes p aside db) _ h in
    let (db₂, e₂, h₂) = >>=-eq-ok (sync_branches clock repo_id default existing bs db₁) _ h₁ in
    let owns : Owns m existing =
      All-select _ p db.mailboxes (Owns-row m.id db.mailboxes apart at) in
    let old = old_mailbox-row m.id repo_id db.mailboxes apart mine at in
    let is₁ = update_mailboxes-eq-ok p aside db e₁ in
    let le₁ : m.id ≤ db₁.last_mailbox_id = rw is₁ le in
    let at₁ : row m.id db₁ ≡ some (aside m) =
      rw is₁ (row-rename p m.id db.mailboxes at ((beq_iff m.repository_id repo_id).1 mine)) in
    let synced =
      sync_branches-Outcome clock repo_id default existing m owns bs b db₁ distinct seen old le₁ at₁
        fits e₂ in
    let held₁ : held m.id db₁ ≡ held m.id db = rw is₁ refl in
    let cleaned =
      delete_unseen-Leaves clock repo_id default existing m owns bs existing db₂
        (find-any m.branch bs seen) owns in
    let result : delete_unseen bs existing db₂ ≡ db' = ground arith in
    subst (λ d. Outcome default m b d db) result
      (Outcome-Leaves default m b cleaned (Outcome-before default m b held₁ synced))
