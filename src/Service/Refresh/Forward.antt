-- ===== src/Service/Refresh/Forward.antt =====
-- internal/service/repository.go and internal/store/store.go together: what a whole refresh does to
-- a mailbox whose branch moved forward.
use git2imap.Base.{
  codes, if◌then◌else◌, suc, ◌+◌, ◌^◌, ◌<◌, ◌≤◌, ◌≡◌, ◌≢◌, refl, sym, ap, subst, ◌∙◌, Bool, true,
  false, not, ◌||◌, none, some, List, [], ◌∷◌, ◌++◌, map, Text, beq, beq_iff, beq_refl, any, find,
  select, sort_by, find-sort_by, All, arith, Bool-cases, inl, inr, length, ◌==◌,
}
use git2imap.Store.{Repository, Mailbox, BranchSnapshot, Db, ok}
use git2imap.Store.Repositories.{repository}
use git2imap.Store.Mailboxes.{in_mailbox, mailboxes, mailbox_le}
use git2imap.Store.Replace.{old_mailbox, mailbox_name, needs_rebuild}
use git2imap.Store.Replace.Rows.{row}
use git2imap.Store.Replace.Branch.{Kept}
use git2imap.Store.Replace.Outcome.{Outcome}
use git2imap.Store.Replace.Contract.{
  AllApart, Apart, All-find, old_mailbox-row, replace_mailboxes-Outcome,
}
use git2imap.Git.{Auth, Branch, Commit, got}
use git2imap.Service.Refresh.{
  revision, new_commits, snapshots, World, commit_snapshot, mapping_changed, mark, refresh,
}
use git2imap.Service.Refresh.Snapshots.{
  got-eq, DistinctBranches, Describes, snapshots-DistinctNames, snapshots-find,
}
use git2imap.Service.Refresh.Status.{SameMail, ready-SameMail, mark-SameMail}
use git2imap.Service.Refresh.Outcome.{Refreshed, refresh-Refreshed}

All-if {ℓ κ} :
    {A : Type ℓ} (P : A → Type κ) (b : Bool) (x : A) (xs : List A)
    → (b ≡ true → P x)
    → All P xs
    → All P (if b then x ∷ xs else xs)
All-if P true x xs h hs = (h refl, hs)
All-if P false x xs h hs = hs

-- Behind the row of `m` no other row of the repository has its branch.
none_behind :
    (id : Text) (m : Mailbox) (rows : List Mailbox)
    → All (Apart m) rows
    → m.repository_id ≡ id
    → All (λ o. beq o.branch m.branch ≡ true → o ≡ m) (select (λ o. beq o.repository_id id) rows)
unfolding select
none_behind id m [] apart mine = tt
none_behind id m (x ∷ rows) (h, hs) mine =
    All-if _ (beq x.repository_id id) x _
      (λ t e. absurd (
        h.1 (mine ∙ sym ((beq_iff x.repository_id id).0 t))
          (sym ((beq_iff x.branch m.branch).0 e))))
      (none_behind id m rows hs mine)

-- Of the rows of one repository, only `m` has its branch.
only_row :
    (id : Text) (m : Mailbox) (rows : List Mailbox)
    → AllApart rows
    → m.repository_id ≡ id
    → find (λ o. o.id == m.id) rows ≡ some m
    → All (λ o. beq o.branch m.branch ≡ true → o ≡ m) (select (λ o. beq o.repository_id id) rows)
unfolding find select
only_row id m [] apart mine at = tt
only_row id m (x ∷ rows) (h, hs) mine at = elim (Bool-cases (x.id == m.id)) [
  | inl t ↦
      let same : x ≡ m = ground arith in
      let behind = none_behind id m rows (subst (λ o. All (Apart o) rows) same h) mine in
      All-if _ (beq x.repository_id id) x _ (λ _ _. same) behind
  | inr t ↦
      let (apart_x, e) = All-find (Apart x) (λ o. o.id == m.id) rows h (rw t at at) in
      All-if _ (beq x.repository_id id) x _
        (λ b f. absurd (
          apart_x.1 ((beq_iff x.repository_id id).0 b ∙ sym mine)
            ((beq_iff x.branch m.branch).0 f)))
        (only_row id m rows hs mine (rw t at at))
]

find-any {ℓ} :
    {A : Type ℓ} (p : A → Bool) (xs : List A) {x : A} → find p xs ≡ some x → any p xs ≡ true
unfolding find any
find-any p [] h = cc
find-any p (y ∷ ys) {x} h = ground (arith, find-any p ys {x = x})

-- The map `oldByBranch` of the refresh holds the row of the mailbox.
old_mailbox-mailboxes :
    (id : Text) (m : Mailbox) (db : Db)
    → AllApart db.mailboxes
    → m.repository_id ≡ id
    → row m.id db ≡ some m
    → old_mailbox m.branch (mailboxes id db) ≡ some m
unfolding old_mailbox mailboxes
old_mailbox-mailboxes id m db apart mine at =
    let rows = select (λ o. beq o.repository_id id) db.mailboxes in
    let p = λ (o : Mailbox). beq o.branch m.branch in
    find-sort_by mailbox_le p m rows (only_row id m db.mailboxes apart mine at) (
      find-any p rows {x = m}
        (unfold old_mailbox in old_mailbox-row m.id id db.mailboxes apart mine at))

-- No mapping changes while the default branch stays.
unmoved : (w : World) (old branch : Text) → not (mapping_changed w old old branch) ≡ true
unmoved w old branch = ground (arith, beq_refl old)

pub Kept-SameMail :
    (m : Mailbox) (s : BranchSnapshot) {after mid marked before : Db}
    → SameMail after mid
    → SameMail marked before
    → Kept m s mid marked
    → Kept m s after before
Kept-SameMail m s h k kept = record {
  at = ap (find (λ o. o.id == m.id)) h.mailboxes ∙ kept.at;
  new = kept.new;
  appended =
      ap (select (in_mailbox m.id)) h.messages
      ∙ kept.appended
      ∙ ap (λ ms. select (in_mailbox m.id) ms ++ kept.new) k.messages;
  within = kept.within;
  ascending = kept.ascending;
}

mailboxes-rows :
    (id : Text) (a b : Db) → a.mailboxes ≡ b.mailboxes → mailboxes id a ≡ mailboxes id b
unfolding mailboxes
mailboxes-rows id a b h = ap (λ ms. sort_by mailbox_le (select (λ m. beq m.repository_id id) ms)) h

length-map {ℓ κ} :
    {A : Type ℓ} {B : Type κ} (f : A → B) (xs : List A) → length (map f xs) ≡ length xs
length-map f [] = refl
length-map f (x ∷ xs) = ap suc (length-map f xs)

find-name :
    (x : Text) (bs : List Branch) {b : Branch} → find (λ c. beq c.name x) bs ≡ some b → b.name ≡ x
unfolding find
find-name x [] h = cc
find-name x (c ∷ bs) {b} h = ground (arith, beq_iff c.name x, find-name x bs {b = b})

module _ (w : World) (id : Text) (repo : Repository) (m : Mailbox) (b : Branch) (bs : List Branch)
    (db : Db) {db' : Db} (apart : AllApart db.mailboxes) (le : m.id ≤ db.last_mailbox_id)
    (at : row m.id db ≡ some m) (mine : m.repository_id ≡ id) (there : repository id db ≡ ok repo)
    (answer : w.git.branches (w.repository_path id) ≡ got bs) (distinct : DistinctBranches bs)
    (seen : find (λ c. beq c.name m.branch) bs ≡ some b)
    (fits : (revision : Text) (cs : List Commit)
      → new_commits w (w.repository_path id) revision ≡ got cs
      → suc m.next_uid + length cs < 2 ^ 32) where
  abbrev Takes : Refreshed w id db' (mark w id repo db) repo → List Branch → Type 0
  Takes done branches =
      snapshots w (w.repository_path id) repo.default_branch done.default
        (mailboxes id (mark w id repo db)) branches
      ≡ got done.taken

  -- The snapshot of the branch, and what `ReplaceMailboxes` did with it.
  pub refresh-Outcome :
      (done : Refreshed w id db' (mark w id repo db) repo)
      → (s : BranchSnapshot) × Describes w
          (w.repository_path id)
          repo.default_branch
          done.default
          (mailboxes id db)
          s
          b
        × Outcome done.default m s done.mid (mark w id repo db)
  refresh-Outcome done =
      let marked = mark-SameMail w id repo db in
      let apart' : AllApart (mark w id repo db).mailboxes =
        subst AllApart (sym marked.mailboxes) apart in
      let at' = ap (find (λ o. o.id == m.id)) marked.mailboxes ∙ at in
      let le' : m.id ≤ (mark w id repo db).last_mailbox_id = rw marked.last_mailbox_id le in
      let named = got-eq (sym done.branches_are ∙ answer) in
      let taken = subst (Takes done) named done.taken_are in
      let (s, found, d) =
        snapshots-find w (w.repository_path id) repo.default_branch done.default
          (mailboxes id (mark w id repo db)) m.branch bs taken seen in
      let room : suc m.next_uid + length s.new_commits < 2 ^ 32 =
        rw (ap length d.new_commits ∙ length-map commit_snapshot d.commits)
          (fits _ d.commits d.commits_are) in
      (
        s,
        subst (λ ms. Describes w (w.repository_path id) repo.default_branch done.default ms s b)
            (mailboxes-rows id (mark w id repo db) db marked.mailboxes) d,
        replace_mailboxes-Outcome w.clock id done.default done.taken s m (mark w id repo db) apart'
            (snapshots-DistinctNames w (w.repository_path id) repo.default_branch done.default
              (mailboxes id (mark w id repo db)) bs taken distinct)
            le' at' mine found (omega (arith, room), omega (arith, room)) done.replaced_is,
      )

  module _ (done : Refreshed w id db' (mark w id repo db) repo) (s : BranchSnapshot)
      (d : Describes w
        (w.repository_path id)
        repo.default_branch
        done.default
        (mailboxes id db)
        s
        b)
      (default : done.default ≡ repo.default_branch)
      (forward : (beq m.head_oid b.oid || w.git.is_ancestor (w.repository_path id) m.head_oid b.oid)
        ≡ true) where
    old : old_mailbox b.name (mailboxes id db) ≡ some m
    old = rw (find-name m.branch bs {b = b} seen) (old_mailbox-mailboxes id m db apart mine at)

    fast : s.fast_forward ≡ true
    fast = d.fast_forward ∙ rw (old, default, forward) (unmoved w repo.default_branch b.name)

    keeps :
        m.name ≡ mailbox_name repo.default_branch m.branch
        → m.head_oid ≢ []
        → needs_rebuild (mailbox_name done.default s.name) s m ≡ false
    unfolding needs_rebuild
    keeps named headed =
        let name : s.name ≡ m.branch = d.name ∙ find-name m.branch bs {b = b} seen in
        rw (default, name, ← named, beq_refl m.name, fast)
          (ground (arith, headed, beq_iff m.head_oid []))

    range : new_commits w (w.repository_path id) (revision w true (some m) b) ≡ got d.commits
    range =
        ap (λ o. new_commits w (w.repository_path id) (revision w true o b)) (sym old)
        ∙ ap
            (λ f.
              new_commits w (w.repository_path id)
                (revision w f (old_mailbox b.name (mailboxes id db)) b))
            (sym fast)
        ∙ d.commits_are

  -- A refresh that succeeds while the remote keeps its default branch, at a mailbox with a head,
  -- which is that of its branch or an ancestor of it, and with the name that its branch has under
  -- the default branch of the row. The UIDVALIDITY and all messages stay, and new ones
  -- come only behind them, with ascending uids. The row has the new head, and its next uid grows by
  -- the number of commits that git lists from the old head to the new one, or stays if they are the
  -- same. The rows of the table are apart in id and branch, the branches of the mirror have distinct
  -- names, and the uids have room in 32 bits.
  pub refresh-Kept :
      ((auth : Auth)
        → w.git.default_branch repo.remote_url (w.repository_path id) repo.auth_type auth
          ≡ got repo.default_branch)
      → m.name ≡ mailbox_name repo.default_branch m.branch
      → m.head_oid ≢ []
      → (beq m.head_oid b.oid || w.git.is_ancestor (w.repository_path id) m.head_oid b.oid) ≡ true
      → refresh w id db ≡ (none, db')
      → (s : BranchSnapshot) × (commits : List Commit) × (s.head_oid ≡ b.oid)
        × (new_commits w
              (w.repository_path id)
              (if beq m.head_oid b.oid then [] else m.head_oid ++ codes ".." ++ b.oid)
            ≡ got commits)
        × (s.new_commits ≡ map commit_snapshot commits)
        × Kept m s db' db
  refresh-Kept stays named headed forward is =
      let done = refresh-Refreshed w id repo db there is in
      let (s, d, outcome) = refresh-Outcome done in
      let default : done.default ≡ repo.default_branch =
        got-eq (sym done.default_is ∙ stays done.auth) in
      let keeps : needs_rebuild (mailbox_name done.default s.name) s m ≡ false =
        keeps done s d default forward named headed in
      (
        s,
        d.commits,
        d.head_oid,
        range done s d default forward,
        d.new_commits,
        Kept-SameMail m s
            (ready-SameMail w.ready_at id done.default done.fingerprint done.mid done.after_is)
            (mark-SameMail w id repo db) (outcome.kept keeps),
      )
