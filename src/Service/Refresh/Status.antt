-- ===== src/Service/Refresh/Status.antt =====
-- internal/service/repository.go: the writes of the status in `refresh`, which leave all mail alone.
use git2imap.Base.{
  subst, ℕ, ◌≡◌, refl, ap, ◌∙◌, Bool, true, false, some, List, [], ◌∷◌, map, Text, codes, beq, any,
  find, arith, if◌then◌else◌, Bool-cases, inl, inr,
}
use git2imap.Store.{Repository, Db, ok, err, no_rows}
use git2imap.Store.Repositories.{repository, update_repository, update_repository_status}
use git2imap.Service.Refresh.{World, at_mark, ignoring, mark}

-- The mailboxes and messages of two databases are the same.
pub record SameMail (after before : Db) : Type 0 where
  pub mailboxes : after.mailboxes ≡ before.mailboxes
  pub messages : after.messages ≡ before.messages
  pub last_mailbox_id : after.last_mailbox_id ≡ before.last_mailbox_id

pub SameMail-refl : (db : Db) → SameMail db db
SameMail-refl db = record { mailboxes = refl; messages = refl; last_mailbox_id = refl }

pub SameMail-trans : {a b c : Db} → SameMail c b → SameMail b a → SameMail c a
SameMail-trans h k = record {
  mailboxes = h.mailboxes ∙ k.mailboxes;
  messages = h.messages ∙ k.messages;
  last_mailbox_id = h.last_mailbox_id ∙ k.last_mailbox_id;
}

-- There is a row with this id.
abbrev pub Known : Text → Db → Type 0
Known id db = any (λ r. beq r.id id) db.repositories ≡ true

find-Known :
    (id : Text) (rows : List Repository) {repo : Repository}
    → find (λ r. beq r.id id) rows ≡ some repo
    → any (λ r. beq r.id id) rows ≡ true
unfolding find any
find-Known id [] h = ground arith
find-Known id (r ∷ rows) {repo} h = ground (arith, find-Known id rows {repo = repo})

pub repository-Known :
    (id : Text) (db : Db) {repo : Repository} → repository id db ≡ ok repo → Known id db
unfolding repository
repository-Known id db {repo} h = find-Known id db.repositories {repo = repo} (ground arith)

any-update :
    (id : Text) (f : Repository → Repository) (rows : List Repository)
    → ((r : Repository) → (f r).id ≡ r.id)
    → any (λ r. beq r.id id) (map (λ r. if beq r.id id then f r else r) rows)
      ≡ any (λ r. beq r.id id) rows
unfolding any
any-update id f [] h = refl
any-update id f (r ∷ rows) h = elim (Bool-cases (beq r.id id)) [
  | inl t ↦ rw (t, h r, t)
  | inr t ↦ rw (t, t, any-update id f rows h)
]

pub update_repository_status-SameMail :
    (now : ℕ) (id status message default fingerprint : Text) (fetched : Bool) (db : Db)
    → SameMail
        (ignoring
          (update_repository_status now id status message default fingerprint fetched db)
          db)
        db
unfolding update_repository_status update_repository
update_repository_status-SameMail now id status message default fingerprint fetched db =
    elim (Bool-cases (any (λ r. beq r.id id) db.repositories)) [
      | inl t ↦ rw t (record { mailboxes = refl; messages = refl; last_mailbox_id = refl })
      | inr t ↦ rw t (SameMail-refl db)
    ]

update_repository_status-Known :
    (now : ℕ) (id status message default fingerprint : Text) (fetched : Bool) (db : Db)
    → Known id db
    → Known id (
        ignoring (update_repository_status now id status message default fingerprint fetched db) db)
unfolding update_repository_status update_repository
update_repository_status-Known now id status message default fingerprint fetched db h =
    rw h (any-update id _ db.repositories (λ r. refl) ∙ h)

if-ok : (b : Bool) (x : Db) → b ≡ true → (y : Db) × ((if b then ok x else err no_rows) ≡ ok y)
if-ok true x h = (x, refl)
if-ok false x h = cc

pub update_repository_status-ok :
    (now : ℕ) (id status message default fingerprint : Text) (fetched : Bool) (db : Db)
    → Known id db
    → (db' : Db) × (update_repository_status now id status message default fingerprint fetched db
        ≡ ok db')
unfolding update_repository_status
update_repository_status-ok now id status message default fingerprint fetched db h =
    if-ok (any (λ r. beq r.id id) db.repositories) _ h

pub if-elim {ℓ κ} :
    {A : Type ℓ} (P : A → Type κ) (b : Bool) {x y : A} → P x → P y → P (if b then x else y)
if-elim P true px py = px
if-elim P false px py = py

module _ (w : World) (id : Text) where
  pub mark-SameMail : (repo : Repository) (db : Db) → SameMail (mark w id repo db) db
  unfolding mark
  mark-SameMail repo db =
      if-elim (λ d. SameMail d db) (w.ended at_mark) (SameMail-refl db)
        (update_repository_status-SameMail w.marked_at id _ [] repo.default_branch
          repo.ssh_host_fingerprint false db)

  pub mark-Known : (repo : Repository) (db : Db) → Known id db → Known id (mark w id repo db)
  unfolding mark
  mark-Known repo db h = if-elim (Known id) (w.ended at_mark) h (
      update_repository_status-Known w.marked_at id _ [] repo.default_branch
        repo.ssh_host_fingerprint false db h)

pub ready-SameMail :
    (now : ℕ) (id default fingerprint : Text) (db : Db) {db' : Db}
    → update_repository_status now id (codes "ready") [] default fingerprint true db ≡ ok db'
    → SameMail db' db
ready-SameMail now id default fingerprint db h =
    subst (λ d. SameMail d db) (ap (λ r. ignoring r db) h)
      (update_repository_status-SameMail now id (codes "ready") [] default fingerprint true db)
