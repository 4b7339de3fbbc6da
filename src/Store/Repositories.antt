-- ===== src/Store/Repositories.antt =====
-- internal/store/store.go: the statements on the table `repositories`.
use git2imap.Base.{
  ℕ, Bool, not, ◌&&◌, ◌||◌, Option, none, some, List, [], ◌∷◌, ◌++◌, map, Text, codes, beq, select,
  any, find, sort_by, text_le, if◌then◌else◌, ◌==◌,
}
use git2imap.Store.{Repository, Mailbox, Db, Result, ok, err, constraint, no_rows}

-- The uniqueness of `id`, `name` and `mail_username`.
unfoldable pub repository_conflict : Repository → Repository → Bool
repository_conflict a b = beq a.id b.id || beq a.name b.name || beq a.mail_username b.mail_username

-- CreateRepository. The statement writes NULL for `last_fetch_at`.
unfoldable pub create_repository : Repository → Db → Result Db
unfolding repository_conflict any
create_repository repo db =
    if any (repository_conflict repo) db.repositories
    then err constraint
    else ok (record db {
      repositories = db.repositories ++ (record repo { last_fetch_at = none }) ∷ [];
    })

-- ListRepositories: ORDER BY name.
unfoldable pub list_repositories : Db → List Repository
unfolding sort_by text_le
list_repositories db = sort_by (λ a b. text_le a.name b.name) db.repositories

abbrev pub found {ℓ} : {A : Type ℓ} → Option A → Result A
found none = err no_rows
found (some r) = ok r

-- Repository
unfoldable pub repository : Text → Db → Result Repository
unfolding find
repository id db = found (find (λ r. beq r.id id) db.repositories)

-- RepositoryByUsername
unfoldable pub repository_by_username : Text → Db → Result Repository
unfolding find
repository_by_username username db = found (
    find (λ r. beq r.mail_username username && not (beq r.status (codes "deleting")))
      db.repositories)

-- UPDATE repositories SET … WHERE id=?
unfoldable pub update_repository : Text → (Repository → Repository) → Db → Db
update_repository id f db = record db {
  repositories = map (λ r. if beq r.id id then f r else r) db.repositories;
}

-- UpdateRepositoryStatus: no row with this id is an error.
unfoldable pub update_repository_status :
    ℕ → Text → Text → Text → Text → Text → Bool → Db → Result Db
unfolding update_repository any
update_repository_status now id status message default_branch fingerprint fetched db =
    if any (λ r. beq r.id id) db.repositories
    then ok (
        update_repository id
          (λ r. record r {
            status = status;
            status_message = message;
            default_branch = default_branch;
            ssh_host_fingerprint = fingerprint;
            updated_at = now;
            last_fetch_at = if fetched then some now else r.last_fetch_at;
          })
          db)
    else err no_rows

-- UpdateMailCredential: no row with this id is no error.
unfoldable pub update_mail_credential : ℕ → Text → Text → Text → Db → Db
unfolding update_repository
update_mail_credential now id hash cipher =
    update_repository id
      (λ r. record r { mail_password_hash = hash; mail_password_cipher = cipher; updated_at = now })

-- SetDeleting
unfoldable pub set_deleting : ℕ → Text → Db → Db
unfolding update_repository
set_deleting now id =
    update_repository id (λ r. record r { status = codes "deleting"; updated_at = now })

-- The mailbox of a message belongs to the repository.
unfoldable pub mailbox_of : Text → List Mailbox → ℕ → Bool
unfolding any
mailbox_of id mailboxes i = any (λ m. m.id == i && beq m.repository_id id) mailboxes

-- DeleteRepository, with both ON DELETE CASCADE clauses of the schema.
unfoldable pub delete_repository : Text → Db → Db
unfolding select mailbox_of
delete_repository id db = record db {
  repositories = select (λ r. not (beq r.id id)) db.repositories;
  mailboxes = select (λ m. not (beq m.repository_id id)) db.mailboxes;
  messages = select (λ m. not (mailbox_of id db.mailboxes m.mailbox_id)) db.messages;
}
