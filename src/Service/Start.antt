-- ===== src/Service/Start.antt =====
-- internal/service/repository.go: what the program does to the repositories when it starts:
-- `PurgeLegacyRepositories` and `EnsureAll`, with `DeleteRepository` while no refresh runs. The
-- store answers; its errors and those of a context are not among the answers.
pub mod Deletions
pub mod Purged
pub mod Tests
use git2imap.Base.{
  ℕ, suc, Bool, true, false, not, ◌&&◌, Option, none, some, List, [], ◌∷◌, Text, codes, beq, has,
  has_prefix, to_lower, if◌then◌else◌,
}
use git2imap.Store.{Repository, Db}
use git2imap.Store.Repositories.{list_repositories, set_deleting, delete_repository}

-- What the start reads of the world: the clock, the case mapping, the paths of a mirror and of the
-- messages in the cache, the error of os.RemoveAll, and whether a path exists.
pub record Place : Type 0 where
  pub now : ℕ
  pub unicode : ℕ → ℕ
  pub repository_path : Text → Text
  pub messages_path : Text → Text
  pub remove_all : Text → Option Text
  pub exists : Text → Bool

-- An account from before the mail addresses.
unfoldable pub is_legacy : (ℕ → ℕ) → Repository → Bool
unfolding has_prefix to_lower has
is_legacy unicode repo = not (
    has_prefix (to_lower unicode repo.mail_username) (codes "git2imap+")
    && has b'@' repo.mail_username)

abbrev pub is_deleting : Repository → Bool
is_deleting repo = beq repo.status (codes "deleting")

module _ (w : Place) where
  -- DeleteRepository with no call on the map, from its two removals of files on.
  unfoldable pub remove_files : Text → Option Text → Option Text → Db → Option Text × Db
  unfolding delete_repository
  remove_files id (some e) messages db = (some e, db)
  remove_files id none (some e) db = (some e, db)
  remove_files id none none db = (none, delete_repository id db)

  unfoldable pub delete_now : Text → Db → Option Text × Db
  unfolding set_deleting remove_files
  delete_now id db =
      remove_files id (w.remove_all (w.repository_path id)) (w.remove_all (w.messages_path id))
        (set_deleting w.now id db)

  -- The loop of PurgeLegacyRepositories.
  unfoldable pub purge : List Repository → ℕ → Db → (ℕ × Option Text) × Db
  unfolding is_legacy delete_now
  purge [] deleted db = ((deleted, none), db)
  purge (repo ∷ repos) deleted db = elim (is_legacy w.unicode repo) [
    | false ↦ purge repos deleted db
    | true ↦
        let (problem, db') = delete_now repo.id db in
        elim problem [ some e ↦ ((deleted, some e), db') | none ↦ purge repos (suc deleted) db' ]
  ]

  -- PurgeLegacyRepositories: how many repositories it has deleted, and its error.
  unfoldable pub purge_legacy_repositories : Db → (ℕ × Option Text) × Db
  unfolding purge list_repositories
  purge_legacy_repositories db = purge (list_repositories db) 0 db

  -- The loop of EnsureAll: the repositories for which it starts a refresh.
  unfoldable pub ensure : List Repository → Db → List Text × Db
  unfolding delete_now
  ensure [] db = ([], db)
  ensure (repo ∷ repos) db =
      let (started, db') =
        ensure repos (if is_deleting repo then (delete_now repo.id db).1 else db) in
      (
        if not (is_deleting repo) && not (w.exists (w.repository_path repo.id))
            then repo.id ∷ started
            else started,
        db',
      )

  -- EnsureAll
  unfoldable pub ensure_all : Db → List Text × Db
  unfolding ensure list_repositories
  ensure_all db = ensure (list_repositories db) db
