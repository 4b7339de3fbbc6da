-- ===== src/Service/Start/Purged.antt =====
-- internal/service/repository.go: what the two loops of the start leave.
use git2imap.Base.{
  ℕ, suc, ◌+◌, ◌≡◌, refl, ap, ◌∙◌, Bool, true, false, not, ◌&&◌, none, List, [], ◌∷◌, map, Text,
  length, select, arith, AllPairs, beq, subst, if◌then◌else◌, Bool-cases, inl, inr,
}
use git2imap.Store.{Repository, Db}
use git2imap.Store.Repositories.{set_deleting, delete_repository, list_repositories}
use git2imap.Service.Start.{
  Place, is_legacy, is_deleting, remove_files, delete_now, purge, purge_legacy_repositories, ensure,
  ensure_all,
}
use git2imap.Service.Start.Deletions.{
  goes, Without, Without-nil, Without-keep, Without-delete, Without-all,
}

-- Every removal of files succeeds: with a path that is not there it does, too.
module _ (w : Place) (removes : (path : Text) → w.remove_all path ≡ none) where
  delete_now_lem :
      (id : Text) (db : Db)
      → delete_now w id db ≡ (none, delete_repository id (set_deleting w.now id db))
  unfolding delete_now remove_files
  delete_now_lem id db = rw (removes (w.repository_path id), removes (w.messages_path id)) refl

  abbrev legacy : Repository → Bool
  legacy = is_legacy w.unicode

  abbrev deleted_from : Repository → Db → Db
  deleted_from repo db = delete_repository repo.id (set_deleting w.now repo.id db)

  purge-keep :
      (repo : Repository) (repos : List Repository) (deleted : ℕ) (db : Db)
      → legacy repo ≡ false
      → purge w (repo ∷ repos) deleted db ≡ purge w repos deleted db
  unfolding purge
  purge-keep repo repos deleted db e = ground (arith, e)

  purge-delete :
      (repo : Repository) (repos : List Repository) (deleted : ℕ) (db : Db)
      → legacy repo ≡ true
      → purge w (repo ∷ repos) deleted db ≡ purge w repos (suc deleted) (deleted_from repo db)
  unfolding purge
  purge-delete repo repos deleted db e = ground (arith, e, delete_now_lem repo.id db)

  purge-Without :
      (repos : List Repository) (deleted : ℕ) (db : Db)
      → ((purge w repos deleted db).0 ≡ (deleted + length (select legacy repos), none))
        × Without legacy repos (purge w repos deleted db).1 db
  unfolding select
  purge-Without [] deleted db =
      unfold purge in
      (
        ap (λ n. (n, none)) (let e : deleted ≡ deleted + 0 = omega arith in e),
        Without-nil legacy db,
      )
  purge-Without (repo ∷ repos) deleted db = elim (Bool-cases (legacy repo)) [
    | inl e ↦
        let (count, rest) = purge-Without repos (suc deleted) (deleted_from repo db) in
        rw (purge-delete repo repos deleted db e, e)
          (count ∙ ap (λ n. (n, none)) (omega arith), Without-delete legacy w.now repo e rest)
    | inr e ↦
        let (count, rest) = purge-Without repos deleted db in
        rw (purge-keep repo repos deleted db e, e) (count, Without-keep legacy repo e rest)
  ]

  ensure-Without :
      (repos : List Repository) (db : Db)
      → ((ensure w repos db).0
          ≡ map
              (λ r. r.id)
              (select (λ r. not (is_deleting r) && not (w.exists (w.repository_path r.id))) repos))
        × Without is_deleting repos (ensure w repos db).1 db
  unfolding ensure select
  ensure-Without [] db = (refl, Without-nil is_deleting db)
  ensure-Without (repo ∷ repos) db =
      let next = if is_deleting repo then (delete_now w repo.id db).1 else db in
      let (started, rest) = ensure-Without repos next in
      (
        ground (arith, started),
        elim (Bool-cases (is_deleting repo)) [
          | inl e ↦
              let is : next ≡ deleted_from repo db = ground (arith, e, delete_now_lem repo.id db) in
              Without-delete is_deleting w.now repo e
                (subst (Without is_deleting repos (ensure w repos next).1) is rest)
          | inr e ↦
              let is : next ≡ db = ground (arith, e) in
              Without-keep is_deleting repo e
                (subst (Without is_deleting repos (ensure w repos next).1) is rest)
        ],
      )

  -- At the start, PurgeLegacyRepositories deletes exactly the accounts of the old format and returns
  -- their number: the other repositories and their mailboxes stay as they are. Ids are unique, and
  -- every removal of files succeeds.
  pub purge_legacy_repositories_lem :
      (db : Db)
      → AllPairs (λ a b. beq b.id a.id ≡ false) db.repositories
      → ((purge_legacy_repositories w db).0 ≡ (length (select legacy (list_repositories db)), none))
        × ((purge_legacy_repositories w db).1.repositories
            ≡ select (λ r. not (legacy r)) db.repositories)
        × ((purge_legacy_repositories w db).1.mailboxes
            ≡ select (λ m. not (goes legacy db.repositories m.repository_id)) db.mailboxes)
  unfolding purge_legacy_repositories
  purge_legacy_repositories_lem db apart =
      let (count, rest) = purge-Without (list_repositories db) 0 db in
      let (repositories, mailboxes) = Without-all legacy apart rest in
      (count ∙ ap (λ n. (n, none)) (omega arith), repositories, mailboxes)

  -- EnsureAll then finishes the deletions that were begun and starts a refresh for each repository
  -- that stays and has no mirror, and for no other.
  pub ensure_all_lem :
      (db : Db)
      → AllPairs (λ a b. beq b.id a.id ≡ false) db.repositories
      → ((ensure_all w db).0
          ≡ map
              (λ r. r.id)
              (select
                (λ r. not (is_deleting r) && not (w.exists (w.repository_path r.id)))
                (list_repositories db)))
        × ((ensure_all w db).1.repositories ≡ select (λ r. not (is_deleting r)) db.repositories)
        × ((ensure_all w db).1.mailboxes
            ≡ select (λ m. not (goes is_deleting db.repositories m.repository_id)) db.mailboxes)
  unfolding ensure_all
  ensure_all_lem db apart =
      let (started, rest) = ensure-Without (list_repositories db) db in
      let (repositories, mailboxes) = Without-all is_deleting apart rest in
      (started, repositories, mailboxes)
