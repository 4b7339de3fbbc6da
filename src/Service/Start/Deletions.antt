-- ===== src/Service/Start/Deletions.antt =====
-- internal/service/repository.go: what the deletion of several repositories leaves.
use git2imap.Base.{
  codes, ℕ, ◌≡◌, refl, sym, ap, ◌∙◌, Bool, true, false, not, ◌&&◌, ◌||◌, List, [], ◌∷◌, map, Text,
  beq, beq_iff, beq_refl, any, any-none, select, sort_by, insert_by, arith, All, All-implies,
  All-both, AllPairs, if◌then◌else◌,
}
use git2imap.Store.{Repository, Db}
use git2imap.Store.Repositories.{
  update_repository, set_deleting, delete_repository, list_repositories,
}

module _ {ℓ} {A : Type ℓ} (p q : A → Bool) where
  -- Two selections, one after the other.
  select_twice : (xs : List A) → select p (select q xs) ≡ select (λ x. q x && p x) xs
  unfolding select
  select_twice [] = refl
  select_twice (x ∷ xs) = ground (arith, select_twice xs)

  select_same : (xs : List A) → All (λ x. p x ≡ q x) xs → select p xs ≡ select q xs
  unfolding select
  select_same [] h = refl
  select_same (x ∷ xs) (h, hs) = rw (h, select_same xs hs) refl

  select_ext : (xs : List A) → ((x : A) → p x ≡ q x) → select p xs ≡ select q xs
  select_ext xs h = ap (λ (f : A → Bool). select f xs) (λ i x. h x i)

select_all {ℓ} :
    {A : Type ℓ} (p : A → Bool) (xs : List A) → ((x : A) → p x ≡ true) → select p xs ≡ xs
unfolding select
select_all p [] h = refl
select_all p (x ∷ xs) h = rw (h x, select_all p xs h) refl

beq_sym : (s t : Text) → beq s t ≡ beq t s
beq_sym s t = ground (arith, beq_iff s t, beq_iff t s)

module _ {ℓ} {A : Type ℓ} (le : A → A → Bool) (p : A → Bool) where
  any-insert_by : (x : A) (ys : List A) → any p (insert_by le x ys) ≡ (p x || any p ys)
  unfolding any insert_by
  any-insert_by x [] = refl
  any-insert_by x (y ∷ ys) = ground (arith, any-insert_by x ys)

  any-sort_by : (xs : List A) → any p (sort_by le xs) ≡ any p xs
  unfolding any sort_by
  any-sort_by [] = refl
  any-sort_by (x ∷ xs) = any-insert_by x (sort_by le xs) ∙ ap (λ b. p x || b) (any-sort_by xs)

module _ (gone : Repository → Bool) where
  -- A repository of the list goes with this id.
  abbrev pub goes : List Repository → Text → Bool
  goes repos id = any (λ l. gone l && beq l.id id) repos

  -- The rows of the repositories and of their mailboxes without those that go.
  pub record Without (repos : List Repository) (after before : Db) : Type 0 where
    pub repositories : after.repositories ≡ select (λ r. not (goes repos r.id)) before.repositories
    pub mailboxes :
        after.mailboxes ≡ select (λ m. not (goes repos m.repository_id)) before.mailboxes

  deleted_repositories :
      (now : ℕ) (id : Text) (rs : List Repository)
      → select
          (λ r. not (beq r.id id))
          (map
            (λ (r : Repository).
              if beq r.id id then record r { status = codes "deleting"; updated_at = now } else r)
            rs)
        ≡ select (λ r. not (beq r.id id)) rs
  unfolding select
  deleted_repositories now id [] = refl
  deleted_repositories now id (r ∷ rs) = ground (arith, deleted_repositories now id rs)

  pub Without-nil : (db : Db) → Without [] db db
  unfolding any
  Without-nil db = record {
    repositories = sym (select_all (λ r. true) db.repositories (λ r. refl));
    mailboxes = sym (select_all (λ m. true) db.mailboxes (λ m. refl));
  }

  pub Without-keep :
      (repo : Repository) {repos : List Repository} {after before : Db}
      → gone repo ≡ false
      → Without repos after before
      → Without (repo ∷ repos) after before
  unfolding any
  Without-keep repo e h = record {
    repositories = rw e h.repositories;
    mailboxes = rw e h.mailboxes;
  }

  pub Without-delete :
      (now : ℕ) (repo : Repository) {repos : List Repository} {after before : Db}
      → gone repo ≡ true
      → Without repos after (delete_repository repo.id (set_deleting now repo.id before))
      → Without (repo ∷ repos) after before
  unfolding any set_deleting delete_repository update_repository
  Without-delete now repo {repos} {after} {before} e h = record {
    repositories =
        h.repositories
        ∙ ap (select (λ r. not (goes repos r.id)))
            (deleted_repositories now repo.id before.repositories)
        ∙ select_twice _ _ before.repositories
        ∙ select_ext _ _ before.repositories (λ r. both r.id);
    mailboxes =
        h.mailboxes
        ∙ select_twice _ _ before.mailboxes
        ∙ select_ext _ _ before.mailboxes (λ m. both m.repository_id);
  }
    where
      de_morgan : (a b : Bool) → (not a && not b) ≡ not (a || b)
      de_morgan a b = ground arith

      both :
          (id : Text)
          → (not (beq id repo.id) && not (goes repos id))
            ≡ not ((gone repo && beq repo.id id) || goes repos id)
      both id = rw (e, beq_sym id repo.id) (de_morgan (beq repo.id id) (goes repos id))

  -- Of repositories with distinct ids those go that are to go.
  goes_own :
      (rs : List Repository)
      → AllPairs (λ a b. beq b.id a.id ≡ false) rs
      → All (λ r. not (goes rs r.id) ≡ not (gone r)) rs
  unfolding any
  goes_own [] h = tt
  goes_own (x ∷ rs) (h, hs) = (
    ap not (
        rw
          (
            any-none (λ l. gone l && beq l.id x.id) rs
                (All-implies _ _ rs h (λ l k. rw k (&&-false (gone l)))),
            beq_refl x.id,
          )
          (true_only (gone x))),
    All-implies _ _ rs (All-both _ _ rs h (goes_own rs hs))
        (λ r k. rw (beq_sym x.id r.id, k.0, &&-false (gone x)) k.1),
  )
    where
      &&-false : (b : Bool) → (b && false) ≡ false
      &&-false b = ground arith

      true_only : (b : Bool) → ((b && true) || false) ≡ b
      true_only b = ground arith

  -- All repositories that are to go are gone, and the others with their mailboxes are as they were.
  pub Without-all :
      {after before : Db}
      → AllPairs (λ a b. beq b.id a.id ≡ false) before.repositories
      → Without (list_repositories before) after before
      → (after.repositories ≡ select (λ r. not (gone r)) before.repositories)
        × (after.mailboxes
            ≡ select (λ m. not (goes before.repositories m.repository_id)) before.mailboxes)
  unfolding list_repositories
  Without-all {after} {before} apart h = (
    h.repositories
        ∙ select_same _ _ before.repositories (
            All-implies _ _ before.repositories (goes_own before.repositories apart) (λ r k.
              ap not (any-sort_by _ (λ l. gone l && beq l.id r.id) before.repositories) ∙ k)),
    h.mailboxes
        ∙ select_ext _ _ before.mailboxes (λ m.
          ap not (any-sort_by _ (λ l. gone l && beq l.id m.repository_id) before.repositories)),
  )
