-- ===== src/Service/Add/Login.antt =====
-- internal/service/repository.go: what `AddRepository` promises to the owner of the password.
use git2imap.Base.{
  ◌≡◌, refl, sym, ap, ◌∙◌, Bool, true, false, not, ◌&&◌, Option, none, some, List, [], ◌∷◌, ◌++◌,
  Text, codes, beq, beq_iff, beq_refl, ne_of_beq, any, find, arith, Bool-cases, inl, inr,
  ||-eq-false,
}
use git2imap.Store.{Repository, Db, Result, ok, err}
use git2imap.Store.Repositories.{
  found, repository, repository_by_username, repository_conflict, create_repository,
}
use git2imap.Service.{Secrets}
use git2imap.Service.Credential.{checked, revealed, authenticate, reveal_mail_credential}
use git2imap.Web.Actions.{AddRepositoryInput}
use git2imap.Service.Add.{
  AddError, Added, refused, added, Setting, auth_of, checked_auth, new_row, stored, with_secrets,
  with_password, with_auth, with_names, add_repository,
}

-- The row that a user name logs in to.
abbrev logs_in : Text → Repository → Bool
logs_in username r = beq r.mail_username username && not (beq r.status (codes "deleting"))

find-behind :
    (p : Repository → Bool) (rows : List Repository) (r : Repository)
    → any p rows ≡ false
    → p r ≡ true
    → find p (rows ++ r ∷ []) ≡ some r
unfolding find any
find-behind p [] r h k = rw k refl
find-behind p (x ∷ rows) r h k =
    let (a, b) = ||-eq-false (p x) (any p rows) h in rw (a, find-behind p rows r b k) refl

beq_sym : (s t : Text) → beq s t ≡ beq t s
beq_sym s t = elim (Bool-cases (beq s t)) [
  | inl e ↦ e ∙ sym ((beq_iff t s).1 (sym ((beq_iff s t).0 e)))
  | inr e ↦ elim (Bool-cases (beq t s)) [
    | inl f ↦ absurd (ne_of_beq s t e (sym ((beq_iff t s).0 f)))
    | inr f ↦ e ∙ sym f
  ]
]

-- No row has the id, and none the user name, of a row that is in conflict with none.
apart :
    (r : Repository) (rows : List Repository)
    → any (repository_conflict r) rows ≡ false
    → (any (λ o. beq o.id r.id) rows ≡ false) × (any (logs_in r.mail_username) rows ≡ false)
unfolding any repository_conflict
apart r [] h = (refl, refl)
apart r (o ∷ rows) h =
    let (a, b) = ||-eq-false (repository_conflict r o) (any (repository_conflict r) rows) h in
    let (x, y) = apart r rows b in
    (
      ground (arith, a, x, beq_sym o.id r.id),
      ground (arith, a, y, beq_sym o.mail_username r.mail_username),
    )

-- What the insertion tells of the tables.
create_repository-rows :
    (repo : Repository) (db : Db) {db' : Db}
    → repo.last_fetch_at ≡ none
    → create_repository repo db ≡ ok db'
    → (any (repository_conflict repo) db.repositories ≡ false)
      × (db'.repositories ≡ db.repositories ++ repo ∷ [])
unfolding create_repository
create_repository-rows repo db {db'} n h =
    elim (Bool-cases (any (repository_conflict repo) db.repositories)) [
      | inl t ↦ cc (t, h)
      | inr t ↦
          let is : ok (record db {
            repositories = db.repositories ++ (record repo { last_fetch_at = none }) ∷ [];
          })
              ≡ ok db' =
            rw t at h in
          (
            t,
            sym (ap (λ r. elim r [ err e ↦ [] | ok d ↦ d.repositories ]) is)
                ∙ ap (λ l. db.repositories ++ (record repo { last_fetch_at = l }) ∷ []) (sym n),
          )
    ]

-- What the new row is good for, given the database with it.
pub record Promised (secrets : Secrets) (repo : Repository) (password plain_auth : Text) (db : Db)
    : Type 0 where
  pub login : authenticate secrets repo.mail_username password db ≡ some repo
  pub shown : reveal_mail_credential secrets repo.id db ≡ some password
  pub credentials : secrets.decrypt repo.auth_secret ≡ some plain_auth

module _ (g : Setting) (input : AddRepositoryInput) where
  -- Every end of the call: an error, and the database as it was, or the promise.
  abbrev pub Good : Db → Added × Db → Type 0
  Good db (refused e, db') = db' ≡ db
  Good db (added repo password, db') =
      Promised g.secrets repo password (g.encode_auth (auth_of input)) db'

module _ (g : Setting) (input : AddRepositoryInput)
    (decrypts : (plain cipher : Text)
      → g.encrypt_auth plain ≡ some cipher
      → g.secrets.decrypt cipher ≡ some plain) where
  stored-Good :
      (repo : Repository) (password : Text) (r : Result Db) (db : Db)
      → g.secrets.hash password ≡ some repo.mail_password_hash
      → g.secrets.encrypt password ≡ some repo.mail_password_cipher
      → g.secrets.decrypt repo.auth_secret ≡ some (g.encode_auth (auth_of input))
      → beq repo.status (codes "deleting") ≡ false
      → repo.last_fetch_at ≡ none
      → create_repository repo db ≡ r
      → Good g input db (stored g repo password r db)
  stored-Good repo password (err e) db h k l m n c = refl
  stored-Good repo password (ok db') db h k l m n c =
      let (free, rows) = create_repository-rows repo db n c in
      let (new_id, new_name) = apart repo db.repositories free in
      let by_id =
        find-behind (λ o. beq o.id repo.id) db.repositories repo new_id (beq_refl repo.id) in
      let open_to : (beq repo.mail_username repo.mail_username
            && not (beq repo.status (codes "deleting")))
          ≡ true =
        rw (beq_refl repo.mail_username, m) refl in
      let by_name =
        find-behind (logs_in repo.mail_username) db.repositories repo new_name open_to in
      let named : repository_by_username repo.mail_username db' ≡ ok repo =
        unfold repository_by_username in
        (ap (λ rs. found (find (logs_in repo.mail_username) rs)) rows ∙ ap found by_name) in
      let kept : repository repo.id db' ≡ ok repo =
        unfold repository in
        (ap (λ rs. found (find (λ o. beq o.id repo.id) rs)) rows ∙ ap found by_id) in
      record {
        login =
            unfold authenticate in
            (ap (checked g.secrets password) named
              ∙ rw (g.secrets.verify-hash password repo.mail_password_hash h) refl);
        shown =
            unfold reveal_mail_credential in
            (ap (revealed g.secrets) kept
              ∙ g.secrets.decrypt-encrypt password repo.mail_password_cipher k);
        credentials = l;
      }

  with_secrets-Good :
      (kind auth_cipher password : Text) (hash cipher : Option Text) (db : Db)
      → g.secrets.hash password ≡ hash
      → g.secrets.encrypt password ≡ cipher
      → g.secrets.decrypt auth_cipher ≡ some (g.encode_auth (auth_of input))
      → Good g input db (with_secrets g input kind auth_cipher password hash cipher db)
  with_secrets-Good kind auth_cipher password none cipher db h k l = refl
  with_secrets-Good kind auth_cipher password (some hash) none db h k l = refl
  with_secrets-Good kind auth_cipher password (some hash) (some cipher) db h k l =
      stored-Good (new_row g input kind auth_cipher hash cipher db) password _ db h k l
        (unfold beq in refl) refl refl

  with_password-Good :
      (kind : Text) (cipher drawn : Option Text) (db : Db)
      → g.encrypt_auth (g.encode_auth (auth_of input)) ≡ cipher
      → Good g input db (with_password g input kind cipher drawn db)
  with_password-Good kind none drawn db h = refl
  with_password-Good kind (some auth_cipher) none db h = refl
  with_password-Good kind (some auth_cipher) (some password) db h =
      with_secrets-Good kind auth_cipher password _ _ db refl refl (decrypts _ auth_cipher h)

  with_auth-Good : (c : Option AddError × Text) (db : Db) → Good g input db (with_auth g input c db)
  with_auth-Good (some e, kind) db = refl
  with_auth-Good (none, kind) db = with_password-Good kind _ g.drawn db refl

  with_names-Good : (c : Option AddError) (db : Db) → Good g input db (with_names g input c db)
  with_names-Good (some e) db = refl
  with_names-Good none db = with_auth-Good (checked_auth input) db

  -- A repository that is added can be used at once: its user name with the password that the call
  -- returns logs in, the password can be shown again, and the credentials decrypt to those that were
  -- entered. With an error the database stays as it was. What the box encrypts for the credentials
  -- it decrypts again.
  pub add_repository-Good : (db : Db) → Good g input db (add_repository g input db)
  unfolding add_repository
  add_repository-Good db = with_names-Good _ db
