-- ===== src/Store/Sound/Statements.antt =====
-- internal/store/store.go: the single statements of the package keep the database sound.
use git2imap.Base.{
  ℕ, ◌≡◌, refl, ap, ◌∙◌, not, false, ◌&&◌, none, List, [], ◌∷◌, ◌++◌, Text, beq, beq_iff, any,
  select, any-append, any-map, any-select, All-select-implies, All-none, ◌==◌, arith, All-implies,
  All-map, All-select, AllPairs-append, AllPairs-select, AllPairs-map, subst, Bool-cases, inl, inr,
  if◌then◌else◌,
}
use git2imap.Store.{Repository, Mailbox, Message, Db, ok}
use git2imap.Store.Repositories.{
  repository_conflict, create_repository, update_repository, mailbox_of, delete_repository,
}
use git2imap.Store.Mailboxes.{message_conflict, update_message_cache}
use git2imap.Store.Replace.Contract.{Apart}
use git2imap.Store.Sound.{Sound}

-- A change of the columns of repositories that no key and no reference uses.
pub Sound-update_repository :
    (id : Text) (f : Repository → Repository) (db : Db)
    → ((r : Repository)
        → ((f r).id ≡ r.id) × ((f r).name ≡ r.name) × ((f r).mail_username ≡ r.mail_username))
    → Sound db
    → Sound (update_repository id f db)
unfolding update_repository repository_conflict
Sound-update_repository id f db keeps h =
    let g = λ (r : Repository). if beq r.id id then f r else r in
    let g_keeps : (r : Repository)
        → ((g r).id ≡ r.id) × ((g r).name ≡ r.name) × ((g r).mail_username ≡ r.mail_username) =
      λ r. elim (Bool-cases (beq r.id id)) [
        | inl e ↦ rw e (keeps r)
        | inr e ↦ rw e (refl, refl, refl)
      ] in
    record {
      known =
          AllPairs-map _ g db.repositories
            (λ a b k.
              let (a_id, a_name, a_user) = g_keeps a in
              let (b_id, b_name, b_user) = g_keeps b in
              rw (a_id, a_name, a_user, b_id, b_name, b_user) k)
            h.known;
      tidy = record { apart = h.tidy.apart; below = h.tidy.below; settled = h.tidy.settled };
      linked = record {
        homed = All-implies _ _ db.mailboxes h.linked.homed (λ m k.
            any-map (λ r. beq r.id m.repository_id) g db.repositories
              (λ r. ap (λ x. beq x m.repository_id) (g_keeps r).0)
            ∙ k);
        lodged = h.linked.lodged;
        numbered = h.linked.numbered;
      };
    }

pub Sound-create_repository :
    (repo : Repository) (db : Db) {db' : Db}
    → create_repository repo db ≡ ok db'
    → Sound db
    → Sound db'
unfolding create_repository repository_conflict
Sound-create_repository repo db {db'} h k =
    let row = record repo { last_fetch_at = none } in
    let is : record db { repositories = db.repositories ++ row ∷ [] } ≡ db' = ground arith in
    let clear : any (repository_conflict repo) db.repositories ≡ false = ground arith in
    subst Sound is (record {
      known = AllPairs-append _ db.repositories row k.known (All-none _ db.repositories clear);
      tidy = record { apart = k.tidy.apart; below = k.tidy.below; settled = k.tidy.settled };
      linked = record {
        homed = All-implies _ _ db.mailboxes k.linked.homed (λ m e.
            any-append (λ r. beq r.id m.repository_id) db.repositories (row ∷ []) ∙ rw e refl);
        lodged = k.linked.lodged;
        numbered = k.linked.numbered;
      };
    })

mailbox_stays :
    (id : Text) (i : ℕ) (ms : List Mailbox)
    → mailbox_of id ms i ≡ false
    → any (λ m. m.id == i) (select (λ m. not (beq m.repository_id id)) ms) ≡ any (λ m. m.id == i) ms
unfolding any select mailbox_of
mailbox_stays id i [] e = refl
mailbox_stays id i (m ∷ ms) e = ground (arith, mailbox_stays id i ms)

pub Sound-delete_repository : (id : Text) (db : Db) → Sound db → Sound (delete_repository id db)
unfolding delete_repository
Sound-delete_repository id db h = record {
  known = AllPairs-select _ _ db.repositories h.known;
  tidy = record {
    apart = AllPairs-select Apart _ db.mailboxes h.tidy.apart;
    below = All-select _ _ db.mailboxes h.tidy.below;
    settled = All-select _ _ db.mailboxes h.tidy.settled;
  };
  linked = record {
    homed =
        All-select-implies _ _ (λ m. not (beq m.repository_id id)) db.mailboxes h.linked.homed
          (λ m k e.
            any-select (λ r. beq r.id m.repository_id) (λ r. not (beq r.id id)) db.repositories
              (λ r at.
                ground (
                  arith,
                  beq_iff r.id m.repository_id,
                  beq_iff r.id id,
                  beq_iff m.repository_id id,
                ))
            ∙ k);
    lodged =
        All-select-implies _ _ (λ s. not (mailbox_of id db.mailboxes s.mailbox_id)) db.messages
          h.linked.lodged (λ s k e. mailbox_stays id s.mailbox_id db.mailboxes (ground arith) ∙ k);
    numbered = AllPairs-select _ _ db.messages h.linked.numbered;
  };
}

pub Sound-rest :
    {a b : Db}
    → a.repositories ≡ b.repositories
    → a.mailboxes ≡ b.mailboxes
    → a.messages ≡ b.messages
    → a.last_mailbox_id ≡ b.last_mailbox_id
    → Sound b
    → Sound a
Sound-rest repositories mailboxes messages last h = record {
  known = rw repositories h.known;
  tidy = record {
    apart = rw mailboxes h.tidy.apart;
    below = rw (mailboxes, last) h.tidy.below;
    settled = rw mailboxes h.tidy.settled;
  };
  linked = record {
    homed = rw (mailboxes, repositories) h.linked.homed;
    lodged = rw (messages, mailboxes) h.linked.lodged;
    numbered = rw messages h.linked.numbered;
  };
}

pub Sound-update_message_cache :
    (id uid size : ℕ) (path : Text) (db : Db)
    → Sound db
    → Sound (update_message_cache id uid size path db)
unfolding update_message_cache message_conflict
Sound-update_message_cache id uid size path db h =
    let g = λ (m : Message).
      if m.mailbox_id == id && m.uid == uid
      then record m { size = size; cache_path = path }
      else m in
    let g_keeps : (m : Message)
        → ((g m).mailbox_id ≡ m.mailbox_id)
          × ((g m).uid ≡ m.uid)
          × ((g m).commit_oid ≡ m.commit_oid) =
      λ m. elim (Bool-cases (m.mailbox_id == id && m.uid == uid)) [
        | inl e ↦ rw e (refl, refl, refl)
        | inr e ↦ rw e (refl, refl, refl)
      ] in
    record {
      known = h.known;
      tidy = record { apart = h.tidy.apart; below = h.tidy.below; settled = h.tidy.settled };
      linked = record {
        homed = h.linked.homed;
        lodged = All-map _ _ g db.messages h.linked.lodged (λ m k. rw (g_keeps m).0 k);
        numbered =
            AllPairs-map _ g db.messages
              (λ a b k.
                let (a_box, a_uid, a_oid) = g_keeps a in
                let (b_box, b_uid, b_oid) = g_keeps b in
                rw (a_box, a_uid, a_oid, b_box, b_uid, b_oid) k)
              h.linked.numbered;
      };
    }
