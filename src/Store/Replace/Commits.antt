-- ===== src/Store/Replace/Commits.antt =====
-- internal/store/store.go: what the loop over `branch.NewCommits` leaves in the table `messages`.
use git2imap.Base.{
  ℕ, ◌+◌, ◌≤◌, ◌<◌, ◌^◌, ◌≡◌, ◌≢◌, refl, sym, subst, ◌∙◌, Bool, true, ◌&&◌, List, [], ◌∷◌, ◌++◌,
  Text, beq, beq_iff, select, any, if◌then◌else◌, ◌==◌, ltb, beq_refl, All-append, length, All,
  Ascending, ==_refl, arith, select-append, any-append, append-nil, append_assoc, Bool-cases, inl,
  inr,
}
use git2imap.Store.{Message, CommitSnapshot, Db}
use git2imap.Store.Mailboxes.{in_mailbox, new_message, message_conflict, insert_message}
use git2imap.Store.Replace.{u32, insert_commits}

-- The rows of a mailbox, in the order of their insertion.
abbrev pub held : ℕ → Db → List Message
held id db = select (in_mailbox id) db.messages

-- The rows that the loop adds.
unfoldable pub added : ℕ → ℕ → List CommitSnapshot → Db → List Message
added id next [] db = []
added id next (c ∷ cs) db =
    let rest = added id (u32 (next + 1)) cs (insert_message id next c db) in
    if any (message_conflict (new_message id next c)) db.messages
    then rest
    else new_message id next c ∷ rest

held-insert_message :
    (j id uid : ℕ) (c : CommitSnapshot) (db : Db)
    → held j (insert_message id uid c db)
      ≡ held j db
        ++ (if any (message_conflict (new_message id uid c)) db.messages
            then []
            else select (in_mailbox j) (new_message id uid c ∷ []))
unfolding insert_message
held-insert_message j id uid c db =
    elim (Bool-cases (any (message_conflict (new_message id uid c)) db.messages)) [
      | inl e ↦ rw (e, append-nil)
      | inr e ↦ rw e (select-append (in_mailbox j) db.messages (new_message id uid c ∷ []))
    ]

pub held-insert_commits :
    (id next : ℕ) (cs : List CommitSnapshot) (db : Db)
    → held id (insert_commits id next cs db).1 ≡ held id db ++ added id next cs db
unfolding insert_commits added select
held-insert_commits id next [] db = rw append-nil
held-insert_commits id next (c ∷ cs) db =
    let ih = held-insert_commits id (u32 (next + 1)) cs (insert_message id next c db) in
    elim (Bool-cases (any (message_conflict (new_message id next c)) db.messages)) [
      | inl e ↦ rw (ih, held-insert_message id id next c db, e, append-nil)
      | inr e ↦ rw (ih, held-insert_message id id next c db, e, ==_refl id, append_assoc)
    ]

-- Other mailboxes, and all other tables, stay as they are.
pub held-insert_commits_ne :
    (j id next : ℕ) (cs : List CommitSnapshot) (db : Db)
    → j ≢ id
    → held j (insert_commits id next cs db).1 ≡ held j db
unfolding insert_commits select
held-insert_commits_ne j id next [] db h = refl
held-insert_commits_ne j id next (c ∷ cs) db h =
    held-insert_commits_ne j id (u32 (next + 1)) cs (insert_message id next c db) h
    ∙ ground (arith, held-insert_message j id next c db, append-nil (held j db))

-- All that is not the table `messages` is as it was.
pub record SameRest (a b : Db) : Type 0 where
  pub repositories : a.repositories ≡ b.repositories
  pub mailboxes : a.mailboxes ≡ b.mailboxes
  pub sessions : a.sessions ≡ b.sessions
  pub last_mailbox_id : a.last_mailbox_id ≡ b.last_mailbox_id

pub insert_message-SameRest :
    (id uid : ℕ) (c : CommitSnapshot) (db : Db) → SameRest (insert_message id uid c db) db
unfolding insert_message
insert_message-SameRest id uid c db = ground arith

pub insert_commits-SameRest :
    (id next : ℕ) (cs : List CommitSnapshot) (db : Db)
    → SameRest (insert_commits id next cs db).1 db
unfolding insert_commits
insert_commits-SameRest id next [] db = record {
  repositories = refl;
  mailboxes = refl;
  sessions = refl;
  last_mailbox_id = refl;
}
insert_commits-SameRest id next (c ∷ cs) db =
    let a = insert_commits-SameRest id (u32 (next + 1)) cs (insert_message id next c db) in
    let b = insert_message-SameRest id next c db in
    record {
      repositories = a.repositories ∙ b.repositories;
      mailboxes = a.mailboxes ∙ b.mailboxes;
      sessions = a.sessions ∙ b.sessions;
      last_mailbox_id = a.last_mailbox_id ∙ b.last_mailbox_id;
    }

pub next-insert_commits :
    (id next : ℕ) (cs : List CommitSnapshot) (db : Db)
    → next + length cs < 2 ^ 32
    → (insert_commits id next cs db).0 ≡ next + length cs
unfolding insert_commits
next-insert_commits id next [] db h = omega arith
next-insert_commits id next (c ∷ cs) db h =
    let step : u32 (next + 1) ≡ next + 1 = omega arith in
    rw (step, insert_commits)
      (omega (arith, next-insert_commits id (next + 1) cs (insert_message id next c db)))

abbrev pub uid_lt : Message → Message → Bool
uid_lt a b = ltb a.uid b.uid

abbrev pub Within : ℕ → ℕ → ℕ → Message → Type 0
Within id low high m = (m.mailbox_id ≡ id) × (low ≤ m.uid) × (m.uid < high)

All-Within :
    (id low low' high : ℕ) (ms : List Message)
    → low ≤ low'
    → All (Within id low' high) ms
    → All (Within id low high) ms
All-Within id low low' high [] h a = tt
All-Within id low low' high (m ∷ ms) h (a, as') =
    (ground arith, All-Within id low low' high ms h as')

-- The rows that the loop adds have the uids from `next` on.
pub added-Within :
    (id next : ℕ) (cs : List CommitSnapshot) (db : Db)
    → next + length cs < 2 ^ 32
    → All (Within id next (next + length cs)) (added id next cs db)
unfolding added
added-Within id next [] db h = tt
added-Within id next (c ∷ cs) db h =
    let step : u32 (next + 1) ≡ next + 1 = omega arith in
    let shift : next + 1 + length cs ≡ next + length (c ∷ cs) = omega arith in
    let ih = added-Within id (next + 1) cs (insert_message id next c db) (omega arith) in
    let rest : All (Within id next (next + length (c ∷ cs)))
        (added id (next + 1) cs (insert_message id next c db)) =
      rw shift at (All-Within id next (next + 1) _ _ (omega arith) ih) in
    rw step (elim (Bool-cases (any (message_conflict (new_message id next c)) db.messages)) [
      | inl e ↦ rw e rest
      | inr e ↦ rw e ((refl, omega arith, omega arith), rest)
    ])

All-uid_lt :
    (id low high : ℕ) (m : Message) (ms : List Message)
    → m.uid < low
    → All (Within id low high) ms
    → All (λ y. uid_lt m y ≡ true) ms
All-uid_lt id low high m [] h a = tt
All-uid_lt id low high m (n ∷ ms) h (a, as') = (ground arith, All-uid_lt id low high m ms h as')

-- They come in strictly ascending order of their uids.
pub added-Ascending :
    (id next : ℕ) (cs : List CommitSnapshot) (db : Db)
    → next + length cs < 2 ^ 32
    → Ascending uid_lt (added id next cs db)
unfolding added
added-Ascending id next [] db h = tt
added-Ascending id next (c ∷ cs) db h =
    let step : u32 (next + 1) ≡ next + 1 = omega arith in
    let db' = insert_message id next c db in
    let ih = added-Ascending id (next + 1) cs db' (omega arith) in
    let above = added-Within id (next + 1) cs db' (omega arith) in
    rw step (elim (Bool-cases (any (message_conflict (new_message id next c)) db.messages)) [
      | inl e ↦ rw e ih
      | inr e ↦ rw e (All-uid_lt id (next + 1) _ (new_message id next c) _ (omega arith) above, ih)
    ])

-- Whether the mailbox holds a message for a commit.
abbrev pub has_commit : ℕ → Text → List Message → Bool
has_commit id oid = any (λ m. m.mailbox_id == id && beq m.commit_oid oid)

abbrev pub Below : ℕ → Message → Type 0
Below next m = m.uid < next

-- Below the next uid, only an equal commit makes a new row conflict.
conflict-has_commit :
    (id next : ℕ) (c : CommitSnapshot) (ms : List Message)
    → All (Below next) (select (in_mailbox id) ms)
    → any (message_conflict (new_message id next c)) ms ≡ true
    → has_commit id c.oid ms ≡ true
unfolding any select message_conflict
conflict-has_commit id next c [] h e = cc
conflict-has_commit id next c (m ∷ ms) h e = ground (
  arith,
  beq_iff c.oid m.commit_oid,
  beq_iff m.commit_oid c.oid,
  conflict-has_commit id next c ms,
)

has_commit-insert_message :
    (id next : ℕ) (c : CommitSnapshot) (db : Db)
    → All (Below next) (held id db)
    → has_commit id c.oid (insert_message id next c db).messages ≡ true
unfolding insert_message any
has_commit-insert_message id next c db h = ground (
  arith,
  conflict-has_commit id next c db.messages h,
  any-append (λ m. m.mailbox_id == id && beq m.commit_oid c.oid) db.messages
      (new_message id next c ∷ []),
  beq_refl c.oid,
)

-- The loop forgets no commit.
has_commit-insert_commits_keep :
    (id next : ℕ) (cs : List CommitSnapshot) (db : Db) (oid : Text)
    → has_commit id oid db.messages ≡ true
    → has_commit id oid (insert_commits id next cs db).1.messages ≡ true
unfolding insert_commits insert_message
has_commit-insert_commits_keep id next [] db oid h = h
has_commit-insert_commits_keep id next (c ∷ cs) db oid h =
    has_commit-insert_commits_keep id (u32 (next + 1)) cs (insert_message id next c db) oid (
      ground (
        arith,
        any-append (λ m. m.mailbox_id == id && beq m.commit_oid oid) db.messages
            (new_message id next c ∷ []),
      ))

All-Below : (next : ℕ) (ms : List Message) → All (Below next) ms → All (Below (next + 1)) ms
All-Below next [] h = tt
All-Below next (m ∷ ms) (h, hs) = (omega arith, All-Below next ms hs)

Below-insert_message :
    (id next : ℕ) (c : CommitSnapshot) (db : Db)
    → All (Below next) (held id db)
    → All (Below (next + 1)) (held id (insert_message id next c db))
unfolding select
Below-insert_message id next c db h = rw (held-insert_message id id next c db) (
    All-append (Below (next + 1)) (held id db) _ (All-Below next _ h)
      (elim (Bool-cases (any (message_conflict (new_message id next c)) db.messages)) [
        | inl e ↦ rw e tt
        | inr e ↦ rw (e, ==_refl id) (omega arith, tt)
      ]))

-- After the loop every commit of the branch has a message, those that were there included.
pub has_commit-insert_commits :
    (id next : ℕ) (cs : List CommitSnapshot) (db : Db)
    → next + length cs < 2 ^ 32
    → All (Below next) (held id db)
    → All (λ c. has_commit id c.oid (insert_commits id next cs db).1.messages ≡ true) cs
unfolding insert_commits
has_commit-insert_commits id next [] db h below = tt
has_commit-insert_commits id next (c ∷ cs) db h below =
    let step : u32 (next + 1) ≡ next + 1 = omega arith in
    let db' = insert_message id next c db in
    (
      has_commit-insert_commits_keep id (u32 (next + 1)) cs db' c.oid
          (has_commit-insert_message id next c db below),
      subst (λ n. All (λ d. has_commit id d.oid (insert_commits id n cs db').1.messages ≡ true) cs)
          (sym step)
          (has_commit-insert_commits id (next + 1) cs db' (omega arith)
            (Below-insert_message id next c db below)),
    )
