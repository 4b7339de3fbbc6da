-- ===== src/Store/Mailboxes.antt =====
-- internal/store/store.go: the statements on the tables `mailboxes` and `messages`.
use git2imap.Base.{
  ℕ, suc, Bool, not, ◌&&◌, ◌||◌, List, [], ◌∷◌, ◌++◌, map, Text, codes, beq, select, any, find,
  sort_by, text_le, leb, if◌then◌else◌, ◌==◌,
}
use git2imap.Store.{Mailbox, Message, CommitSnapshot, Db, Result, ok, err, constraint, ◌>>=◌}
use git2imap.Store.Repositories.{found}

-- Mailboxes: ORDER BY CASE WHEN name='INBOX' THEN 0 ELSE 1 END,name
unfoldable pub mailbox_le : Mailbox → Mailbox → Bool
unfolding text_le
mailbox_le a b =
    let rank = λ (m : Mailbox). if beq m.name (codes "INBOX") then 0 else 1 in
    if rank a == rank b then text_le a.name b.name else leb (rank a) (rank b)

unfoldable pub mailboxes : Text → Db → List Mailbox
unfolding select sort_by mailbox_le
mailboxes repo_id db = sort_by mailbox_le (select (λ m. beq m.repository_id repo_id) db.mailboxes)

-- MailboxByName
unfoldable pub mailbox_by_name : Text → Text → Db → Result Mailbox
unfolding find
mailbox_by_name repo_id name db =
    found (find (λ m. beq m.repository_id repo_id && beq m.name name) db.mailboxes)

abbrev pub in_mailbox : ℕ → Message → Bool
in_mailbox id m = m.mailbox_id == id

abbrev pub uid_le : Message → Message → Bool
uid_le a b = leb a.uid b.uid

-- Messages: ORDER BY uid
unfoldable pub messages : ℕ → Db → List Message
unfolding select sort_by
messages mailbox_id db = sort_by uid_le (select (in_mailbox mailbox_id) db.messages)

-- UpdateMessageCache
unfoldable pub update_message_cache : ℕ → ℕ → ℕ → Text → Db → Db
update_message_cache mailbox_id uid size path db = record db {
  messages =
      map
        (λ m.
          if m.mailbox_id == mailbox_id && m.uid == uid
          then record m { size = size; cache_path = path }
          else m)
        db.messages;
}

-- The two UNIQUE clauses of the table.
unfoldable pub conflict : Mailbox → Mailbox → Bool
conflict a b = beq a.repository_id b.repository_id && (beq a.branch b.branch || beq a.name b.name)

-- UPDATE mailboxes: row by row, each new row checked against all the others.
unfoldable pub update_rows :
    (Mailbox → Bool) → (Mailbox → Mailbox) → List Mailbox → List Mailbox → Result (List Mailbox)
unfolding any conflict
update_rows p f done [] = ok done
update_rows p f done (r ∷ todo) =
    let row = if p r then f r else r in
    let rest = update_rows p f (done ++ row ∷ []) todo in
    if p r && any (conflict row) (done ++ todo) then err constraint else rest

unfoldable pub update_mailboxes : (Mailbox → Bool) → (Mailbox → Mailbox) → Db → Result Db
unfolding update_rows
update_mailboxes p f db = do
  rows ← update_rows p f [] db.mailboxes
  ok (record db { mailboxes = rows })

-- INSERT INTO mailboxes: the foreign key, the UNIQUE clauses, and a fresh id.
unfoldable pub insert_mailbox : Text → Text → Text → ℕ → Text → Db → Result (ℕ × Db)
unfolding any conflict
insert_mailbox repo_id branch name uid_validity head_oid db =
    let id = suc db.last_mailbox_id in
    let row : Mailbox = record {
      id = id;
      repository_id = repo_id;
      branch = branch;
      name = name;
      uid_validity = uid_validity;
      next_uid = 1;
      head_oid = head_oid;
    } in
    if not (any (λ r. beq r.id repo_id) db.repositories) || any (conflict row) db.mailboxes
    then err constraint
    else ok (id, record db { mailboxes = db.mailboxes ++ row ∷ []; last_mailbox_id = id })

-- DELETE FROM messages WHERE mailbox_id=?
unfoldable pub delete_messages : ℕ → Db → Db
unfolding select
delete_messages id db = record db { messages = select (λ m. not (in_mailbox id m)) db.messages }

-- DELETE FROM mailboxes WHERE id=?, with the cascade to its messages.
unfoldable pub delete_mailbox : ℕ → Db → Db
unfolding delete_messages
delete_mailbox id db = record (delete_messages id db) {
  mailboxes = select (λ m. not (m.id == id)) db.mailboxes;
}

-- The PRIMARY KEY and the UNIQUE clause of the table `messages`.
unfoldable pub message_conflict : Message → Message → Bool
message_conflict a b =
    a.mailbox_id == b.mailbox_id && (a.uid == b.uid || beq a.commit_oid b.commit_oid)

abbrev pub new_message : ℕ → ℕ → CommitSnapshot → Message
new_message id uid commit = record {
  mailbox_id = id;
  uid = uid;
  commit_oid = commit.oid;
  subject = commit.subject;
  author_name = commit.author_name;
  author_email = commit.author_email;
  authored_at = commit.authored_at;
  size = 0;
  cache_path = [];
}

-- INSERT OR IGNORE INTO messages
unfoldable pub insert_message : ℕ → ℕ → CommitSnapshot → Db → Db
unfolding any message_conflict
insert_message id uid commit db =
    let row : Message = new_message id uid commit in
    if any (message_conflict row) db.messages
    then db
    else record db { messages = db.messages ++ row ∷ [] }
