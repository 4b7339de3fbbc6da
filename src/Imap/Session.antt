-- ===== src/Imap/Session.antt =====
-- internal/imapserver/server.go: the state of a session and the commands on mailboxes. What the
-- session asks of the service is a parameter: `refresh`, which may change the database.
pub mod Listing
pub mod Refreshed
use git2imap.Base.{
  ℕ, zero, suc, Bool, true, false, not, Option, none, some, List, [], ◌∷◌, Text, length, ◌==◌,
  if◌then◌else◌,
}
use git2imap.Store.{Repository, Mailbox, Message, Db, Result, ok, err, StoreError}
use git2imap.Store
use git2imap.Store.Mailboxes.{mailbox_by_name, messages}

pub record Session : Type 0 where
  pub repo : Option Repository
  pub selected : Option Mailbox
  pub messages : List Message

abbrev pub fresh : Session
fresh = record { repo = none; selected = none; messages = [] }

pub data ImapError : Type 0 where
  auth_failed no_such_mailbox read_only mailbox_gone history_changed no_mailbox_selected : ImapError
  store_failed : StoreError → ImapError
  render_failed : ImapError

pub data Reply {ℓ} (A : Type ℓ) : Type ℓ where
  reply : A → Reply A
  fail : ImapError → Reply A

-- s.repo.ID; a session without login holds the zero repository.
abbrev pub repo_id : Session → Text
repo_id s = elim s.repo [ none ↦ [] | some r ↦ r.id ]

-- Login: `authenticate` is the method of the service.
unfoldable pub login :
    (Text → Text → Option Repository) → Text → Text → Session → Reply (Unit {0}) × Session
login authenticate username password s = elim (authenticate username password) [
  | none ↦ (fail auth_failed, s)
  | some repo ↦ (reply tt, record s { repo = some repo })
]

pub record SelectData : Type 0 where
  pub num_messages : ℕ
  pub first_unseen : ℕ
  pub uid_next : ℕ
  pub uid_validity : ℕ

-- The commands that would change a mailbox.
pub data Change : Type 0 where
  create delete rename subscribe unsubscribe append expunge store copy : Change

-- Create, Delete, Rename, Subscribe, Unsubscribe, Append, Expunge, Store and Copy.
unfoldable pub change : Change → Session → Reply (Unit {0}) × Session
change c s = (fail read_only, s)

unfoldable pub unselect : Session → Reply (Unit {0}) × Session
unselect s = (reply tt, record s { selected = none; messages = [] })

-- The refresh of a repository: whether it returned no error, and the database that it left.
abbrev pub Refresh : Type 0
Refresh = Text → Db → Bool × Db

abbrev pub select_with : Session → Result Mailbox → Db → Reply SelectData × Session
select_with s (err e) db = (fail no_such_mailbox, s)
select_with s (ok mailbox) db =
    let ms = Store.Mailboxes.messages mailbox.id db in
    (
      reply (record {
        num_messages = length ms;
        first_unseen = if length ms == 0 then 0 else 1;
        uid_next = mailbox.next_uid;
        uid_validity = mailbox.uid_validity;
      }),
      record s { selected = some mailbox; messages = ms },
    )

-- Select: a failed refresh is ignored.
unfoldable pub select_mailbox : Refresh → Text → Session → Db → Reply SelectData × Session × Db
unfolding mailbox_by_name
select_mailbox refresh name s db =
    let db' = (refresh (repo_id s) db).1 in
    let r = select_with s (mailbox_by_name (repo_id s) name db') db' in (r.0, r.1, db')

-- What `refreshSelected` does with the mailbox that it finds: the number of messages that it
-- announces, if that changed.
abbrev pub reselect : Session → Mailbox → Result Mailbox → Db → Reply (Option ℕ) × Session
reselect s selected (err e) db = (fail mailbox_gone, s)
reselect s selected (ok current) db =
    let ms = Store.Mailboxes.messages current.id db in
    if not (current.uid_validity == selected.uid_validity) then (fail history_changed, s) else (
      reply (if length ms == length s.messages then none else some (length ms)),
      record s { selected = some current; messages = ms },
    )

abbrev pub refresh_at : Session → Option Mailbox → Bool → Db → Reply (Option ℕ) × Session
refresh_at s selected false db = (reply none, s)
refresh_at s none true db = (reply none, s)
refresh_at s (some selected) true db =
    reselect s selected (mailbox_by_name (repo_id s) selected.name db) db

-- refreshSelected, which is all that Poll and each tick of Idle do.
unfoldable pub refresh_selected : Refresh → Session → Db → Reply (Option ℕ) × Session × Db
unfolding mailbox_by_name
refresh_selected refresh s db =
    let (good, db') = refresh (repo_id s) db in
    let r = refresh_at s s.selected good db' in (r.0, r.1, db')

-- Idle: the ticks before the stop. The first error ends it; what was announced stays announced.
unfoldable pub idle : Refresh → ℕ → Session → Db → List ℕ × Option ImapError × Session × Db
idle refresh zero s db = ([], none, s, db)
idle refresh (suc ticks) s db =
    let (r, s', db') = refresh_selected refresh s db in
    let rest = idle refresh ticks s' db' in
    elim r [
      | fail e ↦ ([], some e, s', db')
      | reply none ↦ rest
      | reply (some n) ↦ (n ∷ rest.0, rest.1, rest.2, rest.3)
    ]
