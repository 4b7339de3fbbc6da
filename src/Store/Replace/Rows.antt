-- ===== src/Store/Replace/Rows.antt =====
-- internal/store/store.go: what the statements of `ReplaceMailboxes` do to one mailbox, and that
-- they leave every other one alone.
use git2imap.Base.{
  ℕ, suc, ◌≤◌, ◌≡◌, ◌≢◌, refl, ap, ◌∙◌, Bool, not, Option, some, List, [], ◌∷◌, ◌++◌, map, Text,
  select, find, if◌then◌else◌, ◌==◌, arith, append-nil, append_assoc, select-select,
  select-select_none,
}
use git2imap.Store.{Mailbox, Db, Result, ok, err, ◌>>=◌}
use git2imap.Store.Mailboxes.{
  in_mailbox, update_rows, update_mailboxes, insert_mailbox, delete_messages, delete_mailbox,
}
use git2imap.Store.Replace.Commits.{held}

pub >>=-eq-ok {ℓ κ} :
    {X : Type ℓ} {Y : Type κ} (first : Result X) (next : X → Result Y) {last : Y}
    → (first >>= next) ≡ ok last
    → (found : X) × (first ≡ ok found) × (next found ≡ ok last)
>>=-eq-ok (err problem) next done = cc
>>=-eq-ok (ok found) next done = (found, refl, done)

-- The row with an id.
abbrev pub row : ℕ → Db → Option Mailbox
row i db = find (λ m. m.id == i) db.mailboxes

-- A mailbox and its messages are as they were.
pub record Untouched (i : ℕ) (a b : Db) : Type 0 where
  pub row_same : row i a ≡ row i b
  pub held_same : held i a ≡ held i b

pub Untouched-refl : (i : ℕ) (a : Db) → Untouched i a a
Untouched-refl i a = record { row_same = refl; held_same = refl }

pub Untouched-trans : {i : ℕ} {a b c : Db} → Untouched i a b → Untouched i b c → Untouched i a c
Untouched-trans h k = record {
  row_same = h.row_same ∙ k.row_same;
  held_same = h.held_same ∙ k.held_same;
}

abbrev pub apply_if : (Mailbox → Bool) → (Mailbox → Mailbox) → Mailbox → Mailbox
apply_if p f r = if p r then f r else r

update_rows-eq-ok :
    (p : Mailbox → Bool) (f : Mailbox → Mailbox) (done todo : List Mailbox) {rows : List Mailbox}
    → update_rows p f done todo ≡ ok rows
    → rows ≡ done ++ map (apply_if p f) todo
unfolding update_rows
update_rows-eq-ok p f done [] h = ground (arith, append-nil done)
update_rows-eq-ok p f done (r ∷ todo) {rows} h = ground (
  arith,
  update_rows-eq-ok p f (done ++ apply_if p f r ∷ []) todo {rows = rows},
  append_assoc done (apply_if p f r ∷ []) (map (apply_if p f) todo),
)

-- An UPDATE that passes its checks changes the chosen rows, and nothing else.
pub update_mailboxes-eq-ok :
    (p : Mailbox → Bool) (f : Mailbox → Mailbox) (db : Db) {db' : Db}
    → update_mailboxes p f db ≡ ok db'
    → db' ≡ record db { mailboxes = map (apply_if p f) db.mailboxes }
unfolding update_mailboxes
update_mailboxes-eq-ok p f db {db'} h =
    let (rows, e, k) = >>=-eq-ok (update_rows p f [] db.mailboxes) _ h in
    let same = update_rows-eq-ok p f [] db.mailboxes e in ground arith

find-map :
    (i : ℕ) (g : Mailbox → Mailbox) (rows : List Mailbox)
    → ((m : Mailbox) → (g m).id ≡ m.id)
    → ((m : Mailbox) → m.id ≡ i → g m ≡ m)
    → find (λ m. m.id == i) (map g rows) ≡ find (λ m. m.id == i) rows
unfolding find
find-map i g [] keeps fixes = refl
find-map i g (m ∷ rows) keeps fixes =
    ground (arith, find-map i g rows keeps fixes, keeps m, fixes m)

pub update_mailboxes-Untouched :
    (i id : ℕ) (f : Mailbox → Mailbox) (db : Db) {db' : Db}
    → i ≢ id
    → ((m : Mailbox) → (f m).id ≡ m.id)
    → update_mailboxes (λ r. r.id == id) f db ≡ ok db'
    → Untouched i db' db
update_mailboxes-Untouched i id f db ne keeps h =
    rw (update_mailboxes-eq-ok (λ r. r.id == id) f db h) (record {
      row_same =
          find-map i (apply_if (λ r. r.id == id) f) db.mailboxes (λ m. ground (arith, keeps m))
            (λ m e. ground arith);
      held_same = refl;
    })

find-map_self :
    (i : ℕ) (f : Mailbox → Mailbox) (rows : List Mailbox) {m : Mailbox}
    → ((r : Mailbox) → (f r).id ≡ r.id)
    → find (λ r. r.id == i) rows ≡ some m
    → find (λ r. r.id == i) (map (apply_if (λ r. r.id == i) f) rows) ≡ some (f m)
unfolding find
find-map_self i f [] keeps h = cc
find-map_self i f (r ∷ rows) {m} keeps h =
    ground (arith, find-map_self i f rows {m = m} keeps, keeps r)

-- The row of the updated mailbox, with its messages as they were.
pub update_mailboxes-row :
    (i : ℕ) (f : Mailbox → Mailbox) (db : Db) {db' : Db} {m : Mailbox}
    → ((r : Mailbox) → (f r).id ≡ r.id)
    → row i db ≡ some m
    → update_mailboxes (λ r. r.id == i) f db ≡ ok db'
    → (row i db' ≡ some (f m)) × (held i db' ≡ held i db)
update_mailboxes-row i f db keeps at h =
    rw (update_mailboxes-eq-ok (λ r. r.id == i) f db h)
      (find-map_self i f db.mailboxes keeps at, refl)

pub update_mailboxes-last :
    (p : Mailbox → Bool) (f : Mailbox → Mailbox) (db : Db) {db' : Db}
    → update_mailboxes p f db ≡ ok db'
    → db'.last_mailbox_id ≡ db.last_mailbox_id
update_mailboxes-last p f db h =
    ap (λ (d : Db). d.last_mailbox_id) (update_mailboxes-eq-ok p f db h)

pub delete_messages-Untouched :
    (i id : ℕ) (db : Db) → i ≢ id → Untouched i (delete_messages id db) db
unfolding delete_messages
delete_messages-Untouched i id db ne = record {
  row_same = refl;
  held_same =
      select-select (in_mailbox i) (λ m. not (in_mailbox id m)) db.messages (λ m h. ground arith);
}

pub delete_messages-held : (id : ℕ) (db : Db) → held id (delete_messages id db) ≡ []
unfolding delete_messages
delete_messages-held id db =
    select-select_none (in_mailbox id) (λ m. not (in_mailbox id m)) db.messages
      (λ m h. ground arith)

find-select :
    (i id : ℕ) (rows : List Mailbox)
    → i ≢ id
    → find (λ m. m.id == i) (select (λ m. not (m.id == id)) rows) ≡ find (λ m. m.id == i) rows
unfolding find select
find-select i id [] ne = refl
find-select i id (m ∷ rows) ne = ground (arith, find-select i id rows ne)

pub delete_mailbox-Untouched : (i id : ℕ) (db : Db) → i ≢ id → Untouched i (delete_mailbox id db) db
unfolding delete_mailbox
delete_mailbox-Untouched i id db ne = record {
  row_same = find-select i id db.mailboxes ne;
  held_same = (delete_messages-Untouched i id db ne).held_same;
}

find-append :
    (i : ℕ) (rows : List Mailbox) (m : Mailbox)
    → m.id ≢ i
    → find (λ r. r.id == i) (rows ++ m ∷ []) ≡ find (λ r. r.id == i) rows
unfolding find
find-append i [] m ne = ground arith
find-append i (r ∷ rows) m ne = ground (arith, find-append i rows m ne)

-- A new row has an id above all that were given before.
pub insert_mailbox-Untouched :
    (i : ℕ) (repo_id branch name : Text) (validity : ℕ) (head : Text) (db : Db) {r : ℕ × Db}
    → i ≤ db.last_mailbox_id
    → insert_mailbox repo_id branch name validity head db ≡ ok r
    → Untouched i r.1 db × (r.0 ≡ suc db.last_mailbox_id) × (r.1.last_mailbox_id ≡ r.0)
unfolding insert_mailbox
insert_mailbox-Untouched i repo_id branch name validity head db {r} le h =
    let row : Mailbox = record {
      id = suc db.last_mailbox_id;
      repository_id = repo_id;
      branch = branch;
      name = name;
      uid_validity = validity;
      next_uid = 1;
      head_oid = head;
    } in
    (
      record {
        row_same = ground (arith, find-append i db.mailboxes row);
        held_same = ground arith;
      },
      ground arith,
      ground arith,
    )
