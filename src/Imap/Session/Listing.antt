-- ===== src/Imap/Session/Listing.antt =====
-- internal/imapserver/server.go: LIST and STATUS. `match_list` is MatchList of go-imap, on a name, a
-- reference and a pattern; what the session cannot write to the client is not modelled.
use git2imap.Base.{
  ℕ, ◌+◌, ◌≡◌, ◌≢◌, refl, Bool, true, false, ◌&&◌, ◌||◌, Option, none, some, List, [], ◌∷◌, ◌++◌,
  map, Text, codes, has_prefix, length, select, any, arith, ◌==◌, if◌then◌else◌, Bool-cases, inl,
  inr, ◌⊎◌,
}
use git2imap.Store.{Mailbox, Message, Db, Result, ok, err}
use git2imap.Store.Mailboxes
use git2imap.Store.Mailboxes.{mailboxes, mailbox_by_name}
use git2imap.Imap.Session.{
  Session, Reply, reply, fail, no_such_mailbox, render_failed, Refresh, repo_id, SelectData,
  select_with, select_mailbox,
}

pub record StatusOptions : Type 0 where
  pub num_messages : Bool
  pub num_unseen : Bool
  pub num_recent : Bool
  pub num_deleted : Bool
  pub size : Bool

pub record StatusData : Type 0 where
  pub mailbox : Text
  pub uid_next : ℕ
  pub uid_validity : ℕ
  pub num_messages : Option ℕ
  pub num_unseen : Option ℕ
  pub num_recent : Option ℕ
  pub num_deleted : Option ℕ
  pub size : Option ℕ

pub data Attr : Type 0 where
  no_select has_no_children subscribed has_children : Attr

pub record ListData : Type 0 where
  pub attrs : List Attr
  pub mailbox : Text
  pub status : Option StatusData

abbrev asked : Bool → ℕ → Option ℕ
asked true n = some n
asked false n = none

abbrev plus : ℕ → Option ℕ → Option ℕ
plus n none = none
plus n (some m) = some (n + m)

abbrev is_empty : List Text → Bool
is_empty [] = true
is_empty (p ∷ ps) = false

is_empty_not : (ps : List Text) → ps ≢ [] → is_empty ps ≡ false
is_empty_not [] h = absurd (h refl)
is_empty_not (p ∷ ps) h = refl

module _ (match_list : Text → Text → Text → Bool) (render : Mailbox → Message → Option Text) where
  -- matchesList
  unfoldable pub matches_list : Text → Text → List Text → Bool
  unfolding any
  matches_list name ref patterns = any (λ pattern. match_list name ref pattern) patterns

  -- The size of a message: the stored one, or that of its text.
  unfoldable pub size_of : Mailbox → Message → Option ℕ
  size_of mailbox m =
      if m.size == 0
      then (elim (render mailbox m) [ none ↦ none | some raw ↦ some (length raw) ])
      else some m.size

  unfoldable pub total_size : Mailbox → List Message → Option ℕ
  total_size mailbox [] = some 0
  total_size mailbox (m ∷ ms) = elim (size_of mailbox m) [
    | none ↦ none
    | some n ↦ plus n (total_size mailbox ms)
  ]

  abbrev status_data : Mailbox → StatusOptions → ℕ → Option ℕ → StatusData
  status_data mailbox o count size = record {
    mailbox = mailbox.name;
    uid_next = mailbox.next_uid;
    uid_validity = mailbox.uid_validity;
    num_messages = asked o.num_messages count;
    num_unseen = asked o.num_unseen count;
    num_recent = asked o.num_recent 0;
    num_deleted = asked o.num_deleted 0;
    size = size;
  }

  -- status, for options that are not nil; `none` is an error of the rendering.
  unfoldable pub status_of : Mailbox → StatusOptions → List Message → Option StatusData
  unfolding total_size
  status_of mailbox o ms =
      if o.size
      then (elim (total_size mailbox ms) [
        | none ↦ none
        | some total ↦ some (status_data mailbox o (length ms) (some total))
      ])
      else some (status_data mailbox o (length ms) none)

  abbrev status_reply : Option StatusData → Reply StatusData
  status_reply none = fail render_failed
  status_reply (some d) = reply d

  abbrev status_with : StatusOptions → Result Mailbox → Db → Reply StatusData
  status_with o (err e) db = fail no_such_mailbox
  status_with o (ok m) db = status_reply (status_of m o (Mailboxes.messages m.id db))

  -- Status: a failed refresh is ignored.
  unfoldable pub status :
      Refresh → Text → StatusOptions → Session → Db → Reply StatusData × Session × Db
  unfolding mailbox_by_name
  status refresh name o s db =
      let db' = (refresh (repo_id s) db).1 in
      (status_with o (mailbox_by_name (repo_id s) name db') db', s, db')

  abbrev pub parent : ListData
  parent = record {
    attrs = no_select ∷ has_children ∷ [];
    mailbox = codes "Branches";
    status = none;
  }

  abbrev pub entry : Mailbox → Option StatusData → ListData
  entry m d = record { attrs = has_no_children ∷ subscribed ∷ []; mailbox = m.name; status = d }

  -- The status that an entry carries; the outer `none` is an error.
  abbrev entry_status : Option StatusOptions → Mailbox → Db → Option (Option StatusData)
  entry_status none m db = some none
  entry_status (some o) m db = elim (status_of m o (Mailboxes.messages m.id db)) [
    | none ↦ none
    | some d ↦ some (some d)
  ]

  module _ (ref : Text) (patterns : List Text) (o : Option StatusOptions) (db : Db) where
    -- The loop of List and what follows it: the entries that are written, and whether it ended with
    -- an error.
    unfoldable pub list_from : Bool → List Mailbox → List ListData × Bool
    list_from wrote [] =
        (if wrote && matches_list (codes "Branches") ref patterns then parent ∷ [] else [], false)
    list_from wrote (m ∷ ms) =
        let skipped = list_from wrote ms in
        let (rest, failed) = list_from (has_prefix m.name (codes "Branches/") || wrote) ms in
        if matches_list m.name ref patterns
        then (elim (entry_status o m db) [
          | none ↦ ([], true)
          | some d ↦ (entry m d ∷ rest, failed)
        ])
        else skipped

    -- List after its refresh.
    unfoldable pub list_mailboxes : Text → List ListData × Bool
    unfolding mailboxes
    list_mailboxes repo =
        if is_empty patterns
        then ((record { attrs = no_select ∷ []; mailbox = []; status = none }) ∷ [], false)
        else list_from false (mailboxes repo db)

  -- List: a failed refresh is ignored.
  unfoldable pub list_command :
      Refresh
      → Text
      → List Text
      → Option StatusOptions
      → Session
      → Db
      → (List ListData × Bool) × Session × Db
  unfolding list_mailboxes
  list_command refresh ref patterns o s db =
      let db' = (refresh (repo_id s) db).1 in
      (list_mailboxes ref patterns o db' (repo_id s), s, db')

  -- What STATUS and SELECT say of one mailbox.
  abbrev pub Agree : Reply StatusData → Reply SelectData → Type 0
  Agree a b =
      ((a ≡ fail no_such_mailbox) × (b ≡ fail no_such_mailbox))
      ⊎ ((d : StatusData) × (e : SelectData) × (a ≡ reply d)
          × (b ≡ reply e)
          × (d.num_messages ≡ some e.num_messages)
          × (d.uid_next ≡ e.uid_next)
          × (d.uid_validity ≡ e.uid_validity))

  status_with-Agree :
      (o : StatusOptions) (s : Session) (r : Result Mailbox) (db : Db)
      → o.size ≡ false
      → o.num_messages ≡ true
      → Agree (status_with o r db) (select_with s r db).0
  unfolding status_of
  status_with-Agree o s (err e) db small counted = inl (refl, refl)
  status_with-Agree o s (ok m) db small counted =
      let ms = Mailboxes.messages m.id db in
      inr (status_data m o (length ms) none, _, rw small refl, refl, rw counted refl, refl, refl)

  -- STATUS with the count and without the size agrees with SELECT of the same name: either both
  -- find no mailbox, or both give the same count, next uid and UIDVALIDITY.
  pub status-select_mailbox :
      (refresh : Refresh) (name : Text) (o : StatusOptions) (s : Session) (db : Db)
      → o.size ≡ false
      → o.num_messages ≡ true
      → Agree (status refresh name o s db).0 (select_mailbox refresh name s db).0
  unfolding status select_mailbox
  status-select_mailbox refresh name o s db small counted =
      let db' = (refresh (repo_id s) db).1 in
      status_with-Agree o s (mailbox_by_name (repo_id s) name db') db' small counted

  module _ (ref : Text) (patterns : List Text) (db : Db) where
    abbrev pub chosen : Mailbox → Bool
    chosen m = matches_list m.name ref patterns

    abbrev pub nested : Mailbox → Bool
    nested m = has_prefix m.name (codes "Branches/")

    or_swap : (a b c : Bool) → ((a || b) || c) ≡ (b || (a || c))
    or_swap a b c = ground arith

    list_from_lem :
        (wrote : Bool) (ms : List Mailbox)
        → list_from ref patterns none db wrote ms ≡ (
          map (λ m. entry m none) (select chosen ms)
              ++ (if (wrote || any nested (select chosen ms))
                    && matches_list (codes "Branches") ref patterns
                  then parent ∷ []
                  else []),
          false,
        )
    unfolding list_from select any
    list_from_lem wrote [] = ground arith
    list_from_lem wrote (m ∷ ms) = elim (Bool-cases (chosen m)) [
      | inl e ↦
          rw
            (
              e,
              list_from_lem (nested m || wrote) ms,
              or_swap (nested m) wrote (any nested (select chosen ms)),
            )
            refl
      | inr e ↦ rw e (list_from_lem wrote ms)
    ]

    -- LIST with patterns and without status data ends without an error. It writes one entry for each
    -- mailbox of the repository that matches, in the store's order, and then the parent of the
    -- branches if it matches and a branch below it was written.
    pub list_mailboxes_lem :
        (repo : Text)
        → patterns ≢ []
        → list_mailboxes ref patterns none db repo ≡ (
          map (λ m. entry m none) (select chosen (mailboxes repo db))
              ++ (if any nested (select chosen (mailboxes repo db))
                    && matches_list (codes "Branches") ref patterns
                  then parent ∷ []
                  else []),
          false,
        )
    unfolding list_mailboxes
    list_mailboxes_lem repo some_pattern =
        rw (is_empty_not patterns some_pattern) (list_from_lem false (mailboxes repo db))
