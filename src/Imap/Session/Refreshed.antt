-- ===== src/Imap/Session/Refreshed.antt =====
-- internal/imapserver/server.go on internal/service/repository.go and internal/store/store.go: a poll
-- whose refresh is that of the program.
use git2imap.Base.{
  ℕ, suc, ◌+◌, ◌^◌, ◌≤◌, ◌<◌, ◌≡◌, refl, sym, ap, subst, ◌∙◌, true, false, Option, none, some, List,
  [], ◌∷◌, ◌++◌, append-nil, map, Text, beq, find, arith, length, ◌==◌, ==_iff, Bool-cases, inl,
  inr,
}
use git2imap.Store.{Mailbox, Message, Repository, Db, ok}
use git2imap.Store.Repositories.{repository}
use git2imap.Store.Mailboxes.{mailbox_by_name, messages}
use git2imap.Store.Replace.{needs_rebuild, mailbox_name}
use git2imap.Store.Replace.Rows.{row}
use git2imap.Store.Replace.Branch.{Kept}
use git2imap.Store.Replace.Contract.{AllApart}
use git2imap.Store.Replace.Uids.{
  Numbered, Kept-Numbered, messages-held, some-injective, next_validity,
}
use git2imap.Git.{Branch, Commit, got}
use git2imap.Service.Refresh.{World, RefreshError, new_commits, refresh}
use git2imap.Service.Refresh.Snapshots.{DistinctBranches}
use git2imap.Service.Refresh.Status.{ready-SameMail, mark-SameMail}
use git2imap.Service.Refresh.Outcome.{refresh-Refreshed}
use git2imap.Service.Refresh.Forward.{refresh-Outcome, Kept-SameMail}
use git2imap.Imap.Session.{Session, Refresh, repo_id, reselect, refresh_at, refresh_selected}

-- The refresh of the service, as a session sees it.
abbrev pub service_refresh : World → Refresh
service_refresh w id db =
    let (e, db') = refresh w id db in (elim e [ none ↦ true | some _ ↦ false ], db')

-- What a client knows a message by.
abbrev pub key : Message → ℕ × Text
key m = (m.uid, m.commit_oid)

-- The messages that the session knew are the first ones, in their places, with their uids.
abbrev pub Keeps : Session → Session → Type 0
Keeps s s' = (new : List (ℕ × Text)) × (map key s'.messages ≡ map key s.messages ++ new)

Keeps-refl : (s : Session) → Keeps s s
Keeps-refl s = ([], sym (append-nil (map key s.messages)))

map-append : (xs ys : List Message) → map key (xs ++ ys) ≡ map key xs ++ map key ys
map-append [] ys = refl
map-append (x ∷ xs) ys = ap (λ l. key x ∷ l) (map-append xs ys)

row-id : (i : ℕ) (ms : List Mailbox) {m : Mailbox} → find (λ o. o.id == i) ms ≡ some m → m.id ≡ i
unfolding find
row-id i [] h = cc
row-id i (x ∷ ms) {m} h = ground (arith, row-id i ms {m = m})

module _ (w : World) (id : Text) (repo : Repository) (m m' : Mailbox) (b : Branch)
    (bs : List Branch) (db : Db) {db' : Db} (apart : AllApart db.mailboxes)
    (le : m.id ≤ db.last_mailbox_id) (at : row m.id db ≡ some m) (mine : m.repository_id ≡ id)
    (there : repository id db ≡ ok repo) (answer : w.git.branches (w.repository_path id) ≡ got bs)
    (distinct : DistinctBranches bs) (seen : find (λ c. beq c.name m.branch) bs ≡ some b)
    (fits : (revision : Text) (cs : List Commit)
      → new_commits w (w.repository_path id) revision ≡ got cs
      → suc m.next_uid + length cs < 2 ^ 32)
    (one : 1 ≤ m.next_uid) (numbered : Numbered m db) (small : m.uid_validity < 2 ^ 32)
    (after : row m.id db' ≡ some m') where
  -- A refresh that succeeds and leaves the UIDVALIDITY as it was puts new messages behind the old.
  refresh-messages :
      refresh w id db ≡ (none, db')
      → m'.uid_validity ≡ m.uid_validity
      → (new : List Message) × (messages m.id db' ≡ messages m.id db ++ new)
  refresh-messages is same =
      let done = refresh-Refreshed w id repo db there is in
      let (s, d, outcome) =
        refresh-Outcome w id repo m b bs db apart le at mine there answer distinct seen fits done in
      let ready =
        ready-SameMail w.ready_at id done.default done.fingerprint done.mid done.after_is in
      elim (Bool-cases (needs_rebuild (mailbox_name done.default s.name) s m)) [
        | inl e ↦
            let rebuilt = some-injective (
              sym (outcome.rebuilt e).at
              ∙ sym (ap (find (λ o. o.id == m.id)) ready.mailboxes)
              ∙ after) in
            absurd (
              next_validity m.uid_validity small
                (ap (λ (x : Mailbox). x.uid_validity) rebuilt ∙ same))
        | inr e ↦
            let kept : Kept m s db' db =
              Kept-SameMail m s ready (mark-SameMail w id repo db) (outcome.kept e) in
            let ascends = Kept-Numbered m s db' db one numbered kept in
            (
              kept.new,
              messages-held m.id db' ascends.ascending
                  ∙ kept.appended
                  ∙ ap (λ ms. ms ++ kept.new) (sym (messages-held m.id db numbered.ascending)),
            )
      ]

  module _ (s : Session) (selected : Mailbox) (account : repo_id s ≡ id)
      (named : selected.name ≡ m.name) (since : selected.uid_validity ≡ m.uid_validity)
      (known : map key s.messages ≡ map key (messages m.id db))
      (leads : mailbox_by_name id m.name db' ≡ ok m') where
    reselect-Keeps : refresh w id db ≡ (none, db') → Keeps s (reselect s selected (ok m') db').1
    reselect-Keeps is = elim (Bool-cases (m'.uid_validity == selected.uid_validity)) [
      | inr e ↦ rw e (Keeps-refl s)
      | inl e ↦
          let (new, appended) = refresh-messages is ((==_iff _ _).0 e ∙ since) in
          let same_id : m'.id ≡ m.id = row-id m.id db'.mailboxes after in
          rw e (
            map key new,
            ap (λ i. map key (messages i db')) same_id
                ∙ ap (map key) appended
                ∙ map-append (messages m.id db) new
                ∙ ap (λ ks. ks ++ map key new) (sym known),
          )
    ]

    refresh_at-Keeps :
        (e : Option RefreshError)
        → refresh w id db ≡ (e, db')
        → Keeps s (refresh_at s (some selected) (elim e [ none ↦ true | some _ ↦ false ]) db').1
    refresh_at-Keeps (some e) is = Keeps-refl s
    refresh_at-Keeps none is = rw (account, named, leads) (reselect-Keeps is)

    -- A session has selected a mailbox, and knows its messages by uid and commit as they are in the
    -- store. Then a poll, whose refresh is that of the service and may end in any way, leaves the
    -- session with the messages that it knew, in their places with their uids and commits, and new
    -- ones only behind them. The account is that of the repository, the session has the name and
    -- the UIDVALIDITY of the row, and after the refresh that name leads to the same row. The rows of
    -- the table are apart in id and branch, the branch of the mailbox is there, the branches of the
    -- mirror have distinct names, the uids of the mailbox are numbered, and there is room in 32
    -- bits.
    pub refresh_selected-refresh :
        {e : Option RefreshError}
        → s.selected ≡ some selected
        → refresh w id db ≡ (e, db')
        → Keeps s (refresh_selected (service_refresh w) s db).1
    unfolding refresh_selected
    refresh_selected-refresh {e} chosen is =
        subst
          (λ r. Keeps s (refresh_at s s.selected (elim r.0 [ none ↦ true | some _ ↦ false ]) r.1).1)
          (sym (ap (λ i. refresh w i db) account ∙ is))
          (subst (λ o. Keeps s (refresh_at s o (elim e [ none ↦ true | some _ ↦ false ]) db').1)
            (sym chosen) (refresh_at-Keeps e is))
