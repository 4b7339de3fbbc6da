-- ===== src/Store/Replace/Total.antt =====
-- internal/store/store.go: no statement of `ReplaceMailboxes` meets a UNIQUE clause. Which rows can
-- clash, and when an UPDATE passes its checks.
use git2imap.Base.{
  ◌≡◌, ◌≢◌, refl, sym, ◌∙◌, Bool, true, false, ◌&&◌, inl, inr, List, [], ◌∷◌, ◌++◌, map, append-nil,
  append_assoc, All-implies, All-both, Text, beq, beq_iff, any, any-append, any-none, AllPairs-map,
  arith, All, All-append, Bool-cases,
}
use git2imap.Store.{Mailbox, Db, ok}
use git2imap.Store.Mailboxes.{conflict, update_rows, update_mailboxes}
use git2imap.Store.Replace.Rows.{apply_if}
use git2imap.Store.Replace.Contract.{Apart, AllApart}

-- A changed row clashes with no other row, changed or not.
abbrev pub Clear : (Mailbox → Bool) → (Mailbox → Mailbox) → Mailbox → Mailbox → Type 0
Clear p f r o = p r ≡ true → (conflict (f r) o ≡ false) × (conflict (f r) (apply_if p f o) ≡ false)

-- Each row against all the rows that follow it, both ways.
abbrev pub AllClear : (Mailbox → Bool) → (Mailbox → Mailbox) → List Mailbox → Type 0
AllClear p f [] = Unit
AllClear p f (r ∷ rs) = All (λ o. Clear p f r o × Clear p f o r) rs × AllClear p f rs

module _ (p : Mailbox → Bool) (f : Mailbox → Mailbox) where
  -- `done` holds rows that the statement has been over.
  update_rows_total :
      (done todo : List Mailbox)
      → All (λ t. All (λ d. p t ≡ true → conflict (f t) d ≡ false) done) todo
      → AllClear p f todo
      → update_rows p f done todo ≡ ok (done ++ map (apply_if p f) todo)
  unfolding update_rows
  update_rows_total done [] h clear = rw (append-nil done) refl
  update_rows_total done (r ∷ todo) (h, hs) (c, clear) =
      let row = apply_if p f r in
      let all : All (λ t. All (λ d. p t ≡ true → conflict (f t) d ≡ false) (done ++ row ∷ []))
          todo =
        All-implies _ _ todo (All-both _ _ todo hs c)
          (λ t k. All-append _ done (row ∷ []) k.0 ((λ e. (k.1.1 e).1), tt)) in
      let rest = update_rows_total (done ++ row ∷ []) todo all clear in
      let same : (done ++ row ∷ []) ++ map (apply_if p f) todo
          ≡ done ++ row ∷ map (apply_if p f) todo =
        append_assoc done (row ∷ []) (map (apply_if p f) todo) in
      elim (Bool-cases (p r)) [
        | inl e ↦
            let none_done = any-none (conflict (f r)) done (All-implies _ _ done h (λ d k. k e)) in
            let none_todo =
              any-none (conflict (f r)) todo (All-implies _ _ todo c (λ t k. (k.0 e).0)) in
            let clear_all : any (conflict (f r)) (done ++ todo) ≡ false =
              any-append (conflict (f r)) done todo ∙ rw (none_done, none_todo) refl in
            ground (arith, rest, same, clear_all)
        | inr e ↦ ground (arith, rest, same)
      ]

  -- An UPDATE whose new rows clash with no other row is carried out.
  pub update_mailboxes_total :
      (db : Db)
      → AllClear p f db.mailboxes
      → update_mailboxes p f db ≡ ok (record db { mailboxes = map (apply_if p f) db.mailboxes })
  unfolding update_mailboxes
  update_mailboxes_total db clear =
      rw (update_rows_total [] db.mailboxes (all-nothing db.mailboxes) clear) refl
    where
      all-nothing :
          (ms : List Mailbox) → All (λ t. All (λ d. p t ≡ true → conflict (f t) d ≡ false) []) ms
      all-nothing [] = tt
      all-nothing (m ∷ ms) = (tt, all-nothing ms)

pub Apart-sym : (a b : Mailbox) → Apart a b → Apart b a
Apart-sym a b h = ((λ e. h.0 (sym e)), (λ same e. h.1 (sym same) (sym e)))

-- The two UNIQUE clauses.
pub conflict_none :
    (a b : Mailbox)
    → (a.repository_id ≡ b.repository_id → (a.branch ≢ b.branch) × (a.name ≢ b.name))
    → conflict a b ≡ false
unfolding conflict
conflict_none a b h = elim (Bool-cases (beq a.repository_id b.repository_id)) [
  | inl e ↦
      let (ne, other) = h ((beq_iff a.repository_id b.repository_id).0 e) in
      rw (ne_beq a.branch b.branch ne, ne_beq a.name b.name other) (&&-false _)
  | inr e ↦ rw e refl
]
  where
    ne_beq : (s t : Text) → s ≢ t → beq s t ≡ false
    ne_beq s t ne = elim (Bool-cases (beq s t)) [
      | inl e ↦ absurd (ne ((beq_iff s t).0 e))
      | inr e ↦ e
    ]

    &&-false : (b : Bool) → (b && false) ≡ false
    &&-false true = refl
    &&-false false = refl

module _ (p : Mailbox → Bool) (f : Mailbox → Mailbox) (Q : Mailbox → Type 0)
    (apart_clear : (r o : Mailbox) → Q r → Q o → Apart r o → Clear p f r o) where
  pub Apart-AllClear : (ms : List Mailbox) → AllApart ms → All Q ms → AllClear p f ms
  Apart-AllClear [] apart h = tt
  Apart-AllClear (m ∷ ms) (a, apart) (h, hs) = (
    All-implies _ _ ms (All-both _ _ ms a hs)
        (λ o k. (apart_clear m o h k.1 k.0, apart_clear o m k.1 h (Apart-sym m o k.0))),
    Apart-AllClear ms apart hs,
  )

-- A change of other columns keeps the rows apart.
module _ (g : Mailbox → Mailbox)
    (keeps : (r : Mailbox)
      → ((g r).id ≡ r.id)
        × ((g r).repository_id ≡ r.repository_id)
        × ((g r).branch ≡ r.branch)) where
  Apart-map : (a b : Mailbox) → Apart a b → Apart (g a) (g b)
  Apart-map a b h =
      let (a_id, a_repository, a_branch) = keeps a in
      let (b_id, b_repository, b_branch) = keeps b in
      (
        (λ e. h.0 (sym a_id ∙ e ∙ b_id)),
        (λ same e. h.1 (sym a_repository ∙ same ∙ b_repository) (sym a_branch ∙ e ∙ b_branch)),
      )

  pub AllApart-map : (ms : List Mailbox) → AllApart ms → AllApart (map g ms)
  AllApart-map ms = AllPairs-map Apart g ms Apart-map
