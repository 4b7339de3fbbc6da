-- ===== src/Store/Replace/Stage.antt =====
-- internal/store/store.go: the rows of the table `mailboxes` while `ReplaceMailboxes` is in its loop
-- over the branches, and that its statements are carried out there.
use git2imap.Base.{
  ℕ, ◌≤◌, ◌≡◌, ◌≢◌, refl, sym, ap, ◌∙◌, Bool, true, false, ◌&&◌, ◌||◌, ◌⊎◌, inl, inr, some, List,
  map, Text, beq, beq_iff, any, ◌==◌, arith, All, All-implies, All-both, All-map, any-map, subst,
  Bool-cases,
}
use git2imap.Store.{Mailbox, Db, ok}
use git2imap.Store.Mailboxes.{conflict, update_mailboxes}
use git2imap.Store.Replace.{mailbox_name, updating_name, old_mailbox}
use git2imap.Store.Replace.Names.{mailbox_name-injective, mailbox_name-≢-updating_name}
use git2imap.Store.Replace.Rows.{apply_if}
use git2imap.Store.Replace.Contract.{Apart, AllApart}
use git2imap.Store.Replace.Total.{
  Clear, update_mailboxes_total, conflict_none, Apart-AllClear, AllApart-map,
}

-- No mailbox is left under a name that only the transaction uses.
abbrev pub Settled : Mailbox → Type 0
Settled r = (i : ℕ) → r.name ≢ updating_name i

-- The branch of the loop's round is over, too.
abbrev pub mark : Text → (Text → Bool) → Text → Bool
mark x processed y = beq x y || processed y

-- The mailbox of a repository for a branch.
abbrev pub at : Text → Text → Mailbox → Bool
at repo_id y r = beq r.repository_id repo_id && beq r.branch y

module _ (repo_id default : Text) (existing : List Mailbox) where
  -- A mailbox of the repository has its final name if the loop has been over its branch, and
  -- waits under the name of its id if not.
  abbrev pub Named : (Text → Bool) → Mailbox → Type 0
  Named processed r =
      ((r.name ≡ mailbox_name default r.branch) × (processed r.branch ≡ true))
      ⊎ ((r.name ≡ updating_name r.id)
          × (processed r.branch ≡ false)
          × ((o : Mailbox) × (old_mailbox r.branch existing ≡ some o) × (o.id ≡ r.id)))

  pub record Fact (processed : Text → Bool) (last : ℕ) (r : Mailbox) : Type 0 where
    pub below : r.id ≤ last
    pub named : r.repository_id ≡ repo_id → Named processed r
    pub settled : r.repository_id ≢ repo_id → Settled r
    pub owned :
        All (λ o. o.id ≡ r.id → (r.repository_id ≡ repo_id) × (r.branch ≡ o.branch)) existing

  pub record Stage (processed : Text → Bool) (db : Db) : Type 0 where
    pub apart : AllApart db.mailboxes
    pub facts : All (Fact processed db.last_mailbox_id) db.mailboxes
    pub older : All (λ o. o.id ≤ db.last_mailbox_id) existing
    pub present :
        (y : Text)
        → (processed y || any (λ o. beq o.branch y) existing) ≡ true
        → any (at repo_id y) db.mailboxes ≡ true
    pub repository : any (λ r. beq r.id repo_id) db.repositories ≡ true

  -- The row with id `i` is the mailbox of branch `x`.
  pub record Ready (i : ℕ) (x : Text) (processed : Text → Bool) (db : Db) : Type 0 where
    pub stage : Stage processed db
    pub target : All (λ r. r.id ≡ i → (r.repository_id ≡ repo_id) × (r.branch ≡ x)) db.mailboxes
    pub known : (o : Mailbox) → old_mailbox x existing ≡ some o → o.id ≡ i
    pub there : any (at repo_id x) db.mailboxes ≡ true

  -- A round of the loop changes nothing for a row of another branch.
  pub Named-mark :
      (x : Text) (processed : Text → Bool) (r : Mailbox)
      → ((o : Mailbox) → old_mailbox x existing ≡ some o → o.id ≢ r.id)
      → Named processed r
      → Named (mark x processed) r
  Named-mark x processed r other (inl (n, t)) = inl (n, ground arith)
  Named-mark x processed r other (inr (n, w, (o, old, same))) =
      let ne : beq x r.branch ≡ false = elim (Bool-cases (beq x r.branch)) [
        | inl e ↦ absurd (
            other o
              (subst (λ b. old_mailbox b existing ≡ some o) (sym ((beq_iff x r.branch).0 e)) old)
              same)
        | inr e ↦ e
      ] in
      inr (n, ground arith, (o, old, same))

  -- The statements `UPDATE mailboxes SET name=?,… WHERE id=?`.
  module _ (i : ℕ) (x : Text) (processed : Text → Bool) (f : Mailbox → Mailbox)
      (keeps : (r : Mailbox)
        → ((f r).id ≡ r.id)
          × ((f r).repository_id ≡ r.repository_id)
          × ((f r).branch ≡ r.branch)
          × ((f r).name ≡ mailbox_name default x)) where
    abbrev p : Mailbox → Bool
    p r = r.id == i

    abbrev g : Mailbox → Mailbox
    g = apply_if p f

    abbrev Target : Mailbox → Type 0
    Target r = r.id ≡ i → (r.repository_id ≡ repo_id) × (r.branch ≡ x)

    renamed-Clear :
        (last : ℕ) (r o : Mailbox)
        → Fact processed last r × Target r
        → Fact processed last o × Target o
        → Apart r o
        → Clear p f r o
    renamed-Clear last r o h k apart is =
        let id : r.id ≡ i = ground arith in
        let (mine, branch) = h.1 id in
        let (f_id, f_repository, f_branch, f_name) = keeps r in
        let plain : conflict (f r) o ≡ false = conflict_none (f r) o (λ same.
          let alike : r.repository_id ≡ o.repository_id = sym f_repository ∙ same in
          (
            (λ e. apart.1 alike (sym f_branch ∙ e)),
            (λ e. elim (k.0.named (sym alike ∙ mine)) [
              | inl (n, t) ↦
                  apart.1 alike
                    (branch ∙ mailbox_name-injective default x o.branch (sym f_name ∙ e ∙ n))
              | inr (n, t, w) ↦ mailbox_name-≢-updating_name default x o.id (sym f_name ∙ e ∙ n)
            ]),
          )) in
        let other : p o ≡ false = ground (arith, apart.0) in (plain, rw other plain)

    Fact-renamed :
        (last : ℕ) (r : Mailbox)
        → ((o : Mailbox) → old_mailbox x existing ≡ some o → o.id ≡ i)
        → Fact processed last r × Target r
        → Fact (mark x processed) last (g r)
    Fact-renamed last r known (h, t) = elim (Bool-cases (p r)) [
      | inl e ↦
          let id : r.id ≡ i = ground arith in
          let (mine, branch) = t id in
          let (f_id, f_repository, f_branch, f_name) = keeps r in
          let over : mark x processed (f r).branch ≡ true =
            ground (arith, f_branch, branch, beq_iff x (f r).branch) in
          rw e (record {
            below = omega (arith, h.below, f_id);
            named =
                λ same. inl (f_name ∙ ap (mailbox_name default) (sym (f_branch ∙ branch)), over);
            settled = λ same. absurd (same (f_repository ∙ mine));
            owned =
                All-implies _ _ existing h.owned
                  (λ o k is. let (a, b) = k (is ∙ f_id) in (f_repository ∙ a, f_branch ∙ b));
          })
      | inr e ↦
          let ne : r.id ≢ i = ground arith in
          rw e (record {
            below = h.below;
            named = λ same.
                Named-mark x processed r (λ o old k. ne (sym k ∙ known o old)) (h.named same);
            settled = h.settled;
            owned = h.owned;
          })
    ]

    g_keeps :
        (r : Mailbox)
        → ((g r).id ≡ r.id) × ((g r).repository_id ≡ r.repository_id) × ((g r).branch ≡ r.branch)
    g_keeps r = elim (Bool-cases (p r)) [
      | inl e ↦ let (a, b, c, d) = keeps r in rw e (a, b, c)
      | inr e ↦ rw e (refl, refl, refl)
    ]

    at-g : (y : Text) (r : Mailbox) → at repo_id y (g r) ≡ at repo_id y r
    at-g y r = let (a, b, c) = g_keeps r in rw (b, c) refl

    -- The statement is carried out, and the branch of the mailbox is over.
    pub Ready-update :
        (db : Db)
        → Ready i x processed db
        → (d : Db) × (update_mailboxes p f db ≡ ok d) × Ready i x (mark x processed) d
    Ready-update db h =
        let rows = All-both _ _ db.mailboxes h.stage.facts h.target in
        let clear =
          Apart-AllClear p f _ (renamed-Clear db.last_mailbox_id) db.mailboxes h.stage.apart rows in
        let there' : any (at repo_id x) (map g db.mailboxes) ≡ true =
          any-map (at repo_id x) g db.mailboxes (at-g x) ∙ h.there in
        (
          record db { mailboxes = map g db.mailboxes },
          update_mailboxes_total p f db clear,
          record {
            stage = record {
              apart = AllApart-map g g_keeps db.mailboxes h.stage.apart;
              facts =
                  All-map _ _ g db.mailboxes rows (λ r. Fact-renamed db.last_mailbox_id r h.known);
              older = h.stage.older;
              present = λ y e. elim (Bool-cases (beq x y)) [
                | inl k ↦
                    subst (λ z. any (at repo_id z) (map g db.mailboxes) ≡ true) ((beq_iff x y).0 k)
                      there'
                | inr k ↦
                    any-map (at repo_id y) g db.mailboxes (at-g y) ∙ h.stage.present y (rw k at e)
              ];
              repository = h.stage.repository;
            };
            target = All-map _ _ g db.mailboxes h.target (λ r t is.
                let (a, b, c) = g_keeps r in let (m, n) = t (sym a ∙ is) in (b ∙ m, c ∙ n));
            known = h.known;
            there = there';
          },
        )
