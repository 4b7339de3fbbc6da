-- ===== src/Service/Refresh/Snapshots.antt =====
-- internal/service/repository.go: the snapshots that `refresh` makes of the branches.
use git2imap.Base.{
  ◌≡◌, ◌≢◌, refl, sym, ap, subst, Bool, not, ◌&&◌, some, List, [], ◌∷◌, map, Text, beq, find, All,
  arith, Bool-cases, inl, inr,
}
use git2imap.Store.{Mailbox, BranchSnapshot}
use git2imap.Store.Replace.{old_mailbox}
use git2imap.Store.Replace.Outcome.{DistinctNames}
use git2imap.Git.{Branch, Answer, Commit, failed, got}
use git2imap.Service.Refresh.{
  World, snapshot_of, commit_snapshot, ancestor, mapping_changed, revision, new_commits, snapshot,
  snapshots,
}

-- No two branches of the mirror have one name.
abbrev pub DistinctBranches : List Branch → Type 0
DistinctBranches [] = Unit
DistinctBranches (b ∷ bs) = All (λ c. c.name ≢ b.name) bs × DistinctBranches bs

pub got-eq {ℓ} : {A : Type ℓ} {x y : A} → got x ≡ got y → x ≡ y
got-eq {x = x} h = ap (λ a. elim a [ failed m ↦ x | got z ↦ z ]) h

module _ (w : World) (path old_default default : Text) (existing : List Mailbox) where
  -- What a snapshot says of its branch.
  pub record Describes (s : BranchSnapshot) (b : Branch) : Type 0 where
    pub name : s.name ≡ b.name
    pub head_oid : s.head_oid ≡ b.oid
    pub fast_forward : s.fast_forward ≡ (
        ancestor w path (old_mailbox b.name existing) b
        && not (mapping_changed w old_default default b.name))
    pub commits : List Commit
    pub commits_are :
        new_commits w path (revision w s.fast_forward (old_mailbox b.name existing) b) ≡ got commits
    pub new_commits : s.new_commits ≡ map commit_snapshot commits

  snapshot_of-Describes :
      (b : Branch) (a : Answer (List Commit)) {s : BranchSnapshot} {forward : Bool}
      → forward ≡ (
          ancestor w path (old_mailbox b.name existing) b
          && not (mapping_changed w old_default default b.name))
      → new_commits w path (revision w forward (old_mailbox b.name existing) b) ≡ a
      → snapshot_of w forward b a ≡ got s
      → Describes s b
  snapshot_of-Describes b (failed m) is e h = cc
  snapshot_of-Describes b (got cs) {s} {forward} is e h =
      subst (λ t. Describes t b) (got-eq h)
        (record {
          name = refl;
          head_oid = refl;
          fast_forward = is;
          commits = cs;
          commits_are = e;
          new_commits = refl;
        })

  snapshot-Describes :
      (b : Branch) {s : BranchSnapshot}
      → snapshot w path old_default default existing b ≡ got s
      → Describes s b
  unfolding snapshot
  snapshot-Describes b h = snapshot_of-Describes b _ refl refl h

  snapshots-cons :
      (b : Branch) (bs : List Branch) {ss : List BranchSnapshot}
      → snapshots w path old_default default existing (b ∷ bs) ≡ got ss
      → (s : BranchSnapshot) × (rest : List BranchSnapshot) × Describes s b
        × (snapshots w path old_default default existing bs ≡ got rest)
        × (ss ≡ s ∷ rest)
  unfolding snapshots
  snapshots-cons b bs {ss} h =
      go (snapshot w path old_default default existing b)
        (snapshots w path old_default default existing bs) refl refl h
    where
      go :
          (a : Answer BranchSnapshot) (r : Answer (List BranchSnapshot))
          → snapshot w path old_default default existing b ≡ a
          → snapshots w path old_default default existing bs ≡ r
          → elim a [
            | failed m ↦ failed m
            | got s ↦ elim r [ failed m ↦ failed m | got ss ↦ got (s ∷ ss) ]
          ]
            ≡ got ss
          → (s : BranchSnapshot) × (rest : List BranchSnapshot) × Describes s b
            × (snapshots w path old_default default existing bs ≡ got rest)
            × (ss ≡ s ∷ rest)
      go (failed m) r e f k = cc
      go (got s) (failed m) e f k = cc
      go (got s) (got rest) e f k = (s, rest, snapshot-Describes b e, f, sym (got-eq k))

  -- The names are those of the branches.
  snapshots-All :
      (P : Text → Type 0) (bs : List Branch) {ss : List BranchSnapshot}
      → snapshots w path old_default default existing bs ≡ got ss
      → All (λ c. P c.name) bs
      → All (λ c. P c.name) ss
  unfolding snapshots
  snapshots-All P [] h k = subst (All (λ c. P c.name)) (got-eq h) tt
  snapshots-All P (b ∷ bs) h (k, ks) =
      let (s, rest, d, e, is) = snapshots-cons b bs h in
      subst (All (λ c. P c.name)) (sym is) (subst P (sym d.name) k, snapshots-All P bs e ks)

  pub snapshots-DistinctNames :
      (bs : List Branch) {ss : List BranchSnapshot}
      → snapshots w path old_default default existing bs ≡ got ss
      → DistinctBranches bs
      → DistinctNames ss
  unfolding snapshots
  snapshots-DistinctNames [] h k = subst DistinctNames (got-eq h) tt
  snapshots-DistinctNames (b ∷ bs) h (k, ks) =
      let (s, rest, d, e, is) = snapshots-cons b bs h in
      subst DistinctNames (sym is) (
        subst (λ x. All (λ c. c.name ≢ x) rest) (sym d.name)
            (snapshots-All (λ x. x ≢ b.name) bs e k),
        snapshots-DistinctNames bs e ks,
      )

  pub snapshots-find :
      (x : Text) (bs : List Branch) {ss : List BranchSnapshot} {b : Branch}
      → snapshots w path old_default default existing bs ≡ got ss
      → find (λ c. beq c.name x) bs ≡ some b
      → (s : BranchSnapshot) × (find (λ c. beq c.name x) ss ≡ some s) × Describes s b
  unfolding find
  snapshots-find x [] h k = cc
  snapshots-find x (c ∷ bs) {ss} {b} h k =
      let (s, rest, d, e, is) = snapshots-cons c bs h in
      rw is (elim (Bool-cases (beq c.name x)) [
        | inl t ↦
            let same : c ≡ b = ground arith in (s, rw (d.name, t) refl, subst (Describes s) same d)
        | inr t ↦
            let (s', f, d') = snapshots-find x bs {b = b} e (rw t at k) in
            (s', rw (d.name, t) f, d')
      ])
