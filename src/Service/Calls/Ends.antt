-- ===== src/Service/Calls/Ends.antt =====
-- internal/service/repository.go: a call ends after a few steps of its thread.
use git2imap.Base.{
  ℕ, suc, ◌+◌, refl, Option, none, ◌≤◌, ◌<◌, ◌≡◌, ◌≢◌, ap, ◌∙◌, true, some, ◌⊎◌, inl, inr, arith,
  ==_refl, ==_iff,
}
use git2imap.Service.Calls.{
  Status, pending, working, ready, failed, deleting, Shared, Pc, idle, checking, marking, fetching,
  replacing, failing, finished, closing, Move, refused, unreadable, accepted, mark_working, fetched,
  fetch_failed, replaced, not_replaced, not_recorded, record_error, close_call, leave, System, Step,
  move, Reach,
}
use git2imap.Service.Calls.Effect.{owner, IsOver, Move-Effect}
use git2imap.Service.Calls.Invariant.{Inv, Step-Inv, Reach-Inv}

-- How many steps a thread is at most away from closing its call, less one.
abbrev rank : Pc → ℕ
rank (checking c) = 5
rank (marking c) = 4
rank (fetching c) = 3
rank (replacing c) = 2
rank (failing c) = 1
rank _ = 0

-- A step that a thread can take.
abbrev Next : Shared → Pc → Type 0
Next m p = (m' : Shared) × (q : Pc) × Move m p m' q

abbrev Nearer : ℕ → Shared → Pc → Pc → Type 0
Nearer c m p q = (m.done c ≡ true) ⊎ ((owner q ≡ some c) × (rank q < rank p))

Move-Nearer :
    {m m' : Shared} {p q : Pc} (c : ℕ)
    → Move m p m' q
    → IsOver m p
    → owner p ≡ some c
    → Nearer c m' p q
Move-Nearer c (refused h) v o = inr (o, omega arith)
Move-Nearer c unreadable v o = inr (o, omega arith)
Move-Nearer c (accepted h k) v o = inr (o, omega arith)
Move-Nearer c mark_working v o = inr (o, omega arith)
Move-Nearer c fetched v o = inr (o, omega arith)
Move-Nearer c (fetch_failed made) v o = inr (o, omega arith)
Move-Nearer c replaced v o = inr (o, omega arith)
Move-Nearer c not_replaced v o = inr (o, omega arith)
Move-Nearer c not_recorded v o = inr (o, omega arith)
Move-Nearer c record_error v o = inr (o, omega arith)
Move-Nearer c (close_call {c = d}) v o = inl (ground arith)
Move-Nearer c (leave {c = d}) v o = inl (cc (v, o))
Move-Nearer c _ v o = cc (o)

-- `n` steps of one thread, with steps of other threads between them at will.
pub data Takes (i : ℕ) : ℕ → System → System → Type 0 where
  none_left : {s : System} → Takes i 0 s s
  own : {n : ℕ} {s t u : System} → Step i s t → Takes i n t u → Takes i (suc n) s u
  other : {n j : ℕ} {s t u : System} → j ≢ i → Step j s t → Takes i n t u → Takes i n s u

-- A closed call stays closed.
Step-done :
    {i c : ℕ} {s t : System}
    → Step i s t
    → Inv s.shared s.pc
    → s.shared.done c ≡ true
    → t.shared.done c ≡ true
Step-done {i} {c} (move mv) inv h = elim (Move-Effect mv (inv.over i)) [
  | inl e ↦ e.grows c h
  | inr (inl e) ↦ e.grows c h
  | inr (inr e) ↦ e.grows c h
]

Takes-done :
    {i n c : ℕ} {s t : System}
    → Takes i n s t
    → Inv s.shared s.pc
    → s.shared.done c ≡ true
    → t.shared.done c ≡ true
Takes-done none_left inv h = h
Takes-done {i} (own st more) inv h = Takes-done more (Step-Inv i st inv) (Step-done st inv h)
Takes-done (other {j = j} ne st more) inv h =
    Takes-done more (Step-Inv j st inv) (Step-done st inv h)

-- A step of another thread leaves a thread where it stands.
Step-other : {i j : ℕ} {s t : System} → j ≢ i → Step j s t → t.pc i ≡ s.pc i
Step-other {i} {j} ne (move mv) = ground (arith, ne, ==_iff i j)

Step-own :
    {i c : ℕ} {s t : System}
    → Step i s t
    → Inv s.shared s.pc
    → owner (s.pc i) ≡ some c
    → Nearer c t.shared (s.pc i) (t.pc i)
Step-own {i} {c} {s} (move {m} {p} mv) inv o = rw (==_refl i) (Move-Nearer c mv (inv.over i) o)

-- Its thread still works on the call, and has come nearer to closing it.
abbrev Working : ℕ → ℕ → ℕ → Pc → System → Type 0
Working i c n p t = (owner (t.pc i) ≡ some c) × (n + rank (t.pc i) ≤ rank p)

Takes_lem :
    {i n c : ℕ} {s t : System}
    → Takes i n s t
    → Inv s.shared s.pc
    → owner (s.pc i) ≡ some c
    → (t.shared.done c ≡ true) ⊎ Working i c n (s.pc i) t
Takes_lem none_left inv o = inr (o, omega arith)
Takes_lem {i} (own st more) inv o = elim (Step-own st inv o) [
  | inl closed ↦ inl (Takes-done more (Step-Inv i st inv) closed)
  | inr (o', less) ↦ elim (Takes_lem more (Step-Inv i st inv) o') [
    | inl closed ↦ inl closed
    | inr (still, few) ↦ inr (still, omega (arith, few, less))
  ]
]
Takes_lem (other {j = j} ne st more) inv o =
    let same = Step-other ne st in
    rw same at (Takes_lem more (Step-Inv j st inv) (ap owner same ∙ o))

rank-le : (p : Pc) → rank p ≤ 5
rank-le (checking c) = omega arith
rank-le _ = omega arith

-- A refresh that reads its row finds it gone or being deleted, or goes on.
checking-Next : (m : Shared) (c : ℕ) (row : Option Status) → m.row ≡ row → Next m (checking c)
checking-Next m c none e = (m, finished c, refused (inl e))
checking-Next m c (some deleting) e = (m, finished c, refused (inr e))
checking-Next m c (some pending) e = (m, marking c, accepted e (λ h. cc h))
checking-Next m c (some working) e = (m, marking c, accepted e (λ h. cc h))
checking-Next m c (some ready) e = (m, marking c, accepted e (λ h. cc h))
checking-Next m c (some failed) e = (m, marking c, accepted e (λ h. cc h))

-- No thread that works on a call is stuck.
owner-Next : (m : Shared) (p : Pc) {c : ℕ} → owner p ≡ some c → Next m p
owner-Next m (checking c) o = checking-Next m c m.row refl
owner-Next m (marking c) o = (_, fetching c, mark_working)
owner-Next m (fetching c) o = (_, replacing c, fetched)
owner-Next m (replacing c) o = (_, finished c, replaced)
owner-Next m (failing c) o = (_, finished c, record_error)
owner-Next m (finished c) o = (_, closing c, close_call)
owner-Next m (closing c) o = (_, idle, leave)
owner-Next m _ o = cc (o)

-- Every refresh ends. Whichever steps a thread takes that works on a call, and whatever the other
-- threads do in between, the call is then closed, or the thread has taken fewer than six steps and
-- can take a further one. All runs of git of a refresh with the loop over the branches are one step,
-- and so is ReplaceMailboxes with the last write of the status.
pub refresh_ends :
    {s t : System}
    → Reach s
    → (i c n : ℕ) → owner (s.pc i) ≡ some c
    → Takes i n s t
    → (t.shared.done c ≡ true) ⊎ ((n < 6) × ((u : System) × Step i t u))
refresh_ends {s} {t} r i c n o taken = elim (Takes_lem taken (Reach-Inv r) o) [
  | inl closed ↦ inl closed
  | inr (still, few) ↦
      let (m, p, mv) = owner-Next t.shared (t.pc i) still in
      inr (omega (arith, few, rank-le (s.pc i)), (_, move mv))
]
