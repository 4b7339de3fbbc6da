-- ===== src/Service/Calls/Invariant.antt =====
-- internal/service/repository.go: at most one refresh of a repository works at a time.
use git2imap.Base.{
  ℕ, ◌≡◌, refl, sym, ap, subst, ◌∙◌, true, none, some, ◌⊎◌, inl, inr, ◌==◌, ==_iff, ==_refl, ◌≢◌,
  Bool-cases,
}
use git2imap.Service.Calls.{Shared, Pc, closing, System, put, Step, move, start, Reach, here, later}
use git2imap.Service.Calls.Effect.{owner, awaited, IsOver, Quiet, Leads, Ends, Move-Effect}

-- What holds of the shared state and the threads at any time. A call on the map has a thread that
-- works on it, the only one that works at all; and whoever waits, waits for a call that is closed or
-- has such a thread.
pub record Inv (m : Shared) (pc : ℕ → Pc) : Type 0 where
  pub owned : (i c : ℕ) → owner (pc i) ≡ some c → m.running ≡ some c
  pub single : (i j c d : ℕ) → owner (pc i) ≡ some c → owner (pc j) ≡ some d → i ≡ j
  pub held : (c : ℕ) → m.running ≡ some c → (j : ℕ) × (owner (pc j) ≡ some c)
  pub served :
      (i c : ℕ) → awaited (pc i) ≡ some c → (m.done c ≡ true) ⊎ ((j : ℕ) × (owner (pc j) ≡ some c))
  pub over : (i : ℕ) → IsOver m (pc i)

start-Inv : Inv start.shared start.pc
start-Inv = record {
  owned = λ i c h. cc h;
  single = λ i j c d h k. cc h;
  held = λ c h. cc h;
  served = λ i c h. cc h;
  over = λ i. tt;
}

-- After a step of thread `i` a thread is `i`, where the step led, or stands where it stood.
put-cases :
    (pc : ℕ → Pc) (i : ℕ) (q : Pc) (k : ℕ) → ((k ≡ i) × (put pc i q k ≡ q)) ⊎ (put pc i q k ≡ pc k)
put-cases pc i q k = elim (Bool-cases (k == i)) [
  | inl e ↦ inl ((==_iff k i).0 e, rw e refl)
  | inr e ↦ inr (rw e refl)
]

-- A closed call stays closed, so that a thread that was about to clear the map still is right.
IsOver-grows :
    (m m' : Shared) (p : Pc)
    → ((c : ℕ) → m.done c ≡ true → m'.done c ≡ true)
    → IsOver m p
    → IsOver m' p
IsOver-grows m m' (closing c) grows h = grows c h
IsOver-grows m m' _ grows h = tt

module _ (m m' : Shared) (pc : ℕ → Pc) (i : ℕ) (q : Pc) (inv : Inv m pc) where
  IsOver-all :
      ((c : ℕ) → m.done c ≡ true → m'.done c ≡ true)
      → IsOver m' q
      → (k : ℕ) → IsOver m' (put pc i q k)
  IsOver-all grows v k = elim (put-cases pc i q k) [
    | inl (_, e) ↦ rw e v
    | inr e ↦ rw e (IsOver-grows m m' (pc k) grows (inv.over k))
  ]

  Quiet-owner : Quiet m (pc i) m' q → (k : ℕ) → owner (put pc i q k) ≡ owner (pc k)
  Quiet-owner e k = elim (put-cases pc i q k) [
    | inl (same, there) ↦ ap owner there ∙ e.same_owner ∙ ap (λ x. owner (pc x)) (sym same)
    | inr there ↦ ap owner there
  ]

  Quiet-served :
      (e : Quiet m (pc i) m' q) (k c : ℕ)
      → awaited (put pc i q k) ≡ some c
      → (m'.done c ≡ true) ⊎ ((j : ℕ) × (owner (put pc i q j) ≡ some c))
  Quiet-served e k c h = elim (put-cases pc i q k) [
    | inl (_, there) ↦ elim e.waits [
      | inl no_wait ↦ cc
      | inr running ↦
          let (j, o) = inv.held c (sym running ∙ sym (ap awaited there) ∙ h) in
          inr (j, Quiet-owner e j ∙ o)
    ]
    | inr there ↦ elim (inv.served k c (sym (ap awaited there) ∙ h)) [
      | inl closed ↦ inl (e.grows c closed)
      | inr (j, o) ↦ inr (j, Quiet-owner e j ∙ o)
    ]
  ]

  Quiet-Inv : Quiet m (pc i) m' q → Inv m' (put pc i q)
  Quiet-Inv e = record {
    owned = λ k c h. e.same_running ∙ inv.owned k c (sym (Quiet-owner e k) ∙ h);
    single =
        λ k j c d h l. inv.single k j c d (sym (Quiet-owner e k) ∙ h) (sym (Quiet-owner e j) ∙ l);
    held = λ c h. let (j, o) = inv.held c (sym e.same_running ∙ h) in (j, Quiet-owner e j ∙ o);
    served = Quiet-served e;
    over = IsOver-all e.grows e.over;
  }

  -- Nobody works while the map has no call.
  unowned : m.running ≡ none → (k c : ℕ) → owner (pc k) ≢ some c
  unowned free k c h = cc (inv.owned k c h)

  Leads-owner :
      (e : Leads m (pc i) m' q) (k c : ℕ) → owner (put pc i q k) ≡ some c → (k ≡ i) × (c ≡ e.call)
  Leads-owner e k c h = elim (put-cases pc i q k) [
    | inl (same, there) ↦ (same, cc (e.owns, ap owner there))
    | inr there ↦ absurd (unowned e.was_free k c (sym (ap owner there) ∙ h))
  ]

  Leads-served :
      (e : Leads m (pc i) m' q) (k c : ℕ)
      → awaited (put pc i q k) ≡ some c
      → (m'.done c ≡ true) ⊎ ((j : ℕ) × (owner (put pc i q j) ≡ some c))
  Leads-served e k c h = elim (put-cases pc i q k) [
    | inl (_, there) ↦ cc (e.waits_not, ap awaited there)
    | inr there ↦ elim (inv.served k c (sym (ap awaited there) ∙ h)) [
      | inl closed ↦ inl (e.grows c closed)
      | inr (j, o) ↦ absurd (unowned e.was_free j c o)
    ]
  ]

  put_self : put pc i q i ≡ q
  put_self = rw (==_refl i)

  Leads-Inv : Leads m (pc i) m' q → Inv m' (put pc i q)
  Leads-Inv e = record {
    owned = λ k c h. e.now ∙ ap some (sym (Leads-owner e k c h).1);
    single = λ k j c d h l. (Leads-owner e k c h).0 ∙ sym (Leads-owner e j d l).0;
    held = λ c h. (i, ap owner put_self ∙ e.owns ∙ sym e.now ∙ h);
    served = Leads-served e;
    over = IsOver-all e.grows e.over;
  }

  -- When a call ends nobody works on.
  Ends-owner : Ends m (pc i) m' q → (k c : ℕ) → owner (put pc i q k) ≢ some c
  Ends-owner e k c h = elim (put-cases pc i q k) [
    | inl (_, there) ↦ cc (ap owner there, ap owner e.idles)
    | inr there ↦
        let same : k ≡ i = inv.single k i c e.call (sym (ap owner there) ∙ h) e.owned in
        cc (ap owner (ap (put pc i q) same ∙ put_self), ap owner e.idles)
  ]

  Ends-served :
      (e : Ends m (pc i) m' q) (k c : ℕ)
      → awaited (put pc i q k) ≡ some c
      → (m'.done c ≡ true) ⊎ ((j : ℕ) × (owner (put pc i q j) ≡ some c))
  Ends-served e k c h = elim (put-cases pc i q k) [
    | inl (_, there) ↦ cc (ap awaited there, ap awaited e.idles)
    | inr there ↦ elim (inv.served k c (sym (ap awaited there) ∙ h)) [
      | inl closed ↦ inl (e.grows c closed)
      | inr (j, o) ↦
          let mine : j ≡ i = inv.single j i c e.call o e.owned in
          let call : e.call ≡ c = cc (e.owned, o, ap (λ x. owner (pc x)) mine) in
          inl (e.grows c (subst (λ x. m.done x ≡ true) call e.closed))
    ]
  ]

  Ends-Inv : Ends m (pc i) m' q → Inv m' (put pc i q)
  Ends-Inv e = record {
    owned = λ k c h. absurd (Ends-owner e k c h);
    single = λ k j c d h l. absurd (Ends-owner e k c h);
    held = λ c h. cc (e.free);
    served = Ends-served e;
    over = IsOver-all e.grows (rw e.idles tt);
  }

pub Step-Inv : (i : ℕ) {s t : System} → Step i s t → Inv s.shared s.pc → Inv t.shared t.pc
Step-Inv i {s} (move {m} {p} mv) inv = elim (Move-Effect mv (inv.over i)) [
  | inl e ↦ Quiet-Inv s.shared m s.pc i p inv e
  | inr (inl e) ↦ Leads-Inv s.shared m s.pc i p inv e
  | inr (inr e) ↦ Ends-Inv s.shared m s.pc i p inv e
]

pub Reach-Inv : {s : System} → Reach s → Inv s.shared s.pc
Reach-Inv here = start-Inv
Reach-Inv (later i r st) = Step-Inv i st (Reach-Inv r)

-- However refreshes and deletions of a repository run into one another, two threads never work on
-- its mirror and its mailboxes at the same time: of all threads that are in `refresh` or that have
-- not yet taken their call off the map there is one, and its call is the one on the map.
pub single_refresh :
    {s : System}
    → Reach s
    → (i j c d : ℕ) → owner (s.pc i) ≡ some c
    → owner (s.pc j) ≡ some d
    → (i ≡ j) × (s.shared.running ≡ some c)
single_refresh r i j c d h k = let inv = Reach-Inv r in (inv.single i j c d h k, inv.owned i c h)
