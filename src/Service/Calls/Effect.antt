-- ===== src/Service/Calls/Effect.antt =====
-- internal/service/repository.go: what a step of a thread does to the map of calls.
use git2imap.Base.{ℕ, ◌≡◌, refl, sym, true, Option, none, some, ◌⊎◌, inl, inr, arith}
use git2imap.Service.Calls.{
  Shared, Pc, idle, waiting, checking, marking, fetching, replacing, failing, finished, closing,
  awaiting, Move, begin_refresh, join, lead, woken, gave_up, refused, unreadable, accepted,
  mark_working, fetched, fetch_failed, replaced, not_replaced, not_recorded, record_error,
  close_call, leave, set_deleting, stop_call, no_call, stopped, abandoned, remove_mirror,
  not_removed, not_erased, erase_row,
}

-- The call that a thread works on.
abbrev pub owner : Pc → Option ℕ
owner (checking c) = some c
owner (marking c) = some c
owner (fetching c) = some c
owner (replacing c) = some c
owner (failing c) = some c
owner (finished c) = some c
owner (closing c) = some c
owner _ = none

-- The call that a thread waits for.
abbrev pub awaited : Pc → Option ℕ
awaited (waiting c) = some c
awaited (awaiting c) = some c
awaited _ = none

-- A thread about to clear the map has closed its call.
abbrev pub IsOver : Shared → Pc → Type 0
IsOver m (closing c) = m.done c ≡ true
IsOver m _ = Unit

-- A step that neither makes nor ends a call; a wait that it starts is for the running call.
pub record Quiet (m : Shared) (p : Pc) (m' : Shared) (q : Pc) : Type 0 where
  pub same_owner : owner q ≡ owner p
  pub same_running : m'.running ≡ m.running
  pub waits : (awaited q ≡ none) ⊎ (awaited q ≡ m.running)
  pub grows : (c : ℕ) → m.done c ≡ true → m'.done c ≡ true
  pub over : IsOver m' q

-- A step that starts a call.
pub record Leads (m : Shared) (p : Pc) (m' : Shared) (q : Pc) : Type 0 where
  pub call : ℕ
  pub was_free : m.running ≡ none
  pub now : m'.running ≡ some call
  pub owns : owner q ≡ some call
  pub waits_not : awaited q ≡ none
  pub grows : (c : ℕ) → m.done c ≡ true → m'.done c ≡ true
  pub over : IsOver m' q

-- A step that takes a closed call off the map.
pub record Ends (m : Shared) (p : Pc) (m' : Shared) (q : Pc) : Type 0 where
  pub call : ℕ
  pub owned : owner p ≡ some call
  pub free : m'.running ≡ none
  pub idles : q ≡ idle
  pub grows : (c : ℕ) → m.done c ≡ true → m'.done c ≡ true
  pub closed : m.done call ≡ true

abbrev pub Effect : Shared → Pc → Shared → Pc → Type 0
Effect m p m' q = Quiet m p m' q ⊎ (Leads m p m' q ⊎ Ends m p m' q)

quiet :
    {m : Shared} {p : Pc} {m' : Shared} {q : Pc}
    → owner q ≡ owner p
    → m'.running ≡ m.running
    → m'.done ≡ m.done
    → (awaited q ≡ none) ⊎ (awaited q ≡ m.running)
    → IsOver m' q
    → Effect m p m' q
quiet o r d w v =
    inl (record { same_owner = o; same_running = r; waits = w; grows = λ c h. rw d h; over = v })

pub Move-Effect : {m m' : Shared} {p q : Pc} → Move m p m' q → IsOver m p → Effect m p m' q
Move-Effect begin_refresh v = quiet refl refl refl (inl refl) tt
Move-Effect (join h) v = quiet refl refl refl (inr (sym h)) tt
Move-Effect {m} (lead h) v = inr (
    inl (record {
      call = m.next;
      was_free = h;
      now = refl;
      owns = refl;
      waits_not = refl;
      grows = λ c d. d;
      over = tt;
    }))
Move-Effect (woken h) v = quiet refl refl refl (inl refl) tt
Move-Effect gave_up v = quiet refl refl refl (inl refl) tt
Move-Effect (refused h) v = quiet refl refl refl (inl refl) tt
Move-Effect unreadable v = quiet refl refl refl (inl refl) tt
Move-Effect (accepted h k) v = quiet refl refl refl (inl refl) tt
Move-Effect mark_working v = quiet refl refl refl (inl refl) tt
Move-Effect fetched v = quiet refl refl refl (inl refl) tt
Move-Effect (fetch_failed made) v = quiet refl refl refl (inl refl) tt
Move-Effect replaced v = quiet refl refl refl (inl refl) tt
Move-Effect not_replaced v = quiet refl refl refl (inl refl) tt
Move-Effect not_recorded v = quiet refl refl refl (inl refl) tt
Move-Effect record_error v = quiet refl refl refl (inl refl) tt
Move-Effect {m} (close_call {c}) v = inl (record {
  same_owner = refl;
  same_running = refl;
  waits = inl refl;
  grows = λ k h. ground arith;
  over = ground arith;
})
Move-Effect (leave {c}) v = inr (
    inr
      (record { call = c; owned = refl; free = refl; idles = refl; grows = λ k h. h; closed = v }))
Move-Effect set_deleting v = quiet refl refl refl (inl refl) tt
Move-Effect (stop_call h) v = quiet refl refl refl (inr (sym h)) tt
Move-Effect (no_call h) v = quiet refl refl refl (inl refl) tt
Move-Effect (stopped h) v = quiet refl refl refl (inl refl) tt
Move-Effect abandoned v = quiet refl refl refl (inl refl) tt
Move-Effect remove_mirror v = quiet refl refl refl (inl refl) tt
Move-Effect not_removed v = quiet refl refl refl (inl refl) tt
Move-Effect not_erased v = quiet refl refl refl (inl refl) tt
Move-Effect erase_row v = quiet refl refl refl (inl refl) tt
