-- ===== src/Service/Calls/Served.antt =====
-- internal/service/repository.go: nobody waits in vain for a call.
use git2imap.Base.{ℕ, ◌≡◌, refl, sym, subst, true, some, ◌⊎◌, inl, inr, ==_refl}
use git2imap.Service.Calls.{
  Shared, Pc, checking, marking, fetching, replacing, failing, finished, closing, Move, unreadable,
  mark_working, fetch_failed, not_recorded, record_error, close_call, System, put, Step, move,
  Reach,
}
use git2imap.Service.Calls.Effect.{owner, awaited, IsOver}
use git2imap.Service.Calls.Invariant.{Reach-Inv}

-- Steps of one thread, and of no other.
pub data Runs (i : ℕ) : System → System → Type 0 where
  stop : {s : System} → Runs i s s
  go : {s t u : System} → Step i s t → Runs i t u → Runs i s u

-- From where a thread stands in a call it can close the call.
abbrev Closes : ℕ → ℕ → System → Type 0
Closes i c s = (t : System) × Runs i s t × (t.shared.done c ≡ true)

at_put : (pc : ℕ → Pc) (i : ℕ) (p : Pc) → put pc i p i ≡ p
at_put pc i p = rw (==_refl i)

-- One step, and then the rest.
step_then :
    {i c : ℕ} {s : System} (m : Shared) (p q : Pc)
    → s.pc i ≡ p
    → Move s.shared p m q
    → Closes i c (record { shared = m; pc = put s.pc i q })
    → Closes i c s
step_then {i} {c} {s} m p q e mv (t, runs, closed) =
    (t, go (move (subst (λ x. Move s.shared x m q) (sym e) mv)) runs, closed)

from_finished : (i c : ℕ) (s : System) → s.pc i ≡ finished c → Closes i c s
from_finished i c s e = step_then _ (finished c) (closing c) e close_call (_, stop, rw (==_refl c))

from_failing : (i c : ℕ) (s : System) → s.pc i ≡ failing c → Closes i c s
from_failing i c s e =
    step_then _ (failing c) (finished c) e record_error
      (from_finished i c _ (at_put s.pc i (finished c)))

from_replacing : (i c : ℕ) (s : System) → s.pc i ≡ replacing c → Closes i c s
from_replacing i c s e =
    step_then _ (replacing c) (finished c) e not_recorded
      (from_finished i c _ (at_put s.pc i (finished c)))

from_fetching : (i c : ℕ) (s : System) → s.pc i ≡ fetching c → Closes i c s
from_fetching i c s e =
    step_then _ (fetching c) (failing c) e (fetch_failed true)
      (from_failing i c _ (at_put s.pc i (failing c)))

from_marking : (i c : ℕ) (s : System) → s.pc i ≡ marking c → Closes i c s
from_marking i c s e =
    step_then _ (marking c) (fetching c) e mark_working
      (from_fetching i c _ (at_put s.pc i (fetching c)))

from_checking : (i c : ℕ) (s : System) → s.pc i ≡ checking c → Closes i c s
from_checking i c s e =
    step_then _ (checking c) (finished c) e unreadable
      (from_finished i c _ (at_put s.pc i (finished c)))

owner-Closes :
    (i c : ℕ) (s : System) (p : Pc)
    → s.pc i ≡ p
    → IsOver s.shared p
    → owner p ≡ some c
    → Closes i c s
owner-Closes i c s (checking d) e v o = from_checking i c s (cc (e, o))
owner-Closes i c s (marking d) e v o = from_marking i c s (cc (e, o))
owner-Closes i c s (fetching d) e v o = from_fetching i c s (cc (e, o))
owner-Closes i c s (replacing d) e v o = from_replacing i c s (cc (e, o))
owner-Closes i c s (failing d) e v o = from_failing i c s (cc (e, o))
owner-Closes i c s (finished d) e v o = from_finished i c s (cc (e, o))
owner-Closes i c s (closing d) e v o = (s, stop, cc (v, o))
owner-Closes i c s _ e v o = cc (o)

-- A refresh or a deletion that waits for a call never waits in vain: the call is closed, or there is
-- a thread that can close it by steps of its own, whatever the others do not do. That thread is the
-- one that works on the call.
pub waiting_served :
    {s : System}
    → Reach s
    → (i c : ℕ) → awaited (s.pc i) ≡ some c
    → (s.shared.done c ≡ true)
      ⊎ ((j : ℕ) × (t : System) × (owner (s.pc j) ≡ some c) × Runs j s t × (t.shared.done c ≡ true))
waiting_served {s} r i c h = elim ((Reach-Inv r).served i c h) [
  | inl closed ↦ inl closed
  | inr (j, o) ↦
      let (t, runs, closed) = owner-Closes j c s (s.pc j) refl ((Reach-Inv r).over j) o in
      inr (j, t, o, runs, closed)
]
