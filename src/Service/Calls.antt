-- ===== src/Service/Calls.antt =====
-- internal/service/repository.go: `RefreshRepository`, `refresh` and `DeleteRepository` as threads
-- that share the map of calls, the row of one repository and its mirror. A step is what a thread does
-- between two points where others can run. All runs of git of one refresh with the loop over the
-- branches are one step here, and so is ReplaceMailboxes with the last write of the status;
-- `refresh` itself, call by call, is in Service.Refresh.
pub mod Effect
pub mod Invariant
pub mod Served
pub mod Ends
pub mod Tests
use git2imap.Base.{
  ℕ, suc, ◌≡◌, ◌≢◌, ◌⊎◌, Bool, true, false, ◌||◌, Option, none, some, ◌==◌, if◌then◌else◌,
}

-- The column `status`, with one constructor for `cloning` and `fetching`.
pub data Status : Type 0 where
  pending working ready failed deleting : Status

-- What the threads share. A call is known by a number; `running` is `s.running[id]`, `done` tells
-- which calls have closed their channel and `cancelled` which have been told to stop. `row` is the
-- status in the row of the repository, if there is a row, and `mirror` tells whether its directory
-- exists.
pub record Shared : Type 0 where
  pub row : Option Status
  pub mirror : Bool
  pub running : Option ℕ
  pub next : ℕ
  pub done : ℕ → Bool
  pub cancelled : ℕ → Bool

-- Where a thread stands, with its call or the one that it waits for.
pub data Pc : Type 0 where
  idle : Pc
  -- RefreshRepository: before the lock, and in its two `select`s' first one
  entering : Pc
  waiting : (c : ℕ) → Pc
  -- refresh: before it reads the row, before it writes the status, in git, and after git
  checking : (c : ℕ) → Pc
  marking : (c : ℕ) → Pc
  fetching : (c : ℕ) → Pc
  replacing : (c : ℕ) → Pc
  failing : (c : ℕ) → Pc
  -- after refresh: before the channel is closed, and before the map is cleared
  finished : (c : ℕ) → Pc
  closing : (c : ℕ) → Pc
  -- DeleteRepository: before the lock, waiting for a call, and before each removal
  stopping : Pc
  awaiting : (c : ℕ) → Pc
  removing : Pc
  erasing : Pc

-- UPDATE … WHERE id=?
abbrev pub written : Status → Option Status → Option Status
written st none = none
written st (some old) = some st

abbrev pub set_at : ℕ → (ℕ → Bool) → ℕ → Bool
set_at c f k = if k == c then true else f k

-- One step of one thread.
pub data Move (m : Shared) : Pc → Shared → Pc → Type 0 where
  begin_refresh : Move m idle m entering
  join : {c : ℕ} → m.running ≡ some c → Move m entering m (waiting c)
  lead :
      m.running ≡ none
      → Move m entering (record m { running = some m.next; next = suc m.next }) (checking m.next)
  woken : {c : ℕ} → m.done c ≡ true → Move m (waiting c) m idle
  -- the context of the caller ends
  gave_up : {c : ℕ} → Move m (waiting c) m idle
  refused : {c : ℕ} → (m.row ≡ none) ⊎ (m.row ≡ some deleting) → Move m (checking c) m (finished c)
  -- the credentials cannot be decrypted or decoded
  unreadable : {c : ℕ} → Move m (checking c) m (finished c)
  accepted :
      {c : ℕ} {st : Status} → m.row ≡ some st → st ≢ deleting → Move m (checking c) m (marking c)
  mark_working :
      {c : ℕ} → Move m (marking c) (record m { row = written working m.row }) (fetching c)
  fetched : {c : ℕ} → Move m (fetching c) (record m { mirror = true }) (replacing c)
  -- a clone may fail after it has published the mirror
  fetch_failed :
      {c : ℕ} (made : Bool)
      → Move m (fetching c) (record m { mirror = m.mirror || made }) (failing c)
  replaced : {c : ℕ} → Move m (replacing c) (record m { row = written ready m.row }) (finished c)
  not_replaced : {c : ℕ} → Move m (replacing c) m (failing c)
  -- the last write of the status fails
  not_recorded : {c : ℕ} → Move m (replacing c) m (finished c)
  record_error : {c : ℕ} → Move m (failing c) (record m { row = written failed m.row }) (finished c)
  close_call : {c : ℕ} → Move m (finished c) (record m { done = set_at c m.done }) (closing c)
  leave : {c : ℕ} → Move m (closing c) (record m { running = none }) idle
  set_deleting : Move m idle (record m { row = written deleting m.row }) stopping
  stop_call :
      {c : ℕ}
      → m.running ≡ some c
      → Move m stopping (record m { cancelled = set_at c m.cancelled }) (awaiting c)
  no_call : m.running ≡ none → Move m stopping m removing
  stopped : {c : ℕ} → m.done c ≡ true → Move m (awaiting c) m removing
  abandoned : {c : ℕ} → Move m (awaiting c) m idle
  remove_mirror : Move m removing (record m { mirror = false }) erasing
  not_removed : Move m removing m idle
  -- the rest of the cache is not removed, or the row not deleted
  not_erased : Move m erasing m idle
  erase_row : Move m erasing (record m { row = none }) idle

-- The threads, by number.
pub record System : Type 0 where
  pub shared : Shared
  pub pc : ℕ → Pc

abbrev pub put : (ℕ → Pc) → ℕ → Pc → ℕ → Pc
put f i p k = if k == i then p else f k

-- A step of thread `i`.
pub data Step (i : ℕ) (s : System) : System → Type 0 where
  move :
      {m : Shared} {p : Pc}
      → Move s.shared (s.pc i) m p
      → Step i s (record { shared = m; pc = put s.pc i p })

-- NewRepositoryService, for a repository that has just been added.
abbrev pub start : System
start = record {
  shared = record {
    row = some pending;
    mirror = false;
    running = none;
    next = 0;
    done = λ _. false;
    cancelled = λ _. false;
  };
  pc = λ _. idle;
}

-- What steps of any threads, in any order, lead to.
pub data Reach : System → Type 0 where
  here : Reach start
  later : {s t : System} (i : ℕ) → Reach s → Step i s t → Reach t
