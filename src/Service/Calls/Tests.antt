-- ===== src/Service/Calls/Tests.antt =====
-- internal/service/repository.go: three threads on one repository.
use git2imap.Base.{ℕ, ◌≡◌, ◌≢◌, refl, true, false, none, some, ◌⊎◌, ◌<◌}
use git2imap.Service.Calls.{
  Shared, Pc, failed, pending, deleting, Move, begin_refresh, join, lead, accepted, mark_working,
  fetched, fetch_failed, replaced, record_error, close_call, leave, set_deleting, stop_call,
  stopped, remove_mirror, erase_row, System, Step, move, start, Reach, here, later,
}
use git2imap.Service.Calls.Effect.{owner}
use git2imap.Service.Calls.Invariant.{single_refresh}
use git2imap.Service.Calls.Served.{Runs, waiting_served}
use git2imap.Service.Calls.Ends.{Takes, none_left, own, refresh_ends}

abbrev Run : Type 0
Run = (s : System) × Reach s

abbrev act : (r : Run) (i : ℕ) {m : Shared} {p : Pc} → Move r.0.shared (r.0.pc i) m p → Run
act r i mv = (_, later i r.1 (move mv))

abbrev begun : Run
begun = act (act (start, here) 0 begin_refresh) 0 (lead refl)

-- A second refresh joins the first.
abbrev joined : Run
joined = act (act begun 1 begin_refresh) 1 (join refl)

single_refresh_example : (◌≡◌ {A = ℕ} 0 0) × (joined.0.shared.running ≡ some 0)
single_refresh_example = single_refresh joined.1 0 0 0 0 refl refl

waiting_served_example :
    (joined.0.shared.done 0 ≡ true)
    ⊎ ((j : ℕ) × (t : System) × (owner (joined.0.pc j) ≡ some 0)
        × Runs j joined.0 t
        × (t.shared.done 0 ≡ true))
waiting_served_example = waiting_served joined.1 1 0 refl

pending_ne : pending ≢ deleting
pending_ne h = cc h

failed_ne : failed ≢ deleting
failed_ne h = cc h

-- The first refresh has read the row, then a deletion stops it; it fails and writes its error over
-- the mark of the deletion.
abbrev overwritten : Run
overwritten =
    let r =
      act (act (act (act begun 0 (accepted refl pending_ne)) 1 set_deleting) 1 (stop_call refl)) 0
        mark_working in
    act (act (act (act r 0 (fetch_failed false)) 0 record_error) 0 close_call) 0 leave

-- A third thread then starts a refresh while the deletion removes the mirror and the row.
abbrev orphan : Run
orphan =
    let r = act (act (act overwritten 2 begin_refresh) 2 (lead refl)) 2 (accepted refl failed_ne) in
    let r' = act (act (act r 1 (stopped refl)) 1 remove_mirror) 1 erase_row in
    act (act (act (act (act r' 2 mark_working) 2 fetched) 2 replaced) 2 close_call) 2 leave

-- The row is gone, nobody works, and the mirror is left behind.
orphan_left :
    (orphan.0.shared.row ≡ none)
    × (orphan.0.shared.mirror ≡ true)
    × (orphan.0.shared.running ≡ none)
orphan_left = (refl, refl, refl)

-- The first refresh up to the error of git.
three_steps : (t : System) × Takes 0 3 begun.0 t
three_steps = (
  _,
  own (move (accepted refl pending_ne))
      (own (move mark_working) (own (move (fetch_failed true)) none_left)),
)

refresh_ends_example :
    (three_steps.0.shared.done 0 ≡ true) ⊎ ((3 < 6) × ((u : System) × Step 0 three_steps.0 u))
refresh_ends_example = refresh_ends begun.1 0 0 3 refl three_steps.1
