-- ===== src/Async/Waiting/Examples.antt =====
-- Runs of `close` and the read loop of async.go.
use frisbee_go.Prelude.{◌≢◌, refl, true, arith}
use frisbee_go.Async.Waiting.{
  by_close, in_wait, at_work, at_lock, Goroutines, close_locks, close_shuts, meets_stream,
  ping_loop_ends, Waits, stays, moves, at_start,
}
use frisbee_go.Async.Waiting.Deadlock.{Deadlocked, Deadlocked-for_ever, CanEnd, close_ends}

abbrev in_wg_wait : Goroutines
in_wg_wait = record at_start { streams_mu = by_close; closed = true; close_call = in_wait }

closes : Waits at_start in_wg_wait
closes = moves (close_locks _ refl refl) (moves (close_shuts _ refl refl) (stays _))

-- The program closes the connection while a STREAM packet is on its way.
abbrev stuck : Goroutines
stuck = record in_wg_wait { read_loop = at_lock }

gets_stuck : Waits at_start stuck
gets_stuck =
    moves (close_locks _ refl refl)
      (moves (close_shuts _ refl refl) (moves (meets_stream _ refl) (stays _)))

Deadlocked-for_ever_example : Deadlocked (record stuck { ping_loop_gone = true })
Deadlocked-for_ever_example =
    Deadlocked-for_ever stuck (record stuck { ping_loop_gone = true }) gets_stuck (refl, refl)
      (moves (ping_loop_ends _ refl) (stays _))

not_at_lock : at_work ≢ at_lock
not_at_lock e = ground (arith, e)

-- The ping loop ends first, and then the others have two steps to go, and `close` one.
close_ends_example : CanEnd 4 (record in_wg_wait { ping_loop_gone = true })
close_ends_example =
    close_ends in_wg_wait (record in_wg_wait { ping_loop_gone = true }) closes refl not_at_lock
      (moves (ping_loop_ends _ refl) (stays _)) tt
