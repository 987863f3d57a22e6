-- ===== src/Server/Shutdown/Examples.antt =====
-- Runs of `Shutdown` and `serveConn` of server.go.
use frisbee_go.Prelude.{◌≡◌, refl, inl, true, [], ◌∷◌}
use frisbee_go.Server.Shutdown.{
  at_lock, in_wg_wait, Connections, holds, delete_connection, arrives, registers, returns_locked,
  marks, closes_all, ServerRuns, rests, moves, new_connections,
}
use frisbee_go.Server.Shutdown.Lost.{Hangs, Hangs-for_ever, known, served-IsKnown}

-- Connection 1 is served when the server is shut down, and connection 2 has just been accepted.
abbrev two : Connections
two = record new_connections {
  shutdown = true;
  connections = 1 ∷ [];
  arriving = 2 ∷ [];
  serving = 1 ∷ [];
  call = at_lock;
}

abbrev stuck : Connections
stuck = record two { lost = true; arriving = [] }

gets_stuck : ServerRuns two stuck
unfolding delete_connection
gets_stuck = moves (returns_locked _ 2 refl refl refl) (rests _)

Hangs-for_ever_example : Hangs 1 (record stuck { arriving = 3 ∷ [] })
Hangs-for_ever_example = Hangs-for_ever 1 (moves (arrives stuck 3) (rests _)) (refl, refl, inl refl)

abbrev closed_all : Connections
closed_all = record two { closed = 1 ∷ []; connections = []; call = in_wg_wait }

closes : ServerRuns new_connections closed_all
unfolding delete_connection
closes = moves (arrives _ 1) (
    moves (registers _ 1 refl refl refl)
      (moves (arrives _ 2) (moves (marks _ refl) (moves (closes_all _ refl refl) (rests _)))))

served-IsKnown_example : holds 1 (known closed_all.call closed_all) ≡ true
served-IsKnown_example = served-IsKnown 1 closed_all closes refl
