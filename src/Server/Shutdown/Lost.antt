-- ===== src/Server/Shutdown/Lost.antt =====
-- server.go: a shutdown closes every connection, and hangs if one arrives at the wrong moment.
use frisbee_go.Prelude.{
  ℕ, ◌≡◌, ◌⊎◌, refl, ap, inl, true, false, List, [], ◌∷◌, ◌==◌, if◌then◌else◌, arith,
}
use frisbee_go.Server.Shutdown.{
  ShutdownCall, uncalled, at_lock, in_wg_wait, through, Connections, holds, delete_connection,
  leave, ServerStep, arrives, registers, returns_locked, ends, marks, closes_all, wait_ends,
  ServerRuns, rests, moves, new_connections,
}

-- The mutex is lost, and `Shutdown` has still to lock it, or it is in `wg.Wait()` while `c` is still
-- served.
abbrev pub Hangs : ℕ → Connections → Type 0
Hangs c s =
    (s.lost ≡ true)
    × (s.shutdown ≡ true)
    × ((s.call ≡ at_lock) ⊎ ((s.call ≡ in_wg_wait) × (holds c s.serving ≡ true)))

no_member : (c : ℕ) (xs : List ℕ) → xs ≡ [] → holds c xs ≡ false
no_member c xs e = ap (holds c) e

ServerStep-Hangs : (c : ℕ) {s t : Connections} → ServerStep s t → Hangs c s → Hangs c t
ServerStep-Hangs c (arrives s d) h = h
ServerStep-Hangs c (registers s d a free up) h = ground arith
ServerStep-Hangs c (returns_locked s d a free down) h = ground arith
ServerStep-Hangs c (ends s d a free) h = ground arith
ServerStep-Hangs c (marks s up) h = ground arith
ServerStep-Hangs c (closes_all s a free) h = ground arith
ServerStep-Hangs c (wait_ends s a none_arrives none_serves) h =
    ground (arith, no_member c s.serving none_serves)

-- Once a `serveConn` that came to its first lock after the shutdown began has returned with the
-- mutex locked, and `Shutdown` has yet to lock it, or waits while a connection is still served, this
-- stays so whatever happens: `Shutdown` never returns.
pub Hangs-for_ever : (c : ℕ) {s t : Connections} → ServerRuns s t → Hangs c s → Hangs c t
Hangs-for_ever c (rests s) h = h
Hangs-for_ever c (moves step r) h = Hangs-for_ever c r (ServerStep-Hangs c step h)

-- The connections that are registered, and after the shutdown those that it has closed.
abbrev pub known : ShutdownCall → Connections → List ℕ
known uncalled s = s.connections
known at_lock s = s.connections
known in_wg_wait s = s.closed
known through s = s.closed

holds-delete :
    (c d : ℕ) (xs : List ℕ)
    → holds d (delete_connection c xs) ≡ (if d == c then false else holds d xs)
unfolding delete_connection
holds-delete c d [] = ground arith
holds-delete c d (x ∷ xs) = ground (arith, holds-delete c d xs)

abbrev IsMarked : Connections → Type 0
IsMarked s = (s.call ≡ uncalled) ⊎ (s.shutdown ≡ true)

abbrev IsKnown : ℕ → Connections → Type 0
IsKnown d s = (holds d s.serving ≡ false) ⊎ (holds d (known s.call s) ≡ true)

ServerStep-IsKnown :
    (d : ℕ) {s t : Connections}
    → ServerStep s t
    → IsMarked s × IsKnown d s
    → IsMarked t × IsKnown d t
unfolding leave
ServerStep-IsKnown d (arrives s c) h = ground arith
ServerStep-IsKnown d (registers s c a free up) h = ground arith
ServerStep-IsKnown d (returns_locked s c a free down) h = ground arith
ServerStep-IsKnown d (ends s c a free) h =
    ground (arith, holds-delete c d s.serving, holds-delete c d s.connections)
ServerStep-IsKnown d (marks s up) h = ground arith
ServerStep-IsKnown d (closes_all s a free) h = ground arith
ServerStep-IsKnown d (wait_ends s a none_arrives none_serves) h = ground arith

ServerRuns-IsKnown :
    (d : ℕ) {s t : Connections}
    → ServerRuns s t
    → IsMarked s × IsKnown d s
    → IsMarked t × IsKnown d t
ServerRuns-IsKnown d (rests s) h = h
ServerRuns-IsKnown d (moves step r) h = ServerRuns-IsKnown d r (ServerStep-IsKnown d step h)

-- However connections arrive and end, every connection that is served is registered, until
-- `Shutdown` has locked the mutex; and from then on every connection that is still served is one
-- that `Shutdown` has closed.
pub served-IsKnown :
    (d : ℕ) (t : Connections)
    → ServerRuns new_connections t
    → holds d t.serving ≡ true
    → holds d (known t.call t) ≡ true
served-IsKnown d t r h = ground (arith, (ServerRuns-IsKnown d r (inl refl, inl refl)).1)
