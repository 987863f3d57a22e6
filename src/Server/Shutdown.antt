-- ===== src/Server/Shutdown.antt =====
-- server.go: `serveConn` and `Shutdown` with the mutex `connectionsMu`, in any interleaving. What
-- stands between a lock and its unlock is one step, but for the return of `serveConn` that does not
-- unlock.
pub mod Lost
mod Examples
use frisbee_go.Prelude.{
  ℕ, zero, suc, ◌+◌, ◌-◌, ◌<◌, ◌≡◌, Bool, true, false, List, [], ◌∷◌, ◌==◌, if◌then◌else◌,
}

-- `Shutdown`: it has not been called; it has set `shutdown` and waits for the mutex; it has closed
-- the connections and is in `wg.Wait()`; it has returned.
pub data ShutdownCall : Type 0 where
  uncalled at_lock in_wg_wait through : ShutdownCall

pub record Connections : Type 0 where
  pub shutdown : Bool
  -- A `serveConn` has returned without unlocking the mutex.
  pub lost : Bool
  -- The keys of `s.connections`, and the connections that `Shutdown` has closed.
  pub connections : List ℕ
  pub closed : List ℕ
  -- The calls of `serveConn` in front of the first lock, and those that serve a connection.
  pub arriving : List ℕ
  pub serving : List ℕ
  pub call : ShutdownCall

-- Go sets, as lists.
abbrev pub holds : ℕ → List ℕ → Bool
holds c [] = false
holds c (d ∷ ds) = if c == d then true else holds c ds

-- `delete(s.connections, c)`.
unfoldable pub delete_connection : ℕ → List ℕ → List ℕ
delete_connection c [] = []
delete_connection c (d ∷ ds) = if c == d then delete_connection c ds else d ∷ delete_connection c ds

-- The end of `serveConn`.
unfoldable pub leave : ℕ → Connections → Connections
leave c s = if s.shutdown then s else record s { connections = delete_connection c s.connections }

pub data ServerStep : Connections → Connections → Type 0 where
  -- `ServeConn`: `wg.Add(1)`, and a goroutine that comes to the first lock.
  arrives : (s : Connections) (c : ℕ) → ServerStep s (record s { arriving = c ∷ s.arriving })
  registers :
      (s : Connections) (c : ℕ)
      → holds c s.arriving ≡ true
      → s.lost ≡ false
      → s.shutdown ≡ false
      → ServerStep s (record s {
        connections = c ∷ s.connections;
        arriving = delete_connection c s.arriving;
        serving = c ∷ s.serving;
      })
  -- After a shutdown: `wg.Done()` and `return`, with the mutex locked.
  returns_locked :
      (s : Connections) (c : ℕ)
      → holds c s.arriving ≡ true
      → s.lost ≡ false
      → s.shutdown ≡ true
      → ServerStep s (record s { lost = true; arriving = delete_connection c s.arriving })
  ends :
      (s : Connections) (c : ℕ)
      → holds c s.serving ≡ true
      → s.lost ≡ false
      → ServerStep s (leave c (record s { serving = delete_connection c s.serving }))
  marks :
      (s : Connections)
      → s.shutdown ≡ false
      → ServerStep s (record s { shutdown = true; call = at_lock })
  closes_all :
      (s : Connections)
      → s.call ≡ at_lock
      → s.lost ≡ false
      → ServerStep s (record s { closed = s.connections; connections = []; call = in_wg_wait })
  wait_ends :
      (s : Connections)
      → s.call ≡ in_wg_wait
      → s.arriving ≡ []
      → s.serving ≡ []
      → ServerStep s (record s { call = through })

pub data ServerRuns : Connections → Connections → Type 0 where
  rests : (s : Connections) → ServerRuns s s
  moves : {s t u : Connections} → ServerStep s t → ServerRuns t u → ServerRuns s u

abbrev pub new_connections : Connections
new_connections = record {
  shutdown = false;
  lost = false;
  connections = [];
  closed = [];
  arriving = [];
  serving = [];
  call = uncalled;
}
