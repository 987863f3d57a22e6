-- ===== src/Async/Waiting.antt =====
-- async.go: what `close` waits for. It holds `streamsMu` while it waits in `wg.Wait()` for the three
-- goroutines of the connection, of which the read loop locks `streamsMu` for a STREAM packet. Only
-- what decides who waits for whom is kept: the mutex `streamsMu`, the flag `closed`, and where each
-- goroutine stands.
pub mod Deadlock
mod Examples
use frisbee_go.Prelude.{◌≡◌, Bool, true, false}

pub data Holder : Type 0 where
  nobody by_close by_read_loop : Holder

-- `close`: before it locks `streamsMu`; with it locked; past the compare-and-swap, with the channels
-- closed and the deadline in the past, in `wg.Wait()`; at its end.
pub data CloseCall : Type 0 where
  before locked in_wait at_end : CloseCall

-- `readLoop`: in `Read` or at work on bytes it has read; in front of `c.streamsMu.Lock()`; with it
-- locked; after `wg.Done()`.
pub data ReadLoop : Type 0 where
  at_work at_lock with_lock gone : ReadLoop

pub record Goroutines : Type 0 where
  pub streams_mu : Holder
  pub closed : Bool
  pub close_call : CloseCall
  pub read_loop : ReadLoop
  pub flush_loop_gone : Bool
  pub ping_loop_gone : Bool

pub data WaitStep : Goroutines → Goroutines → Type 0 where
  close_locks :
      (s : Goroutines)
      → s.close_call ≡ before
      → s.streams_mu ≡ nobody
      → WaitStep s (record s { close_call = locked; streams_mu = by_close })
  close_shuts :
      (s : Goroutines)
      → s.close_call ≡ locked
      → s.closed ≡ false
      → WaitStep s (record s { close_call = in_wait; closed = true })
  -- `wg.Wait()` returns; the streams are closed and `streamsMu` is unlocked.
  close_goes_on :
      (s : Goroutines)
      → s.close_call ≡ in_wait
      → s.read_loop ≡ gone
      → s.flush_loop_gone ≡ true
      → s.ping_loop_gone ≡ true
      → WaitStep s (record s { close_call = at_end; streams_mu = nobody })
  -- The bytes that were read hold a STREAM packet.
  meets_stream :
      (s : Goroutines) → s.read_loop ≡ at_work → WaitStep s (record s { read_loop = at_lock })
  read_loop_locks :
      (s : Goroutines)
      → s.read_loop ≡ at_lock
      → s.streams_mu ≡ nobody
      → WaitStep s (record s { read_loop = with_lock; streams_mu = by_read_loop })
  read_loop_unlocks :
      (s : Goroutines)
      → s.read_loop ≡ with_lock
      → WaitStep s (record s { read_loop = at_work; streams_mu = nobody })
  -- `Read` fails because of the deadline.
  read_fails :
      (s : Goroutines)
      → s.read_loop ≡ at_work
      → s.closed ≡ true
      → WaitStep s (record s { read_loop = gone })
  flush_loop_ends :
      (s : Goroutines) → s.closed ≡ true → WaitStep s (record s { flush_loop_gone = true })
  ping_loop_ends :
      (s : Goroutines) → s.closed ≡ true → WaitStep s (record s { ping_loop_gone = true })

pub data Waits : Goroutines → Goroutines → Type 0 where
  stays : (s : Goroutines) → Waits s s
  moves : {s t u : Goroutines} → WaitStep s t → Waits t u → Waits s u

abbrev pub at_start : Goroutines
at_start = record {
  streams_mu = nobody;
  closed = false;
  close_call = before;
  read_loop = at_work;
  flush_loop_gone = false;
  ping_loop_gone = false;
}
