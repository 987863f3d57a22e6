-- ===== src/Async/Sound/Calls.antt =====
-- The calls that a program makes of async.go and stream.go, and the packets that arrive, in any
-- order.
use frisbee_go.Prelude.{true, false, not, ◌&&◌, if◌then◌else◌, ℕ, Bool, Option, List, [], ◌∷◌}
use frisbee_go.Errors.{Error}
use frisbee_go.Packet.{BufferOps, Packet}
use frisbee_go.Queue.{QueueOps}
use frisbee_go.Async.State.{Async, modify}
use frisbee_go.Async.Framing.{Step, next, stop}
use frisbee_go.Async.Close.{
  Received, waits, returns, fails, close_with_error, close, flush_now, write, close_stream,
  write_stream, read, read_stream, open_stream, set_new_stream_handler,
}
use frisbee_go.Async.Receive.{Found, control, deliver}

-- A call of the program, or a packet that the read loop has in hand, with what the loop has looked
-- up for it. A flag says whether the call finds that another goroutine has closed the connection.
pub data Call (Buffer : Type 0) : Type 0 where
  writes : Bool → Packet Buffer → Call Buffer
  flushes : Bool → Call Buffer
  reads : Call Buffer
  closes : Bool → Call Buffer
  fails_with : Bool → Error → Call Buffer
  opens_stream : ℕ → Call Buffer
  sets_handler : Option ℕ → Call Buffer
  writes_stream : Bool → ℕ → Packet Buffer → Call Buffer
  reads_stream : ℕ → Call Buffer
  closes_stream : Bool → ℕ → Call Buffer
  controls : Bool → Packet Buffer → Call Buffer
  delivers : Found → Packet Buffer → Call Buffer

abbrev pub meets : {Buffer : Type 0} → Call Buffer → Bool
meets (writes observed p) = observed
meets (flushes observed) = observed
meets (closes observed) = observed
meets (fails_with observed e) = observed
meets (writes_stream observed s p) = observed
meets (closes_stream observed s) = observed
meets (controls observed p) = observed
meets _ = false

abbrev pub state : {St Packet : Type 0} → Received St Packet → St
state (waits s) = s
state (returns s p) = s
state (fails s e) = s

abbrev pub state_after : {St : Type 0} → Step St → St
state_after (next s) = s
state_after (stop e s) = s

module _ {Buffer Queue : Type 0} ⦃ops : BufferOps Buffer⦄ ⦃qs : QueueOps Queue (Packet Buffer)⦄
    (max : ℕ) (pooled : List ℕ) where
  abbrev pub perform : Call Buffer → Async Buffer Queue → Async Buffer Queue
  perform (writes observed p) c = (write max pooled observed p c).0
  perform (flushes observed) c = (flush_now max pooled observed c).0
  perform reads c = state (read c c)
  perform (closes observed) c = (close max pooled observed c).0
  perform (fails_with observed e) c = (close_with_error max pooled observed c e).0
  perform (opens_stream id) c = (open_stream id c).1
  perform (sets_handler handler) c = set_new_stream_handler handler c
  perform (writes_stream observed s p) c = (write_stream max pooled observed s p c).0
  perform (reads_stream s) c = record c { heap = modify s (λ t. state (read_stream t t)) c.heap }
  perform (closes_stream observed s) c = (close_stream max pooled observed s c).0
  perform (controls observed p) c = state_after (control max pooled observed c p)
  perform (delivers found p) c = state_after (deliver c found p)

  abbrev pub perform_all : List (Call Buffer) → Async Buffer Queue → Async Buffer Queue
  perform_all [] c = c
  perform_all (k ∷ ks) c = perform_all ks (perform k c)

  -- The rest of the `close` of another goroutine, whose compare-and-swap a call has found done.
  abbrev pub finish_close : Bool → Async Buffer Queue → Async Buffer Queue
  finish_close false c = c
  finish_close true c =
      if c.link.closed && not c.channels_closed
      then (close max pooled false (record c { link = record (c.link) { closed = false } })).0
      else c

  -- The calls one after the other, each behind the `close` that the one before it has met.
  abbrev pub run_all : List (Call Buffer) → Async Buffer Queue → Async Buffer Queue
  run_all [] c = c
  run_all (k ∷ ks) c = run_all ks (finish_close (meets k) (perform k c))
