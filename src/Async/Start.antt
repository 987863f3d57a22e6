-- ===== src/Async/Start.antt =====
-- `NewAsync` of async.go. The goroutines that it starts are modelled by what they do.
use frisbee_go.Prelude.{ℕ, false, Option, none, List, [], ◌∷◌}
use frisbee_go.Packet.{Packet}
use frisbee_go.Queue.{QueueOps}
use frisbee_go.Conn.{Conn}
use frisbee_go.Async.State.{Link, Async}

unfoldable pub new_link : Conn → Link
new_link conn = record {
  writer = record { conn = conn; buffered = []; failed = none };
  deadlines = [];
  closed = false;
  flush_tokens = 0;
}

-- The optional argument: the first handler, if it is not nil.
unfoldable pub first_handler : List (Option ℕ) → Option ℕ
first_handler [] = none
first_handler (h ∷ hs) = h

unfoldable pub new_async :
    {Buffer Queue : Type 0}
    → ⦃qs : QueueOps Queue (Packet Buffer)⦄ → Conn
    → List (Option ℕ)
    → Async Buffer Queue
unfolding new_link first_handler
new_async ⦃qs⦄ conn stream_handler = record {
  link = new_link conn;
  incoming = qs.new_queue;
  stale = [];
  error = none;
  channels_closed = false;
  heap = [];
  streams = [];
  new_stream_handler = first_handler stream_handler;
  started = [];
  pool = [];
}
