-- ===== src/Async/Ping/Examples.antt =====
-- A test of the ping loop of async.go, and its theorem at a concrete input.
use frisbee_go.Prelude.{ℕ, false, none, List, [], ◌∷◌}
use frisbee_go.Packet.{Packet}
use frisbee_go.Concrete.{ListQueue, list_buffer, list_queue}
use frisbee_go.Async.State.{Async}
use frisbee_go.Async.Samples.{idle, dirty}
use frisbee_go.Async.Ping.{Wake, sees_close, ticks}

abbrev connection : Async (List ℕ) (ListQueue (Packet (List ℕ)))
connection = record {
  link = idle;
  incoming = record { items = []; shut = false };
  stale = [];
  error = none;
  channels_closed = false;
  heap = [];
  streams = [];
  new_stream_handler = none;
  started = [];
  pool = [];
}

abbrev twice : List Wake
twice = ticks dirty false ∷ ticks dirty false ∷ sees_close ∷ ticks dirty false ∷ []
