-- ===== src/Async/Close/Examples.antt =====
-- The theorem on the end of a stream of stream.go, at a concrete stream.
use frisbee_go.Prelude.{ℕ, ◌≡◌, refl, true, false, none, some, List, [], ◌∷◌, ◌++◌, arith}
use frisbee_go.Errors.{stream_closed}
use frisbee_go.Metadata.{put_fields}
use frisbee_go.Packet.{Packet, get_packet, new_packet}
use frisbee_go.Bufio.{write_writer}
use frisbee_go.Bufio.Account.{written}
use frisbee_go.Concrete.{ListQueue, list_buffer, list_queue}
use frisbee_go.Sync.{length_error, encoded_metadata}
use frisbee_go.Sync.Frame.{frame}
use frisbee_go.Async.State.{Stream, Async, find_stream, modify, at}
use frisbee_go.Async.Write.{
  set_write_deadline, wake_flusher, write_body, write_open, write_locked, write_packet,
}
use frisbee_go.Async.Samples.{idle, hello, dirty}
use frisbee_go.Async.Close.{take_packet, shut_stream, settle, send_close, close_send, close_stream}
use frisbee_go.Async.Close.StreamEnd.{IsEndOf, close_stream_lem}

-- A stream on which a packet waits.
abbrev stream : Stream (List ℕ) (ListQueue (Packet (List ℕ)))
stream = record {
  id = 3;
  closed = false;
  queue = record { items = hello ∷ []; shut = false };
  stale = [];
}

abbrev connection : Async (List ℕ) (ListQueue (Packet (List ℕ)))
connection = record {
  link = idle;
  incoming = record { items = []; shut = false };
  stale = [];
  error = none;
  channels_closed = false;
  heap = stream ∷ [];
  streams = (3, 0) ∷ [];
  new_stream_handler = none;
  started = [];
  pool = [];
}

close_stream_lem_example :
    let d = (close_stream 100 dirty false 0 connection).0 in
    (p : Packet (List ℕ)) × (u : Stream (List ℕ) (ListQueue (Packet (List ℕ)))) × IsEndOf 3 p
    × (written d.link.writer ≡ [] ++ frame p)
    × (at 0 d.heap ≡ some u)
    × (u.closed ≡ true)
    × (u.stale ≡ hello ∷ [])
    × (find_stream 3 d.streams ≡ none)
    × (close_stream 100 dirty false 0 d ≡ (d, some stream_closed))
unfolding at close_stream close_send send_close take_packet get_packet new_packet modify shut_stream
    settle write_packet write_locked write_open write_body length_error set_write_deadline
    write_writer encoded_metadata put_fields wake_flusher
close_stream_lem_example =
    close_stream_lem 100 dirty false 0 stream connection refl (omega arith) refl refl refl
