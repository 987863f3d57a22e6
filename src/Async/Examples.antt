-- ===== src/Async/Examples.antt =====
-- Tests of the model of async.go and stream.go, and its theorems at concrete inputs.
use frisbee_go.Prelude.{
  ℕ, ◌+◌, ◌<◌, ◌≡◌, refl, ◌⊎◌, inl, inr, true, false, none, some, List, [], ◌∷◌, map, arith,
}
use frisbee_go.Metadata.{put_fields}
use frisbee_go.Errors.{Error, eof}
use frisbee_go.Packet.{Packet}
use frisbee_go.Conn.{conn_write}
use frisbee_go.Concrete.{list_buffer, queue_closed, ListQueue, list_queue}
use frisbee_go.Bufio.{flush_writer, write_writer}
use frisbee_go.Sync.{length_error, encoded_metadata}
use frisbee_go.Sync.Frame.{frame, IsSendable}
use frisbee_go.Async.Framing.{failure, Attempt, chunk, waiting, closes}
use frisbee_go.Async.Framing.Spec.{breaks, arriving, all_frames}
use frisbee_go.Async.Samples.{idle, hello, empty, dirty}
use frisbee_go.Async.State.{find_stream, at, Link, Async}
use frisbee_go.Async.Write.{
  set_write_deadline, wake_flusher, write_body, write_locked, write_packet, flush,
}
use frisbee_go.Async.Accounting.{Took, write_packet-Took}
use frisbee_go.Async.Close.{on_stream, last_flush, close, close_once, close_with_error}
use frisbee_go.Async.Stale.{Drains, close_once_lem, close_with_error-Drains}
use frisbee_go.Async.Receive.{receive}
use frisbee_go.Async.Receive.Inbox.{new_box, frame_handlers}
use frisbee_go.Async.Receive.View.{view, pong}
use frisbee_go.Async.Receive.InOrder.{receives}
use frisbee_go.Async.Receive.Loop.{receive_lem}
use frisbee_go.Async.Session.{Writes, done, writes, flushes}
use frisbee_go.Async.Session.Transfer.{transfer}
use frisbee_go.Async.Session.Streams.{new_stream_transfer, stream_transfer}
use frisbee_go.Async.Receive.Taken.{arrived}
use frisbee_go.Async.Receive.Streams.{into_stream, with_new_stream}

-- The header buffer is overwritten, and nothing is sent before a flush.
writes_hello : (write_packet 100 dirty false hello idle).0 ≡ record idle {
  writer = record (idle.writer) {
    buffered = 0 ∷ 15 ∷ 0 ∷ 7 ∷ 0 ∷ 10 ∷ 0 ∷ 0 ∷ 0 ∷ 2 ∷ 104 ∷ 105 ∷ [];
  };
  flush_tokens = 1;
}
unfolding write_packet write_locked write_body set_write_deadline wake_flusher length_error
    encoded_metadata put_fields write_writer
writes_hello = refl

write_packet-Took_example :
    Took idle (frame hello) (write_packet 100 dirty false hello idle).0
    × IsSendable 100 hello
    × (idle.closed ≡ false)
unfolding write_packet write_locked write_body set_write_deadline wake_flusher length_error
    encoded_metadata put_fields write_writer
write_packet-Took_example = write_packet-Took 100 dirty false hello idle refl (omega arith) refl

abbrev connection : List (Packet (List ℕ)) → Async (List ℕ) (ListQueue (Packet (List ℕ)))
connection ps = record {
  link = idle;
  incoming = record { items = ps; shut = false };
  stale = [];
  error = none;
  channels_closed = false;
  heap = [];
  streams = [];
  new_stream_handler = none;
  started = [];
  pool = some hello ∷ [];
}

abbrev double : ℕ → ℕ
double c = c + c + 1

double-grows : (c : ℕ) → c < double c
double-grows c = omega arith

abbrev link_hello : Link
link_hello = (write_packet 100 dirty false hello idle).0

abbrev link_flushed : Link
link_flushed = (flush link_hello).0

abbrev link_empty : Link
link_empty = (write_packet 100 dirty false empty link_flushed).0

-- Two packets with a flush between them, cut into three pieces.
abbrev pieces : List Attempt
pieces =
    chunk (0 ∷ 15 ∷ 0 ∷ [])
    ∷ chunk (7 ∷ 0 ∷ 10 ∷ 0 ∷ 0 ∷ 0 ∷ 2 ∷ 104 ∷ 105 ∷ 0 ∷ 15 ∷ [])
    ∷ chunk (0 ∷ 8 ∷ 0 ∷ 11 ∷ 0 ∷ 0 ∷ 0 ∷ 0 ∷ [])
    ∷ []

hello_and_empty : Writes 100 idle (hello ∷ empty ∷ []) link_empty
unfolding write_packet write_locked write_body set_write_deadline wake_flusher length_error
    encoded_metadata put_fields write_writer flush flush_writer conn_write
hello_and_empty =
    writes dirty false refl refl (flushes refl (writes dirty false refl refl (done link_empty)))

transfer_example :
    (e : Async (List ℕ) (ListQueue (Packet (List ℕ)))) × (receive 100 dirty false double 61 pieces
        (connection (empty ∷ []))
      ≡ some e)
    × (view e ≡ receives (hello ∷ empty ∷ []) (view (connection (empty ∷ []))))
unfolding write_packet write_locked write_body set_write_deadline wake_flusher length_error
    encoded_metadata put_fields write_writer flush flush_writer conn_write
transfer_example =
    transfer 100 dirty false double 60 pieces idle link_empty (connection (empty ∷ []))
      (hello ∷ empty ∷ []) refl hello_and_empty refl (ground arith) refl double-grows refl refl
      (omega arith)

-- The same packets; the last bytes come with the end of the connection.
abbrev last_pieces : List Attempt
last_pieces =
    chunk (0 ∷ 15 ∷ 0 ∷ [])
    ∷ chunk (7 ∷ 0 ∷ 10 ∷ 0 ∷ 0 ∷ 0 ∷ 2 ∷ 104 ∷ 105 ∷ 0 ∷ 15 ∷ [])
    ∷ failure (0 ∷ 8 ∷ 0 ∷ 11 ∷ 0 ∷ 0 ∷ 0 ∷ 0 ∷ []) eof
    ∷ failure [] eof
    ∷ []

receive_lem_example :
    ((d : Async (List ℕ) (ListQueue (Packet (List ℕ)))) × (receive 100 dirty false double 61
          last_pieces
          (connection [])
        ≡ some d)
      × (all_frames
            (frame_handlers queue_closed (pong list_buffer 100 dirty false))
            100
            (breaks eof)
            60
            (view (connection []))
            (arriving last_pieces)
          ≡ waiting (view d)))
    ⊎ ((e : Error) × (d : Async (List ℕ) (ListQueue (Packet (List ℕ)))) × (receive 100 dirty false
            double 61 last_pieces
            (connection [])
          ≡ some (close_with_error 100 dirty false d e).0)
        × (all_frames
              (frame_handlers queue_closed (pong list_buffer 100 dirty false))
              100
              (breaks eof)
              60
              (view (connection []))
              (arriving last_pieces)
            ≡ closes e (view d)))
receive_lem_example =
    receive_lem 100 dirty false double (breaks eof) 60 last_pieces (connection []) double-grows
      (refl, inr (refl, (refl, inl refl))) (omega arith)

close_once_lem_example :
    ((close_once 100 dirty false (connection (hello ∷ empty ∷ []))).1 ≡ none)
    × ((close_once 100 dirty false (connection (hello ∷ empty ∷ []))).0.link
        ≡ last_flush (record idle { closed = true }))
    × ((close_once 100 dirty false (connection (hello ∷ empty ∷ []))).0.link.closed ≡ true)
    × ((close_once 100 dirty false (connection (hello ∷ empty ∷ []))).0.stale ≡ hello ∷ empty ∷ [])
    × ((close_once 100 dirty false (connection (hello ∷ empty ∷ []))).0.incoming.items ≡ [])
    × ((close_once 100 dirty false (connection (hello ∷ empty ∷ []))).0.incoming.shut ≡ true)
    × ((close_once 100 dirty false (connection (hello ∷ empty ∷ []))).0.error ≡ none)
close_once_lem_example = close_once_lem 100 dirty false (connection (hello ∷ empty ∷ [])) refl

close_with_error-Drains_example :
    Drains (close 100 dirty false (connection (hello ∷ empty ∷ []))).0 (hello ∷ empty ∷ [])
    × Drains
        (close_with_error 100 dirty false (connection (hello ∷ empty ∷ [])) eof).0
        (hello ∷ empty ∷ [])
    × ((close_with_error 100 dirty false (connection (hello ∷ empty ∷ [])) eof).0.error ≡ some eof)
    × ((close_with_error 100 dirty false (connection (hello ∷ empty ∷ [])) eof).1 ≡ eof)
    × ((close 100 dirty false (connection (hello ∷ empty ∷ []))).1 ≡ none)
close_with_error-Drains_example =
    close_with_error-Drains 100 dirty false (connection (hello ∷ empty ∷ [])) eof refl

-- A stream's packet, its header and its content in two pieces.
abbrev stream_pieces : List Attempt
stream_pieces = chunk (0 ∷ 15 ∷ 0 ∷ 3 ∷ 0 ∷ 2 ∷ 0 ∷ 0 ∷ 0 ∷ 2 ∷ 104 ∷ []) ∷ chunk (105 ∷ []) ∷ []

abbrev link_stream : Link
link_stream = (write_packet 100 dirty false (on_stream 3 hello) idle).0

link_stream_run : Writes 100 idle (map (on_stream 3) (hello ∷ [])) link_stream
unfolding on_stream write_packet write_locked write_body set_write_deadline wake_flusher
    length_error encoded_metadata put_fields write_writer
link_stream_run = writes dirty false refl refl (done link_stream)

abbrev accepting : Async (List ℕ) (ListQueue (Packet (List ℕ)))
accepting = record (connection []) { new_stream_handler = some 5 }

new_stream_transfer_example :
    (e : Async (List ℕ) (ListQueue (Packet (List ℕ)))) × (receive 100 dirty false double 21
        stream_pieces accepting
      ≡ some e)
    × (view e
        ≡ into_stream 0
            (map arrived (map (on_stream 3) (hello ∷ [])))
            (with_new_stream 5 3 (view accepting)))
unfolding on_stream find_stream write_packet write_locked write_body set_write_deadline wake_flusher
    length_error encoded_metadata put_fields write_writer flush flush_writer conn_write
new_stream_transfer_example =
    new_stream_transfer 100 dirty false double 20 stream_pieces idle link_stream accepting 3 5 hello
      [] (omega arith) (ground arith) refl refl refl link_stream_run refl double-grows refl refl
      (omega arith)

-- The stream 3 is open there.
abbrev with_stream : Async (List ℕ) (ListQueue (Packet (List ℕ)))
with_stream = record accepting {
  heap =
      record { id = 3; closed = false; queue = record { items = []; shut = false }; stale = [] }
      ∷ [];
  streams = (3, 0) ∷ [];
}

stream_transfer_example :
    (e : Async (List ℕ) (ListQueue (Packet (List ℕ)))) × (receive 100 dirty false double 21
        stream_pieces with_stream
      ≡ some e)
    × (view e ≡ into_stream 0 (map arrived (map (on_stream 3) (hello ∷ []))) (view with_stream))
unfolding on_stream find_stream at write_packet write_locked write_body set_write_deadline
    wake_flusher length_error encoded_metadata put_fields write_writer flush flush_writer conn_write
stream_transfer_example =
    stream_transfer 100 dirty false double 20 stream_pieces idle link_stream with_stream 3 5 0
      (new_box 3) (hello ∷ []) (omega arith) (ground arith)
      (record { has_handler = refl; is_found = refl; stands = refl; is_open = refl }) refl
      link_stream_run refl double-grows refl refl (omega arith)
