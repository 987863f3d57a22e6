-- ===== src/Sync/Examples.antt =====
-- Tests of the model of sync.go, and its theorems at concrete inputs.
use frisbee_go.Prelude.{ℕ, ◌≡◌, ◌≢◌, refl, Bool, true, false, Option, none, some, List, [], ◌∷◌}
use frisbee_go.Metadata.{put_fields, get_fields}
use frisbee_go.Errors.{Error, connection_closed, external, invalid_magic_header}
use frisbee_go.Packet.{Packet, get_packet}
use frisbee_go.Concrete.{list_buffer, packet}
use frisbee_go.Conn.{ReadEvent, chunk, conn_write, conn_close, read_at_least}
use frisbee_go.Sync.{
  Sync, close_once, close_with_error, fail_io, length_error, encoded_metadata, write_header,
  write_content, write_packet, fails, read_body, read_packet,
}
use frisbee_go.Sync.Frame.{Wrote, write_packet-Wrote}
use frisbee_go.Sync.Closing.{closes, raws, run, run-closed, Failed, read_packet-Failed}

abbrev writer : List (Option (ℕ × Error)) → Sync
writer outcomes = record {
  conn = record { reads = []; writes = outcomes; sent = []; is_closed = false };
  closed = false;
  error = none;
}

abbrev reader : List ReadEvent → Sync
reader events = record {
  conn = record { reads = events; writes = []; sent = []; is_closed = false };
  closed = false;
  error = none;
}

abbrev hello : Packet (List ℕ)
hello = packet 7 10 (104 ∷ 105 ∷ [])

abbrev wire : List ℕ
wire = 0 ∷ 15 ∷ 0 ∷ 7 ∷ 0 ∷ 10 ∷ 0 ∷ 0 ∷ 0 ∷ 2 ∷ 104 ∷ 105 ∷ []

sends_hello : (write_packet 100 false (writer []) hello).0.conn.sent ≡ wire
unfolding write_packet length_error write_header encoded_metadata put_fields write_content
    conn_write
sends_hello = refl

-- The content fails after one byte: the connection is closed and keeps the error.
content_fails : write_packet 100 false (writer (none ∷ some (1, external 3) ∷ [])) hello ≡ (
  record {
    conn = record {
      reads = [];
      writes = [];
      sent = 0 ∷ 15 ∷ 0 ∷ 7 ∷ 0 ∷ 10 ∷ 0 ∷ 0 ∷ 0 ∷ 2 ∷ 104 ∷ [];
      is_closed = true;
    };
    closed = true;
    error = some (external 3);
  },
  some (external 3),
)
unfolding write_packet length_error write_header encoded_metadata put_fields write_content
    conn_write fail_io close_with_error close_once conn_close
content_fails = refl

bad_magic : List ReadEvent
bad_magic = chunk (0 ∷ 14 ∷ 0 ∷ 7 ∷ 0 ∷ []) ∷ chunk (10 ∷ 0 ∷ 0 ∷ 0 ∷ 2 ∷ 104 ∷ 105 ∷ []) ∷ []

abbrev closed_reader : Sync
closed_reader = record {
  conn = record { reads = chunk (104 ∷ 105 ∷ []) ∷ []; writes = []; sent = []; is_closed = true };
  closed = true;
  error = some invalid_magic_header;
}

reads_bad_magic :
    read_packet {Buffer = List ℕ} 100 false none (reader bad_magic)
    ≡ fails closed_reader invalid_magic_header
unfolding bad_magic read_packet read_at_least get_fields get_packet read_body close_with_error
    close_once conn_close
reads_bad_magic = refl

write_packet-Wrote_example :
    Wrote 100
      (writer (some (4, external 3) ∷ []))
      hello
      (write_packet 100 false (writer (some (4, external 3) ∷ [])) hello)
write_packet-Wrote_example = write_packet-Wrote 100 false (writer (some (4, external 3) ∷ [])) hello

abbrev two_packets : List (Bool × Packet (List ℕ))
two_packets = (false, hello) ∷ (false, packet 8 11 []) ∷ []

abbrev cut_wire : List ReadEvent
cut_wire =
    chunk (0 ∷ 15 ∷ 0 ∷ [])
    ∷ chunk (7 ∷ 0 ∷ 10 ∷ 0 ∷ 0 ∷ 0 ∷ 2 ∷ 104 ∷ [])
    ∷ chunk (105 ∷ 0 ∷ 15 ∷ 0 ∷ 8 ∷ 0 ∷ 11 ∷ 0 ∷ 0 ∷ 0 ∷ 0 ∷ [])
    ∷ []

run-closed_example :
    (run {Buffer = List ℕ} closed_reader (closes ∷ raws ∷ []) ≡ closed_reader)
    × ((max : ℕ) (observed : Bool) (p : Packet (List ℕ))
        → (write_packet max observed (run {Buffer = List ℕ} closed_reader (closes ∷ raws ∷ [])) p).1
          ≢ none)
    × ((max : ℕ) (observed : Bool) (recycled : Option (Packet (List ℕ)))
        → read_packet max observed recycled
            (run {Buffer = List ℕ} closed_reader (closes ∷ raws ∷ []))
          ≡ fails closed_reader connection_closed)
run-closed_example = run-closed closed_reader (closes ∷ raws ∷ []) refl

read_packet-Failed_example : Failed closed_reader invalid_magic_header
read_packet-Failed_example =
    read_packet-Failed 100 false none (reader bad_magic) closed_reader invalid_magic_header
      reads_bad_magic
