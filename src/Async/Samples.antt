-- ===== src/Async/Samples.antt =====
-- A connection and packets for the tests of the model of async.go.
use frisbee_go.Prelude.{ℕ, false, none, List, [], ◌∷◌, replicate}
use frisbee_go.Packet.{Packet}
use frisbee_go.Concrete.{packet}
use frisbee_go.Async.State.{Link}

abbrev pub idle : Link
idle = record {
  writer = record {
    conn = record { reads = []; writes = []; sent = []; is_closed = false };
    buffered = [];
    failed = none;
  };
  deadlines = [];
  closed = false;
  flush_tokens = 0;
}

abbrev pub hello : Packet (List ℕ)
hello = packet 7 10 (104 ∷ 105 ∷ [])

abbrev pub empty : Packet (List ℕ)
empty = packet 8 11 []

abbrev pub dirty : List ℕ
dirty = replicate 10 255
