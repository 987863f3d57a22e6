-- ===== src/Server/Limited/Examples.antt =====
-- A connection of server.go with a limited number of goroutines, on a short run.
use frisbee_go.Prelude.{ℕ, ◌+◌, ◌≤◌, refl, true, false, none, some, List, [], ◌∷◌, arith}
use frisbee_go.Errors.{eof}
use frisbee_go.Concrete.{list_buffer}
use frisbee_go.Server.Samples.{farewell, table}
use frisbee_go.Server.Workers.{ready, finished, reading, has_returned}
use frisbee_go.Server.Limited.{Limited, busy, reads_one, starts, Runs, rests, moves, new_limited}
use frisbee_go.Server.Limited.Bounds.{busy-le-concurrency}

-- One of two places is taken elsewhere; the other one is for the goroutine of a packet.
abbrev full : Limited (List ℕ)
full = record (new_limited 1) {
  serving = record {
    workers = ready farewell none ∷ [];
    closed = false;
    told = [];
    loop = reading;
  };
  places = 2;
}

fills_up : Runs table 2 (new_limited 1) full
fills_up =
    moves (moves (rests _) (reads_one _ farewell none refl refl))
      (starts _ farewell none refl refl (omega arith))

busy-le-concurrency_example : full.elsewhere + busy full.serving.workers ≤ 2
busy-le-concurrency_example = busy-le-concurrency table 2 1 full (omega arith) fills_up

abbrev gone_home : Limited (List ℕ)
gone_home = record full {
  serving = record {
    workers = finished ∷ [];
    closed = true;
    told = some eof ∷ [];
    loop = has_returned;
  };
  cancelled = true;
}
