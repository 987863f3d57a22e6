-- ===== src/Async/Flow/Examples.antt =====
-- The goroutines around the buffered writer of async.go, on a short run.
use frisbee_go.Prelude.{ℕ, ◌≡◌, refl, inr, false, ◌&&◌, List, arith}
use frisbee_go.Metadata.{put_fields}
use frisbee_go.Concrete.{list_buffer}
use frisbee_go.Bufio.{write_writer}
use frisbee_go.Sync.{encoded_metadata}
use frisbee_go.Async.Write.{set_write_deadline, wake_flusher, write_body, write_open}
use frisbee_go.Async.Samples.{idle, hello, dirty}
use frisbee_go.Async.Flow.{
  free, waits, nobody, Flow, breaking, enters, leaves, Flows, stays, moves, new_flow,
}
use frisbee_go.Async.Flow.Invariant.{is_writing, channels_closed, Awake, Flows-Awake}
use frisbee_go.Async.Flow.Bounds.{IsWithin, Flows-IsWithin}
use frisbee_go.Async.Flow.Progress.{Flushed, Flows-Flushed}

-- After `hello` has been written, with a token for the flush loop.
abbrev written_hello : Flow (List ℕ)
written_hello = record {
  link = (write_open dirty false hello idle).0;
  lock = free;
  flusher = waits;
  closer = nobody;
  failing = breaking (write_open dirty false hello idle).1;
}

writes_hello : Flows 100 (new_flow idle) written_hello
unfolding write_open write_body set_write_deadline wake_flusher encoded_metadata put_fields
    write_writer breaking
writes_hello =
    moves
      (moves (stays (new_flow idle)) (
        enters _ dirty hello refl refl refl
          (record { length_matches = refl; within_max = inr (omega arith) })))
      (leaves _ dirty hello refl)

Flows-Awake_example :
    ((is_writing written_hello.lock && channels_closed written_hello.closer) ≡ false)
    × Awake written_hello
Flows-Awake_example = Flows-Awake 100 idle written_hello refl writes_hello

Flows-Flushed_example : Flushed 3 written_hello
unfolding write_open write_body set_write_deadline wake_flusher encoded_metadata put_fields
    write_writer breaking
Flows-Flushed_example =
    Flows-Flushed 100 idle written_hello refl writes_hello refl refl refl
      (record { writes_succeed = refl; deadlines_succeed = refl; no_failure = refl })

Flows-IsWithin_example : IsWithin written_hello.link
Flows-IsWithin_example =
    Flows-IsWithin 100 idle written_hello (omega arith, omega arith) writes_hello
