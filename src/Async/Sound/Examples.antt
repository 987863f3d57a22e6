-- ===== src/Async/Sound/Examples.antt =====
-- The theorems on the state of async.go and stream.go, at concrete calls.
use frisbee_go.Prelude.{ℕ, List, true, false, some, [], ◌∷◌}
use frisbee_go.Errors.{eof}
use frisbee_go.Packet.{Packet}
use frisbee_go.Concrete.{ListQueue, list_buffer, list_queue, packet}
use frisbee_go.Async.State.{Async}
use frisbee_go.Async.Start.{new_async}
use frisbee_go.Async.Samples.{idle, hello, dirty}
use frisbee_go.Async.Sound.{IsSound, Keeps}
use frisbee_go.Async.Sound.Calls.{
  Call, writes, reads, fails_with, opens_stream, writes_stream, reads_stream, closes_stream,
  delivers, perform_all, run_all,
}
use frisbee_go.Async.Sound.Kept.{run_all-IsSound, perform_all-Keeps}

-- A stream is opened and written, a packet arrives on it, it is read and closed; then the read loop
-- meets the end of the connection.
abbrev calls : List (Call (List ℕ))
calls =
    opens_stream 3
    ∷ writes_stream false 0 hello
    ∷ delivers (record { is_stream = true; handler = some 1; stream = some 0 })
        (packet 3 2 (7 ∷ []))
    ∷ reads_stream 0
    ∷ closes_stream false 0
    ∷ writes false hello
    ∷ fails_with false eof
    ∷ reads
    ∷ []

abbrev start : Async (List ℕ) (ListQueue (Packet (List ℕ)))
start = new_async idle.writer.conn (some 1 ∷ [])

run_all-IsSound_example : IsSound (run_all 100 dirty calls start)
run_all-IsSound_example = run_all-IsSound 100 dirty idle.writer.conn (some 1 ∷ []) calls

perform_all-Keeps_example : Keeps start (perform_all 100 dirty calls start)
perform_all-Keeps_example = perform_all-Keeps 100 dirty calls start
