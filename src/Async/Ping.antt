-- ===== src/Async/Ping.antt =====
-- `pingLoop` of async.go: a goroutine that writes a PING packet whenever its ticker ticks, until the
-- connection is closed or a write fails.
pub mod Pings
mod Examples
use frisbee_go.Prelude.{ℕ, zero, suc, Bool, List, [], ◌∷◌}
use frisbee_go.Errors.{Error}
use frisbee_go.Packet.{BufferOps, Packet}
use frisbee_go.Queue.{QueueOps}
use frisbee_go.Async.State.{Link, Async}
use frisbee_go.Async.Write.{Outcome, queued, refused, broken, write_packet}
use frisbee_go.Async.Close.{close_with_error}
use frisbee_go.Async.Receive.{ping_packet}

-- What the `select` takes: the closed channel, or a tick, with the header buffer that the write gets
-- from the pool and whether a write that fails finds that another goroutine has closed the connection.
pub data Wake : Type 0 where
  sees_close : Wake
  ticks : List ℕ → Bool → Wake

-- How the loop ends, or that it goes on to wait.
pub data PingLoop (St : Type 0) : Type 0 where
  waits : St → PingLoop St
  ends : St → PingLoop St
  gives_up : Error → St → PingLoop St

module _ {Buffer Queue : Type 0} ⦃ops : BufferOps Buffer⦄ ⦃qs : QueueOps Queue (Packet Buffer)⦄
    (max : ℕ) where
  -- A write that failed: `closeWithError` is called with its error.
  unfoldable pub after_ping :
      List ℕ
      → Bool
      → Async Buffer Queue
      → Outcome
      → PingLoop (Async Buffer Queue)
      → PingLoop (Async Buffer Queue)
  after_ping pooled observed c queued rest = rest
  after_ping pooled observed c (refused e) rest =
      let (d, x) = close_with_error max pooled observed c e in gives_up e d
  after_ping pooled observed c (broken e) rest =
      let (d, x) = close_with_error max pooled observed c e in gives_up e d

  unfoldable pub ping_loop : List Wake → Async Buffer Queue → PingLoop (Async Buffer Queue)
  ping_loop [] c = waits c
  ping_loop (sees_close ∷ later) c = ends c
  ping_loop (ticks pooled observed ∷ later) c =
      let ping : Packet Buffer = ping_packet in
      let (link, outcome) = write_packet max pooled observed ping c.link in
      let d = record c { link = link } in
      let rest = ping_loop later d in after_ping pooled observed d outcome rest
