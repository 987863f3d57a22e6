-- ===== src/Client/Setup/Closing.antt =====
-- How a client of client.go is closed.
use frisbee_go.Prelude.{ℕ, ◌≡◌, refl, Bool, true, false, none, some, List, arith}
use frisbee_go.Errors.{connection_closed}
use frisbee_go.Packet.{BufferOps, Packet}
use frisbee_go.Queue.{QueueOps}
use frisbee_go.Async.State.{Async}
use frisbee_go.Async.Close.{close_once, close}
use frisbee_go.Async.Stale.{Drains, close_with_error-Drains, close-closed}
use frisbee_go.Client.Setup.{Client, gives, close_client, raw_client}

module _ {Buffer Queue : Type 0} ⦃ops : BufferOps Buffer⦄ ⦃qs : QueueOps Queue (Packet Buffer)⦄
    (max : ℕ) (pooled : List ℕ) (observed : Bool) where
  close-again :
      (a : Async Buffer Queue) → a.link.closed ≡ true → close max pooled observed a ≡ (a, none)
  unfolding close close_once
  close-again a h = ground (arith, h)

  -- A client that is connected, and whose connection is open, is closed by `Close`, which returns no
  -- error. Its connection is closed then, and holds the packets that were delivered and not read for
  -- `ReadPacket`, each once and in order; to close the client again changes nothing and returns no
  -- error; and `Raw` returns the net.Conn and changes nothing either.
  pub close_client_lem :
      (c : Client Buffer Queue) (a : Async Buffer Queue)
      → c.conn ≡ some a
      → a.link.closed ≡ false
      → (d : Client Buffer Queue) × (b : Async Buffer Queue) × (close_client max pooled observed c
          ≡ gives d none)
        × (d.closed ≡ true)
        × (d.conn ≡ some b)
        × (b.link.closed ≡ true)
        × Drains b (qs.contents a.incoming)
        × (close_client max pooled observed d ≡ gives d none)
        × (raw_client max pooled observed d ≡ gives d (some b.link.writer.conn, none))
  unfolding close_client raw_client close_once
  close_client_lem c a e o =
      let (left, _, _, _, ok) = close_with_error-Drains max pooled observed a connection_closed o in
      let b = (close max pooled observed a).0 in
      let shut = close-closed max pooled observed a o in
      (
        record c { closed = true; conn = some b },
        b,
        ground (arith, e, ok),
        refl,
        refl,
        shut,
        left,
        ground (arith, close-again b shut),
        ground (arith, shut),
      )
