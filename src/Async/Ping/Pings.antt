-- ===== src/Async/Ping/Pings.antt =====
-- What the ping loop of async.go writes, and how it ends.
use frisbee_go.Prelude.{ℕ, suc, ◌≡◌, ◌⊎◌, true, some, List, [], ◌∷◌, ◌++◌, length, replicate}
use frisbee_go.Errors.{connection_closed, join}
use frisbee_go.Metadata.{size}
use frisbee_go.Packet.{BufferOps, Packet}
use frisbee_go.Bufio.Account.{written}
use frisbee_go.Sync.Session.{frames}
use frisbee_go.Async.State.{Async}
use frisbee_go.Async.Receive.{ping_packet}
use frisbee_go.Async.Ping.{Wake, sees_close, ticks, PingLoop, waits, ends, gives_up}

-- How often the ticker ticks before the loop sees that the connection is closed.
abbrev pub count_ticks : List Wake → ℕ
count_ticks [] = 0
count_ticks (sees_close ∷ later) = 0
count_ticks (ticks pooled observed ∷ later) = suc (count_ticks later)

-- The pool hands out header buffers of the right size.
abbrev pub HasHeaders : List Wake → Type 0
HasHeaders [] = Unit
HasHeaders (sees_close ∷ later) = HasHeaders later
HasHeaders (ticks pooled observed ∷ later) = (length pooled ≡ size) × HasHeaders later

module _ {Buffer Queue : Type 0} ⦃ops : BufferOps Buffer⦄ where
  -- So many PING packets behind what the writer had.
  abbrev pub Pinged : Async Buffer Queue → ℕ → Async Buffer Queue → Type 0
  Pinged c n d =
      let ping : Packet Buffer = ping_packet in
      (written d.link.writer ≡ written c.link.writer ++ frames (replicate n ping))
      × (d.link.closed ≡ c.link.closed)

  -- What each end of the loop is to mean.
  abbrev pub IsRightEnd : Async Buffer Queue → ℕ → PingLoop (Async Buffer Queue) → Type 0
  IsRightEnd c n (waits d) = Pinged c n d
  IsRightEnd c n (ends d) = Pinged c n d
  IsRightEnd c n (gives_up e d) =
      (d.link.closed ≡ true) × ((d.error ≡ some e) ⊎ (d.error ≡ some (join connection_closed e)))
