-- ===== src/Async/Session/Transfer.antt =====
-- Packets for the program, from one async.go connection to the other.
use frisbee_go.Prelude.{
  ℕ, suc, ◌<◌, ◌≡◌, Bool, false, none, some, List, [], ◌∷◌, length, All, arith,
}
use frisbee_go.Metadata.{IsInRange}
use frisbee_go.Packet.{BufferOps, Packet}
use frisbee_go.Queue.{QueueOps}
use frisbee_go.Bufio.Account.{written}
use frisbee_go.Sync.Frame.{IsSendable}
use frisbee_go.Async.Framing.{Attempt}
use frisbee_go.Async.Framing.Spec.{stays_open, arriving, EndsBy}
use frisbee_go.Async.State.{Link, Async}
use frisbee_go.Async.Write.{op_stream, flush}
use frisbee_go.Async.Receive.{is_control, receive}
use frisbee_go.Async.Receive.View.{view}
use frisbee_go.Async.Receive.InOrder.{IsForProgram, receives, taken_all-receives}
use frisbee_go.Async.Session.{Writes, carries}

module _ {Buffer : Type 0} ⦃ops : BufferOps Buffer⦄ where
  -- The packets are for the program at the other end.
  abbrev pub AreOrdinary : List (Packet Buffer) → Type 0
  AreOrdinary ps = All (λ p. IsInRange p.metadata × (op_stream < p.metadata.operation)) ps

  both :
      (max : ℕ) (ps : List (Packet Buffer))
      → All (λ p. IsSendable max p) ps
      → AreOrdinary ps
      → All (IsForProgram max) ps
  both max [] s o = tt
  both max (p ∷ ps) (s, ss) ((r, o), os) =
      (record { sendable = s; in_range = r; ordinary = o }, both max ps ss os)

  no_control :
      (ps : List (Packet Buffer))
      → AreOrdinary ps
      → All (λ p. IsInRange p.metadata × (is_control p.metadata.operation ≡ false)) ps
  unfolding is_control
  no_control [] o = tt
  no_control (p ∷ ps) ((r, o), os) = ((r, ground (arith, o)), no_control ps os)

  -- One end has written nothing yet, and writes packets, none of which is refused, with flushes
  -- anywhere between them, the last one after them; what it has put on its connection arrives
  -- at the other end in any pieces, which then stays open. The read loop there leaves in its
  -- incoming queue, which is open, what was in it and then the packets, all of them, in order,
  -- with their fields and their contents, and touches nothing else but the pool; as many rounds
  -- as there are bytes, and two more, are enough.
  pub transfer :
      {Queue : Type 0} ⦃qs : QueueOps Queue (Packet Buffer)⦄ (max : ℕ) (pooled : List ℕ)
      (observed : Bool) (append_cap : ℕ → ℕ) (fuel : ℕ) (events : List Attempt) (c d : Link)
      (r : Async Buffer Queue) (ps : List (Packet Buffer))
      → written c.writer ≡ []
      → Writes max c ps d
      → (flush d).1 ≡ none
      → AreOrdinary ps
      → qs.is_shut r.incoming ≡ false
      → ((n : ℕ) → n < append_cap n)
      → EndsBy stays_open events
      → arriving events ≡ (flush d).0.writer.conn.sent
      → length (arriving events) < fuel
      → (e : Async Buffer Queue) × (receive max pooled observed append_cap (suc fuel) events r
          ≡ some e)
        × (view e ≡ receives ps (view r))
  transfer ⦃qs⦄ max pooled observed append_cap fuel events c d r ps z w q o open_ grows ends same
        f =
      carries max pooled observed append_cap fuel events c d r ps (receives ps (view r)) z w q
        (no_control ps o)
        (λ good. taken_all-receives max qs.shut_error (view r) ps (both max ps good o) open_) grows
        ends same f
