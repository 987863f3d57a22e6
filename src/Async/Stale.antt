-- ===== src/Async/Stale.antt =====
-- What `close` of async.go leaves to be read, and what it sends.
use frisbee_go.Prelude.{
  ℕ, ◌≡◌, refl, inl, inr, Bool, true, false, none, some, List, [], ◌∷◌, Option-cases, arith,
}
use frisbee_go.Errors.{Error, connection_closed}
use frisbee_go.Packet.{BufferOps, Packet}
use frisbee_go.Queue.{QueueOps}
use frisbee_go.Bufio.{flush_writer}
use frisbee_go.Async.State.{Link, Async, modify, at}
use frisbee_go.Async.Write.{Outcome, op_stream, set_write_deadline, write_locked, write_packet}
use frisbee_go.Async.Accounting.{set_write_deadline_rest}
use frisbee_go.Async.Close.{
  returns, fails, last_flush, take_packet, shut_stream, settle, send_close, close_send,
  close_streams, close_once, close_with_error, close, read_stale, read,
}

pub last_flush-closed : (c : Link) → (last_flush c).closed ≡ c.closed
unfolding last_flush
last_flush-closed c =
    let d = (set_write_deadline c).0 in
    ground (
      arith,
      set_write_deadline_rest c,
      set_write_deadline_rest (record d { writer = (flush_writer d.writer).0 }),
    )

pub write_packet-closed :
    {Buffer : Type 0} ⦃ops : BufferOps Buffer⦄ (max : ℕ) (pooled : List ℕ) (observed : Bool)
    (p : Packet Buffer) (c : Link)
    → c.closed ≡ true
    → (write_packet max pooled observed p c).0 ≡ c
unfolding write_packet write_locked
write_packet-closed max pooled observed p c h = ground arith

module _ {Buffer Queue : Type 0} ⦃ops : BufferOps Buffer⦄
    ⦃qs : QueueOps Queue (Packet Buffer)⦄ where
  -- What the closing of streams leaves as it was.
  abbrev Same : Async Buffer Queue → Async Buffer Queue → Type 0
  Same c d =
      (d.link ≡ c.link) × (d.stale ≡ c.stale) × (d.error ≡ c.error) × (d.incoming ≡ c.incoming)

  take_packet-Same : (c : Async Buffer Queue) → Same c (take_packet c).1
  unfolding take_packet
  take_packet-Same c = ground arith

  module _ (max : ℕ) (pooled : List ℕ) (observed : Bool) where
    abbrev keep : Async Buffer Queue → Error → Async Buffer Queue × Error
    keep d e = (d, e)

    settle-Same :
        (c : Async Buffer Queue) (r : Link × Outcome) → r.0 ≡ c.link → Same c (settle keep c r).0
    unfolding settle
    settle-Same c r h = ground (arith, h)

    send_close-Same :
        (id : ℕ) (c : Async Buffer Queue)
        → c.link.closed ≡ true
        → Same c (send_close max pooled observed keep id c).0
    unfolding send_close
    send_close-Same id c h =
        let (got, d) = take_packet c in
        let p = record got {
          metadata = record (got.metadata) { id = id; operation = op_stream };
        } in
        ground (
          arith,
          take_packet-Same c,
          write_packet-closed max pooled observed p d.link,
          settle-Same d (write_packet max pooled observed p d.link),
        )

    close_send-Same :
        (s : ℕ) (c : Async Buffer Queue)
        → c.link.closed ≡ true
        → Same c (close_send max pooled observed keep false s c).0
    unfolding close_send
    close_send-Same s c h = elim (Option-cases (at s c.heap)) [
      | inl e ↦ rw (e, close_send) (refl, refl, refl, refl)
      | inr (t, e) ↦
          ground
            (arith, e, send_close-Same t.id (record c { heap = modify s shut_stream c.heap }) h)
    ]

    close_streams-Same :
        (table : List (ℕ × ℕ)) (c : Async Buffer Queue)
        → c.link.closed ≡ true
        → Same c (close_streams max pooled observed table c)
    unfolding close_streams
    close_streams-Same [] c h = (refl, refl, refl, refl)
    close_streams-Same ((id, s) ∷ rest) c h =
        let d = (close_send max pooled observed keep false s c).0 in
        ground (arith, close_send-Same s c h, close_streams-Same rest d)

    -- On an open connection `close` succeeds; the connection is closed with its queue closed and
    -- empty, what the queue held is what is stale now, in order; and of the link it does no more
    -- than to close it and to flush it a last time, however many streams are open: no packet that
    -- closes a stream is written.
    pub close_once_lem :
        (c : Async Buffer Queue)
        → c.link.closed ≡ false
        → ((close_once max pooled observed c).1 ≡ none)
          × ((close_once max pooled observed c).0.link
              ≡ last_flush (record (c.link) { closed = true }))
          × ((close_once max pooled observed c).0.link.closed ≡ true)
          × ((close_once max pooled observed c).0.stale ≡ qs.contents c.incoming)
          × (qs.contents (close_once max pooled observed c).0.incoming ≡ [])
          × (qs.is_shut (close_once max pooled observed c).0.incoming ≡ true)
          × ((close_once max pooled observed c).0.error ≡ c.error)
    unfolding close_once
    close_once_lem c o =
        let q = qs.shut c.incoming in
        let d = record c {
          link = record (c.link) { closed = true };
          incoming = (qs.drain q).0;
          stale = (qs.drain q).1;
          channels_closed = true;
        } in
        ground (
          arith,
          o,
          close_streams-Same d.streams d,
          last_flush-closed (record (c.link) { closed = true }),
          qs.drain_all q,
          qs.contents-shut c.incoming,
          qs.contents-drain q,
          qs.is_shut-drain q,
          qs.is_shut-shut c.incoming,
        )

  -- `ReadPacket` returns these packets, one after the other, and then `ConnectionClosed`, whatever
  -- happens to the connection while it waits.
  pub data Drains : Async Buffer Queue → List (Packet Buffer) → Type 0 where
    dry :
        (c : Async Buffer Queue)
        → ((later : Async Buffer Queue) → read later c ≡ fails c connection_closed)
        → Drains c []
    drains :
        {c d : Async Buffer Queue} {p : Packet Buffer} {ps : List (Packet Buffer)}
        → ((later : Async Buffer Queue) → read later c ≡ returns d p)
        → Drains d ps
        → Drains c (p ∷ ps)

  stale-Drains :
      (ps : List (Packet Buffer)) (c : Async Buffer Queue)
      → c.link.closed ≡ true
      → c.stale ≡ ps
      → Drains c ps
  unfolding read read_stale
  stale-Drains [] c h s = dry c λ later. ground (arith, h, s)
  stale-Drains (p ∷ ps) c h s =
      drains (λ later. ground (arith, h, s)) (stale-Drains ps (record c { stale = ps }) h refl)

  -- However an open connection is closed, by `Close` or by the error of one of its goroutines,
  -- `ReadPacket` then returns the packets that were delivered and not yet read, each once and in
  -- order, and after them `ConnectionClosed`.
  pub close_with_error-Drains :
      (max : ℕ) (pooled : List ℕ) (observed : Bool) (c : Async Buffer Queue) (e : Error)
      → c.link.closed ≡ false
      → Drains (close max pooled observed c).0 (qs.contents c.incoming)
        × Drains (close_with_error max pooled observed c e).0 (qs.contents c.incoming)
        × ((close_with_error max pooled observed c e).0.error ≡ some e)
        × ((close_with_error max pooled observed c e).1 ≡ e)
        × ((close max pooled observed c).1 ≡ none)
  unfolding close close_with_error
  close_with_error-Drains max pooled observed c e o =
      let (ok, _, shut, stale, _, _, _) = close_once_lem max pooled observed c o in
      let (ok', _, shut', stale', _, _, same) =
        close_once_lem max pooled observed (record c { error = some e }) o in
      (
        stale-Drains (qs.contents c.incoming) _ (ground arith) (ground arith),
        stale-Drains (qs.contents c.incoming) _ (ground arith) (ground arith),
        (ground arith),
        (ground arith),
        (ground arith),
      )

  pub close-closed :
      (max : ℕ) (pooled : List ℕ) (observed : Bool) (c : Async Buffer Queue)
      → c.link.closed ≡ false
      → (close max pooled observed c).0.link.closed ≡ true
  unfolding close
  close-closed max pooled observed c o =
      let (ok, _, shut, _, _, _, _) = close_once_lem max pooled observed c o in
      ground (arith, ok, shut)
