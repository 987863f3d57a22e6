-- ===== src/Async/Session/Streams.antt =====
-- The packets of a stream, from one async.go connection to the other.
use frisbee_go.Prelude.{
  ℕ, suc, ◌<◌, ◌≡◌, refl, Bool, false, none, some, List, [], ◌∷◌, map, length, All, arith,
}
use frisbee_go.BigEndian.{IsUint16, IsUint32}
use frisbee_go.Metadata.{IsInRange}
use frisbee_go.Packet.{BufferOps, Packet}
use frisbee_go.Queue.{QueueOps}
use frisbee_go.Bufio.Account.{written}
use frisbee_go.Async.Framing.{Attempt}
use frisbee_go.Async.Framing.Spec.{stays_open, arriving, EndsBy}
use frisbee_go.Async.State.{Link, Async, find_stream}
use frisbee_go.Async.Write.{flush}
use frisbee_go.Async.Close.{on_stream}
use frisbee_go.Async.Receive.{is_control, receive}
use frisbee_go.Async.Receive.Inbox.{StreamBox}
use frisbee_go.Async.Receive.View.{view}
use frisbee_go.Async.Receive.Taken.{arrived}
use frisbee_go.Async.Receive.Streams.{
  IsOnStream, IsOpenAt, into_stream, with_new_stream, taken_all-stream, taken_all-new_stream,
}
use frisbee_go.Async.Session.{Writes, carries}

module _ {Buffer : Type 0} ⦃ops : BufferOps Buffer⦄ where
  -- What `(*Stream).WritePacket` asks of packets, with the ranges of their fields.
  abbrev pub AreStreamable : List (Packet Buffer) → Type 0
  AreStreamable ps =
      All
        (λ p.
          (0 < p.metadata.content_length)
          × IsUint16 p.metadata.magic
          × IsUint32 p.metadata.content_length)
        ps

  on_stream-IsOnStream :
      (id : ℕ) (ps : List (Packet Buffer))
      → AreStreamable ps
      → All (IsOnStream id) (map (on_stream id) ps)
  unfolding on_stream
  on_stream-IsOnStream id [] v = tt
  on_stream-IsOnStream id (p ∷ ps) ((n, m, l), vs) =
      (record { is_stream = refl; same_id = refl; some_content = n }, on_stream-IsOnStream id ps vs)

  no_control :
      (id : ℕ) (ps : List (Packet Buffer))
      → IsUint16 id
      → AreStreamable ps
      → All
          (λ p. IsInRange p.metadata × (is_control p.metadata.operation ≡ false))
          (map (on_stream id) ps)
  unfolding on_stream is_control
  no_control id [] w v = tt
  no_control id (p ∷ ps) w ((n, m, l), vs) = (
    (
      record { magic_fits = m; id_fits = w; operation_fits = omega arith; content_length_fits = l },
      refl,
    ),
    no_control id ps w vs,
  )

  module _ {Queue : Type 0} ⦃qs : QueueOps Queue (Packet Buffer)⦄ (max : ℕ) (pooled : List ℕ)
      (observed : Bool) (append_cap : ℕ → ℕ) (fuel : ℕ) (events : List Attempt) (c d : Link)
      (r : Async Buffer Queue) (id h : ℕ) where
    -- One end has written nothing yet, and writes packets on a stream, none of which is refused,
    -- with flushes anywhere between them, the last one after them; what it has put on its
    -- connection arrives at the other end in any pieces, which stays open. There the stream is not
    -- known, and there is a handler of new streams: the read loop makes one stream, starts the
    -- handler on it, once, and leaves in its queue all the packets, in order, with their contents;
    -- nothing else is touched but the pool.
    pub new_stream_transfer :
        (p : Packet Buffer) (ps : List (Packet Buffer))
        → IsUint16 id
        → AreStreamable (p ∷ ps)
        → r.new_stream_handler ≡ some h
        → find_stream id r.streams ≡ none
        → written c.writer ≡ []
        → Writes max c (map (on_stream id) (p ∷ ps)) d
        → (flush d).1 ≡ none
        → ((n : ℕ) → n < append_cap n)
        → EndsBy stays_open events
        → arriving events ≡ (flush d).0.writer.conn.sent
        → length (arriving events) < fuel
        → (e : Async Buffer Queue) × (receive max pooled observed append_cap (suc fuel) events r
            ≡ some e)
          × (view e
              ≡ into_stream
                  (length (view r).heap)
                  (map arrived (map (on_stream id) (p ∷ ps)))
                  (with_new_stream h id (view r)))
    new_stream_transfer p ps w v o unknown z ws q grows ends same f =
        carries max pooled observed append_cap fuel events c d r (map (on_stream id) (p ∷ ps)) _ z
          ws q (no_control id (p ∷ ps) w v)
          (λ _.
            taken_all-new_stream qs.shut_error id h (view r) (on_stream id p)
              (map (on_stream id) ps) (on_stream-IsOnStream id (p ∷ ps) v) o unknown)
          grows ends same f

    -- The same, where the stream is open: the packets are in its queue behind those that were
    -- there, and no handler is started.
    pub stream_transfer :
        (s : ℕ) (t : StreamBox) (ps : List (Packet Buffer))
        → IsUint16 id
        → AreStreamable ps
        → IsOpenAt id s h t (view r)
        → written c.writer ≡ []
        → Writes max c (map (on_stream id) ps) d
        → (flush d).1 ≡ none
        → ((n : ℕ) → n < append_cap n)
        → EndsBy stays_open events
        → arriving events ≡ (flush d).0.writer.conn.sent
        → length (arriving events) < fuel
        → (e : Async Buffer Queue) × (receive max pooled observed append_cap (suc fuel) events r
            ≡ some e)
          × (view e ≡ into_stream s (map arrived (map (on_stream id) ps)) (view r))
    stream_transfer s t ps w v o z ws q grows ends same f =
        carries max pooled observed append_cap fuel events c d r (map (on_stream id) ps) _ z ws q
          (no_control id ps w v)
          (λ _.
            taken_all-stream qs.shut_error id s h t (view r) (map (on_stream id) ps)
              (on_stream-IsOnStream id ps v) o)
          grows ends same f
