-- ===== src/Async/Close.antt =====
-- The calls of async.go and stream.go that close a connection or a stream, and those that the
-- program makes on an open one. Each is taken as one step; where a call waits for the connection's
-- goroutines, these have ended. Logging is left out.
pub mod StreamEnd
mod Examples
use frisbee_go.Prelude.{
  ℕ, Bool, true, false, Option, none, some, List, [], ◌∷◌, ◌++◌, leb, ◌==◌, if◌then◌else◌, length,
}
use frisbee_go.Errors.{
  Error, connection_closed, stream_closed, invalid_operation, invalid_stream_packet, join,
  wraps_connection_closed,
}
use frisbee_go.Packet.{BufferOps, Packet, get_packet}
use frisbee_go.Conn.{conn_close}
use frisbee_go.Queue.{QueueOps, pops, pop_waits, pop_fails}
use frisbee_go.Bufio.{flush_writer}
use frisbee_go.Async.State.{
  Link, Stream, Async, find_stream, delete_stream, insert_stream, modify, at,
}
use frisbee_go.Async.Write.{
  Outcome, queued, refused, broken, op_stream, op_reserved9, set_write_deadline, write_packet,
  flush,
}

-- What a call that may wait for a packet does.
pub data Received (St Packet : Type 0) : Type 0 where
  waits : St → Received St Packet
  returns : St → Packet → Received St Packet
  fails : St → Error → Received St Packet

-- The identifier and the operation of a packet that goes out on a stream are overwritten.
unfoldable pub on_stream : {Buffer : Type 0} → ℕ → Packet Buffer → Packet Buffer
on_stream id p = record p { metadata = record (p.metadata) { id = id; operation = op_stream } }

-- The last flush of `close`, whose errors are dropped.
unfoldable pub last_flush : Link → Link
last_flush c = elim c.writer.buffered [
  | [] ↦ c
  | b ∷ bs ↦
      let d = (set_write_deadline c).0 in
      let e = record d { writer = (flush_writer d.writer).0 } in (set_write_deadline e).0
]

module _ {Buffer Queue : Type 0} ⦃ops : BufferOps Buffer⦄
    ⦃qs : QueueOps Queue (Packet Buffer)⦄ where
  -- `packet.Get`.
  unfoldable pub take_packet : Async Buffer Queue → Packet Buffer × Async Buffer Queue
  take_packet c = elim c.pool [
    | [] ↦ (get_packet none, c)
    | found ∷ later ↦ (get_packet found, record c { pool = later })
  ]

  -- `newStream`.
  unfoldable pub new_stream : ℕ → Stream Buffer Queue
  new_stream id = record { id = id; closed = false; queue = qs.new_queue; stale = [] }

  -- `(*Stream).close`: what the queue holds becomes stale.
  unfoldable pub shut_stream : Stream Buffer Queue → Stream Buffer Queue
  shut_stream s =
      let (queue, stale) = qs.drain (qs.shut s.queue) in
      if s.closed then s else record s { closed = true; queue = queue; stale = stale }

  -- The end of `writePacket`: the caller's error, or `closeWithError`, which is `fail`.
  unfoldable pub settle :
      (Async Buffer Queue → Error → Async Buffer Queue × Error)
      → Async Buffer Queue
      → Link × Outcome
      → Async Buffer Queue × Option Error
  settle fail c (link, queued) = (record c { link = link }, none)
  settle fail c (link, refused e) = (record c { link = link }, some e)
  settle fail c (link, broken e) = let (d, x) = fail (record c { link = link }) e in (d, some x)

  module _ (max : ℕ) (pooled : List ℕ) (observed : Bool) where
    -- The packet that tells the other end that a stream is closed.
    unfoldable pub send_close :
        (Async Buffer Queue → Error → Async Buffer Queue × Error)
        → ℕ
        → Async Buffer Queue
        → Async Buffer Queue × Option Error
    send_close fail id c =
        let (got, d) = take_packet c in
        let p = record got {
          metadata = record (got.metadata) { id = id; operation = op_stream };
        } in
        settle fail d (write_packet max pooled observed p d.link)

    -- `closeSend` on the stream at `s`; a pointer to no stream does not occur.
    unfoldable pub close_send :
        (Async Buffer Queue → Error → Async Buffer Queue × Error)
        → Bool
        → ℕ
        → Async Buffer Queue
        → Async Buffer Queue × Option Error
    close_send fail lock s c = elim (at s c.heap) [
      | none ↦ (c, none)
      | some stream ↦
          if stream.closed
          then (c, some stream_closed)
          else let (d, err) =
              send_close fail stream.id (record c { heap = modify s shut_stream c.heap }) in
            if lock
            then (record d { streams = delete_stream stream.id d.streams }, err)
            else (d, err)
    ]

    -- The loop of `close` over the streams. The connection is closed by then, so `writePacket`
    -- gives up before it could come to `closeWithError`.
    unfoldable pub close_streams : List (ℕ × ℕ) → Async Buffer Queue → Async Buffer Queue
    close_streams [] c = c
    close_streams ((id, s) ∷ rest) c = close_streams rest (close_send (λ d e. (d, e)) false s c).0

    -- `close`.
    unfoldable pub close_once : Async Buffer Queue → Async Buffer Queue × Option Error
    close_once c =
        if c.link.closed
        then (c, some connection_closed)
        else let (incoming, stale) = qs.drain (qs.shut c.incoming) in
          let d = record c {
            link = record (c.link) { closed = true };
            incoming = incoming;
            stale = stale;
            channels_closed = true;
          } in
          let e = close_streams d.streams d in (record e { link = last_flush e.link }, none)

    abbrev pub close_conn : Async Buffer Queue → Async Buffer Queue
    close_conn c = record c {
      link = record (c.link) {
        writer = record (c.link.writer) { conn = conn_close c.link.writer.conn };
      };
    }

    -- `closeWithError`.
    unfoldable pub close_with_error : Async Buffer Queue → Error → Async Buffer Queue × Error
    close_with_error c err =
        let (d, close_error) = close_once (record c { error = some err }) in
        elim close_error [
          | some x ↦ (record d { error = some (join x err) }, join x err)
          | none ↦ (close_conn d, err)
        ]

    -- `Close`.
    unfoldable pub close : Async Buffer Queue → Async Buffer Queue × Option Error
    close c =
        let (d, err) = close_once c in
        if wraps_connection_closed err then (d, none) else (close_conn d, err)

    -- `Flush`.
    unfoldable pub flush_now : Async Buffer Queue → Async Buffer Queue × Option Error
    flush_now c =
        let (link, err) = flush c.link in
        let d = record c { link = link } in
        elim err [ none ↦ (d, none) | some e ↦ let (f, x) = close_with_error d e in (f, some x) ]

    -- `WritePacket`.
    unfoldable pub write : Packet Buffer → Async Buffer Queue → Async Buffer Queue × Option Error
    write p c =
        if leb p.metadata.operation op_reserved9
        then (c, some invalid_operation)
        else settle close_with_error c (write_packet max pooled observed p c.link)

    -- `(*Stream).Close`.
    unfoldable pub close_stream : ℕ → Async Buffer Queue → Async Buffer Queue × Option Error
    close_stream s c = close_send close_with_error true s c

    -- `(*Stream).WritePacket` on the stream at `s`.
    unfoldable pub write_stream :
        ℕ → Packet Buffer → Async Buffer Queue → Async Buffer Queue × Option Error
    write_stream s p c = elim (at s c.heap) [
      | none ↦ (c, none)
      | some stream ↦
          if stream.closed
          then (c, some stream_closed)
          else if p.metadata.content_length == 0
          then (c, some invalid_stream_packet)
          else settle close_with_error c
              (write_packet max pooled observed (on_stream stream.id p) c.link)
    ]

  -- `ReadPacket` on a closed connection: a packet that was left over when it was closed.
  unfoldable pub read_stale : Async Buffer Queue → Received (Async Buffer Queue) (Packet Buffer)
  read_stale c = elim c.stale [
    | [] ↦ fails c connection_closed
    | p ∷ rest ↦ returns (record c { stale = rest }) p
  ]

  -- `ReadPacket`; `later` is the state in which a failed `Pop` returns.
  unfoldable pub read :
      Async Buffer Queue → Async Buffer Queue → Received (Async Buffer Queue) (Packet Buffer)
  read later c = if c.link.closed then read_stale c else elim (qs.pop c.incoming) [
    | pops rest p ↦ returns (record c { incoming = rest }) p
    | pop_waits ↦ waits c
    | pop_fails e ↦ if later.link.closed then read_stale later else fails later e
  ]

  -- The same for a stream.
  unfoldable pub read_stale_stream :
      Stream Buffer Queue → Received (Stream Buffer Queue) (Packet Buffer)
  read_stale_stream s = elim s.stale [
    | [] ↦ fails s stream_closed
    | p ∷ rest ↦ returns (record s { stale = rest }) p
  ]

  unfoldable pub read_stream :
      Stream Buffer Queue → Stream Buffer Queue → Received (Stream Buffer Queue) (Packet Buffer)
  read_stream later s = if s.closed then read_stale_stream s else elim (qs.pop s.queue) [
    | pops rest p ↦ returns (record s { queue = rest }) p
    | pop_waits ↦ waits s
    | pop_fails e ↦ if later.closed then read_stale_stream later else fails later e
  ]

  -- `NewStream`.
  unfoldable pub open_stream : ℕ → Async Buffer Queue → ℕ × Async Buffer Queue
  open_stream id c = elim (find_stream id c.streams) [
    | some s ↦ (s, c)
    | none ↦
        let s = length c.heap in
        (
          s,
          record c { heap = c.heap ++ new_stream id ∷ []; streams = insert_stream id s c.streams },
        )
  ]

  -- `SetNewStreamHandler`.
  unfoldable pub set_new_stream_handler : Option ℕ → Async Buffer Queue → Async Buffer Queue
  set_new_stream_handler handler c = record c { new_stream_handler = handler }
