-- ===== src/Async/Write.antt =====
-- The write path of async.go: `writePacket` and `flush`, each a step of its own by the connection's
-- mutex. `observed` says whether a call that fails finds that another goroutine has closed the
-- connection meanwhile. Logging is left out.
use frisbee_go.Prelude.{ℕ, Bool, ◌||◌, Option, none, some, List, [], ◌∷◌, ◌==◌, if◌then◌else◌, take}
use frisbee_go.Errors.{Error, connection_closed}
use frisbee_go.Packet.{BufferOps, Packet}
use frisbee_go.Bufio.{flush_writer, write_writer}
use frisbee_go.Sync.{length_error, encoded_metadata}
use frisbee_go.Async.State.{Link}

-- The reserved operations of frisbee.go.
abbrev pub op_ping : ℕ
op_ping = 0

abbrev pub op_pong : ℕ
op_pong = 1

abbrev pub op_stream : ℕ
op_stream = 2

abbrev pub op_reserved9 : ℕ
op_reserved9 = 9

-- `c.conn.SetWriteDeadline(…)`.
unfoldable pub set_write_deadline : Link → Link × Option Error
set_write_deadline c = elim c.deadlines [
  | [] ↦ (c, none)
  | err ∷ later ↦ (record c { deadlines = later }, err)
]

-- How a write ends: `refused` returns its error as it is, `broken` is an error of the connection,
-- for which `writePacket` may call `closeWithError`.
pub data Outcome : Type 0 where
  queued : Outcome
  refused : Error → Outcome
  broken : Error → Outcome

-- An error under the lock: `ConnectionClosed`, if the connection is found closed.
unfoldable pub break_off : Bool → Link → Error → Link × Outcome
break_off observed c err =
    let d = record c { closed = c.closed || observed } in
    if d.closed then (d, refused connection_closed) else (d, broken err)

-- The token that wakes the flush loop, unless there is one.
unfoldable pub wake_flusher : Link → Link
wake_flusher c = if c.flush_tokens == 0 then record c { flush_tokens = 1 } else c

-- `c.writer.Write(bs)`, with `next` when it succeeds.
abbrev pub write_bytes : Bool → Link → List ℕ → (Link → Link × Outcome) → Link × Outcome
write_bytes observed c bs go_on =
    let (w, err) = write_writer c.writer bs in
    let d = record c { writer = w } in elim err [ some e ↦ break_off observed d e | none ↦ go_on d ]

module _ {Buffer : Type 0} ⦃ops : BufferOps Buffer⦄ where
  -- The content, if there is one, and the token.
  unfoldable pub write_body : Bool → Packet Buffer → Link → Link × Outcome
  write_body observed p c =
      if p.metadata.content_length == 0
      then (wake_flusher c, queued)
      else write_bytes observed c (take p.metadata.content_length (ops.bytes p.content))
          (λ d. (wake_flusher d, queued))

  -- What `writePacket` does under the lock, on a connection that it has found open.
  unfoldable pub write_open : List ℕ → Bool → Packet Buffer → Link → Link × Outcome
  write_open pooled observed p c =
      let (d, err) = set_write_deadline c in
      elim err [
        | some e ↦ break_off observed d e
        | none ↦ write_bytes observed d (encoded_metadata pooled p) (λ e. write_body observed p e)
      ]

  unfoldable pub write_locked : List ℕ → Bool → Packet Buffer → Link → Link × Outcome
  unfolding write_open
  write_locked pooled observed p c =
      if c.closed then (c, refused connection_closed) else write_open pooled observed p c

  -- `writePacket`, but for the call of `closeWithError`; `pooled` is the header buffer that the
  -- pool hands out.
  unfoldable pub write_packet : ℕ → List ℕ → Bool → Packet Buffer → Link → Link × Outcome
  write_packet max pooled observed p c =
      elim (length_error max p.metadata.content_length (ops.len p.content)) [
        | some e ↦ (c, refused e)
        | none ↦ write_locked pooled observed p c
      ]

-- What `flush` does under the lock, on a connection that it has found open.
unfoldable pub flush_open : Link → Link × Option Error
flush_open c = elim c.writer.buffered [
  | [] ↦ (c, none)
  | b ∷ bs ↦
      let (d, err) = set_write_deadline c in
      elim err [
        | some e ↦ (d, some e)
        | none ↦ let (w, e) = flush_writer d.writer in (record d { writer = w }, e)
      ]
]

-- `flush`.
unfoldable pub flush : Link → Link × Option Error
unfolding flush_open
flush c = if c.closed then (c, some connection_closed) else flush_open c
