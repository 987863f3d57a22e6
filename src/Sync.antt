-- ===== src/Sync.antt =====
-- sync.go: the synchronous connection. Its mutex makes a call of `WritePacket` a step of its own;
-- what another goroutine can do meanwhile is to close the connection, and `observed` says whether
-- a call that fails finds that. Logging is left out.
pub mod Frame
pub mod RoundTrip
pub mod Closing
pub mod Session
mod Examples
use frisbee_go.Prelude.{
  ℕ, ◌+◌, Bool, true, false, not, ◌&&◌, ◌||◌, Option, none, some, List, [], ◌∷◌, ◌++◌, ltb, ◌==◌,
  if◌then◌else◌, length, take, replicate, get_or,
}
use frisbee_go.Metadata.{Metadata, packet_magic_header, size, put_fields, get_fields}
use frisbee_go.Errors.{
  Error, invalid_content_length, connection_closed, invalid_magic_header, content_length_exceeded,
  wraps_connection_closed,
}
use frisbee_go.Packet.{BufferOps, Packet, zero_metadata, get_packet}
use frisbee_go.Conn.{Conn, conn_write, conn_close, Filled, filled, failed, blocked, read_at_least}

pub record Sync : Type 0 where
  pub conn : Conn
  pub closed : Bool
  pub error : Option Error

-- `NewSync`.
unfoldable pub new_sync : Conn → Sync
new_sync conn = record { conn = conn; closed = false; error = none }

-- `(*Sync).close`: the compare-and-swap.
unfoldable pub close_once : Sync → Sync × Option Error
close_once c = if c.closed then (c, some connection_closed) else (record c { closed = true }, none)

-- `(*Sync).Close`.
unfoldable pub close_sync : Sync → Sync × Option Error
unfolding close_once conn_close
close_sync c =
    let (d, err) = close_once c in
    if wraps_connection_closed err then (d, none) else (record d { conn = conn_close d.conn }, err)

-- `(*Sync).closeWithError`.
unfoldable pub close_with_error : Sync → Error → Sync × Error
unfolding close_once conn_close
close_with_error c err =
    let (d, close_error) = close_once c in
    if wraps_connection_closed close_error
    then (d, connection_closed)
    else (record d { error = some err; conn = conn_close d.conn }, err)

-- `(*Sync).Raw`.
unfoldable pub raw : Sync → Sync × Conn
unfolding close_once
raw c = let (d, _) = close_once c in (d, d.conn)

-- Another goroutine has closed the connection, if it was observed to.
abbrev pub observe : Bool → Sync → Sync
observe observed c = record c { closed = c.closed || observed }

-- What a failed `Write` or `Read` leads to: `ConnectionClosed` if the connection is found closed,
-- and `closeWithError` otherwise.
unfoldable pub fail_io : Bool → Sync → Error → Sync × Error
fail_io observed c err =
    let d = observe observed c in
    if d.closed then (d, connection_closed) else close_with_error d err

abbrev as_error {ℓ} : {A : Type ℓ} → A × Error → A × Option Error
as_error (a, e) = (a, some e)

-- The tests that `WritePacket` makes before it takes the lock, as one `Option`.
unfoldable pub length_error : ℕ → ℕ → ℕ → Option Error
length_error max content_length len =
    if not (content_length == len)
    then some invalid_content_length
    else if ltb 0 max && ltb max content_length
    then some content_length_exceeded
    else none

-- What `ReadPacket` does: wait for ever, return a packet, or return an error.
pub data ReadResult (Buffer : Type 0) : Type 0 where
  waits : Sync → ReadResult Buffer
  returns : Sync → Packet Buffer → ReadResult Buffer
  fails : Sync → Error → ReadResult Buffer

abbrev pub fails_with : {Buffer : Type 0} → Sync × Error → ReadResult Buffer
fails_with (c, e) = fails c e

-- The end of a call of `io.ReadAtLeast`: the bytes that were read go on to `next`.
abbrev pub after_read :
    {Buffer : Type 0}
    → Bool
    → Sync
    → Filled
    → (Sync → List ℕ → ReadResult Buffer)
    → ReadResult Buffer
after_read observed c (blocked bs) next = waits (record c { conn = record (c.conn) { reads = [] } })
after_read observed c (failed bs e later) next =
    fails_with (fail_io observed (record c { conn = record (c.conn) { reads = later } }) e)
after_read observed c (filled bs later) next =
    next (record c { conn = record (c.conn) { reads = later } }) bs

module _ {Buffer : Type 0} ⦃ops : BufferOps Buffer⦄ where
  -- The header that goes before a packet: the code's own magic number, the packet's other fields.
  unfoldable pub encoded_metadata : List ℕ → Packet Buffer → List ℕ
  encoded_metadata buffer p =
      get_or (put_fields buffer (record (p.metadata) { magic = packet_magic_header })) []

  -- The write of the content, behind that of the header.
  unfoldable pub write_content : Bool → Sync → Packet Buffer → Sync × Option Error
  write_content observed c p =
      if p.metadata.content_length == 0
      then (c, none)
      else let (conn, err) =
          conn_write c.conn (take p.metadata.content_length (ops.bytes p.content)) in
        let d = record c { conn = conn } in
        elim err [ none ↦ (d, none) | some e ↦ as_error (fail_io observed d e) ]

  -- The write of the header, under the lock, and what follows it.
  unfoldable pub write_header : Bool → Sync → Packet Buffer → Sync × Option Error
  write_header observed c p =
      let (conn, err) = conn_write c.conn (encoded_metadata (replicate size 0) p) in
      let d = record c { conn = conn } in
      elim err [ some e ↦ as_error (fail_io observed d e) | none ↦ write_content observed d p ]

  -- `(*Sync).WritePacket`, with `DefaultMaxContentLength` as `max`.
  unfoldable pub write_packet : ℕ → Bool → Sync → Packet Buffer → Sync × Option Error
  write_packet max observed c p =
      elim (length_error max p.metadata.content_length (ops.len p.content)) [
        | some e ↦ (c, some e)
        | none ↦ if c.closed then (c, some connection_closed) else write_header observed c p
      ]

  -- The content is read through the slice of the grown buffer.
  unfoldable pub read_content : Bool → Sync → Packet Buffer → ReadResult Buffer
  read_content observed c p =
      let n = p.metadata.content_length in
      let content = ops.move_offset (ops.grow p.content n) n in
      let read =
        after_read observed c (read_at_least n [] c.conn.reads)
          (λ d bs. returns d (record p { content = ops.fill content bs })) in
      if ltb 0 n then read else returns c p

  -- The tests on the header, and the content.
  unfoldable pub read_body : ℕ → Bool → Sync → Packet Buffer → ReadResult Buffer
  read_body max observed c p =
      if not (p.metadata.magic == packet_magic_header)
      then fails_with (close_with_error c invalid_magic_header)
      else if ltb 0 max && ltb max p.metadata.content_length
      then fails_with (close_with_error c content_length_exceeded)
      else read_content observed c p

  -- `(*Sync).ReadPacket`; `recycled` is what the pool of packets has.
  unfoldable pub read_packet : ℕ → Bool → Option (Packet Buffer) → Sync → ReadResult Buffer
  read_packet max observed recycled c =
      if c.closed
      then fails c connection_closed
      else after_read observed c (read_at_least size [] c.conn.reads) λ d bs.
        read_body max observed d
          (record (get_packet recycled) { metadata = get_or (get_fields bs) zero_metadata })
