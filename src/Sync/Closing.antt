-- ===== src/Sync/Closing.antt =====
-- The closing of a sync.go connection: once, for good, and with the first error kept.
use frisbee_go.Prelude.{
  ℕ, ◌≡◌, ◌≢◌, refl, subst, ltb, if◌then◌else◌, ◌||◌, ◌⊎◌, inl, Bool, true, false, Option, none,
  some, List, [], ◌∷◌, arith,
}
use frisbee_go.Metadata.{size}
use frisbee_go.Errors.{Error, connection_closed, invalid_magic_header, content_length_exceeded}
use frisbee_go.Packet.{BufferOps, Packet}
use frisbee_go.Conn.{conn_close, read_at_least, Filled, filled, failed, blocked}
use frisbee_go.Sync.{
  Sync, close_once, close_sync, close_with_error, raw, fail_io, write_packet, ReadResult, waits,
  returns, fails, read_content, read_body, read_packet, after_read,
}

-- The calls of a connection's users.
pub data Call (Buffer : Type 0) : Type 0 where
  writes : ℕ → Bool → Packet Buffer → Call Buffer
  reads : ℕ → Bool → Option (Packet Buffer) → Call Buffer
  closes raws : Call Buffer

-- The state that a `ReadPacket` leaves.
abbrev pub after : {Buffer : Type 0} → ReadResult Buffer → Sync
after (waits c) = c
after (returns c p) = c
after (fails c e) = c

-- A call that reports `e` leaves the connection closed; and `e` is `ConnectionClosed`, or it is the
-- error that is kept, and the net.Conn is closed too.
abbrev pub Failed : Sync → Error → Type 0
Failed c e =
    (c.closed ≡ true) × ((e ≡ connection_closed) ⊎ ((c.error ≡ some e) × (c.conn.is_closed ≡ true)))

close_with_error-Failed :
    (c : Sync) (e : Error) → Failed (close_with_error c e).0 (close_with_error c e).1
unfolding close_with_error close_once conn_close
close_with_error-Failed c e = ground arith

fail_io-Failed :
    (observed : Bool) (c : Sync) (e : Error)
    → Failed (fail_io observed c e).0 (fail_io observed c e).1
unfolding fail_io
fail_io-Failed observed c e =
    ground (arith, close_with_error-Failed (record c { closed = c.closed || observed }) e)

-- Where a `ReadPacket` fails, it has failed in that sense.
abbrev FailsWell : {Buffer : Type 0} → ReadResult Buffer → Type 0
FailsWell (waits c) = Unit {0}
FailsWell (returns c p) = Unit {0}
FailsWell (fails c e) = Failed c e

FailsWell-if :
    {Buffer : Type 0} (b : Bool) (r s : ReadResult Buffer)
    → (b ≡ true → FailsWell r)
    → FailsWell s
    → FailsWell (if b then r else s)
FailsWell-if true r s h k = h refl
FailsWell-if false r s h k = k

after_read-FailsWell :
    {Buffer : Type 0} (observed : Bool) (c : Sync) (f : Filled)
    (next : Sync → List ℕ → ReadResult Buffer)
    → ((d : Sync) (bs : List ℕ) → FailsWell (next d bs))
    → FailsWell (after_read observed c f next)
after_read-FailsWell observed c (blocked bs) next h = tt
after_read-FailsWell observed c (failed bs e later) next h =
    fail_io-Failed observed (record c { conn = record (c.conn) { reads = later } }) e
after_read-FailsWell observed c (filled bs later) next h =
    h (record c { conn = record (c.conn) { reads = later } }) bs

module _ {Buffer : Type 0} ⦃ops : BufferOps Buffer⦄ where
  pub step : Sync → Call Buffer → Sync
  step c (writes max observed p) = (write_packet max observed c p).0
  step c (reads max observed recycled) = after (read_packet max observed recycled c)
  step c closes = (close_sync c).0
  step c raws = (raw c).0

  pub run : Sync → List (Call Buffer) → Sync
  run c [] = c
  run c (k ∷ ks) = run (step c k) ks

  step-closed : (c : Sync) (k : Call Buffer) → c.closed ≡ true → step c k ≡ c
  unfolding step write_packet read_packet close_sync raw
  step-closed c (writes max observed p) h = ground arith
  step-closed c (reads max observed recycled) h = ground arith
  step-closed c closes h = ground arith
  step-closed c raws h = ground arith

  run_closed : (c : Sync) (ks : List (Call Buffer)) → c.closed ≡ true → run c ks ≡ c
  unfolding run
  run_closed c [] h = refl
  run_closed c (k ∷ ks) h = rw (step-closed c k h) (run_closed c ks h)

  write_packet-closed :
      (max : ℕ) (observed : Bool) (c : Sync) (p : Packet Buffer)
      → c.closed ≡ true
      → (write_packet max observed c p).1 ≢ none
  unfolding write_packet
  write_packet-closed max observed c p h = ground arith

  read_packet-closed :
      (max : ℕ) (observed : Bool) (recycled : Option (Packet Buffer)) (c : Sync)
      → c.closed ≡ true
      → read_packet max observed recycled c ≡ fails c connection_closed
  unfolding read_packet
  read_packet-closed max observed recycled c h = ground arith

  -- A closed connection never changes again, whatever is called: no byte is sent or taken, the
  -- net.Conn and the kept error stay as they are; and every write reports an error, and every read
  -- `ConnectionClosed`.
  pub run-closed :
      (c : Sync) (ks : List (Call Buffer))
      → c.closed ≡ true
      → (run c ks ≡ c)
        × ((max : ℕ) (observed : Bool) (p : Packet Buffer)
            → (write_packet max observed (run c ks) p).1 ≢ none)
        × ((max : ℕ) (observed : Bool) (recycled : Option (Packet Buffer))
            → read_packet max observed recycled (run c ks) ≡ fails c connection_closed)
  run-closed c ks h = rw (run_closed c ks h) (
    refl,
    λ max observed p. write_packet-closed max observed c p h,
    λ max observed recycled. read_packet-closed max observed recycled c h,
  )

  read_content-FailsWell :
      (observed : Bool) (c : Sync) (p : Packet Buffer) → FailsWell (read_content observed c p)
  unfolding read_content
  read_content-FailsWell observed c p =
      FailsWell-if (ltb 0 p.metadata.content_length) _ _
        (λ e.
          after_read-FailsWell observed c (read_at_least p.metadata.content_length [] c.conn.reads)
            _ (λ d bs. tt {0}))
        (tt {0})

  read_body-FailsWell :
      (max : ℕ) (observed : Bool) (c : Sync) (p : Packet Buffer)
      → FailsWell (read_body max observed c p)
  unfolding read_body
  read_body-FailsWell max observed c p = ground (
    arith,
    close_with_error-Failed c invalid_magic_header,
    close_with_error-Failed c content_length_exceeded,
    read_content-FailsWell observed c p,
  )

  read_packet-FailsWell :
      (max : ℕ) (observed : Bool) (recycled : Option (Packet Buffer)) (c : Sync)
      → FailsWell (read_packet max observed recycled c)
  unfolding read_packet
  read_packet-FailsWell max observed recycled c =
      FailsWell-if c.closed _ _ (λ e. (e, inl refl))
        (after_read-FailsWell observed c (read_at_least size [] c.conn.reads) _
          (λ d bs. read_body-FailsWell max observed d _))

  -- Whenever `ReadPacket` returns an error, the connection is closed, and the error is
  -- `ConnectionClosed` or the one that `Error` reports from then on, with the net.Conn closed.
  pub read_packet-Failed :
      (max : ℕ) (observed : Bool) (recycled : Option (Packet Buffer)) (c d : Sync) (e : Error)
      → read_packet max observed recycled c ≡ fails d e
      → Failed d e
  read_packet-Failed max observed recycled c d e h =
      subst FailsWell h (read_packet-FailsWell max observed recycled c)
