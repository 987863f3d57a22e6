-- ===== src/Sync/RoundTrip.antt =====
-- What `WritePacket` of sync.go puts on the wire, `ReadPacket` reads back at the other end.
use frisbee_go.Prelude.{
  ℕ, ◌≤◌, ◌≡◌, refl, sym, ap, ◌∙◌, ◌⊎◌, Bool, false, Option, none, some, List, [], ◌∷◌, ◌++◌,
  length, take, drop, drop_all, length-append, take-length-append, drop-length-append, arith,
}
use mathlib.Core.List.{append_assoc, append-nil}
use frisbee_go.Metadata.{Metadata, IsInRange, packet_magic_header, get_fields}
use frisbee_go.Metadata.RoundTrip.{header, length-header, get_fields-header}
use frisbee_go.Packet.{BufferOps, Packet, get_packet, get_packet-IsReset}
use frisbee_go.Conn.{ReadEvent, conn_write, read_at_least, filled}
use frisbee_go.Conn.Stream.{stream, AllChunks, read_at_least-filled}
use frisbee_go.Sync.{
  Sync, write_content, write_header, write_packet, returns, read_content, read_body, read_packet,
}
use frisbee_go.Sync.Frame.{wire_metadata, frame, IsSendable, IsSendable-length_error}

-- Two byte lists of one length with equal continuations are equal, and so are the continuations.
append_split {ℓ} :
    {A : Type ℓ} (xs ys us vs : List A)
    → length xs ≡ length us
    → xs ++ ys ≡ us ++ vs
    → (xs ≡ us) × (ys ≡ vs)
append_split xs ys us vs l e = (
  sym (take-length-append xs ys)
      ∙ ap (take (length xs)) e
      ∙ ap (λ n. take n (us ++ vs)) l
      ∙ take-length-append us vs,
  sym (drop-length-append xs ys)
      ∙ ap (drop (length xs)) e
      ∙ ap (λ n. drop n (us ++ vs)) l
      ∙ drop-length-append us vs,
)

-- Where a given byte list arrives first, in whatever pieces, `io.ReadAtLeast` reads it and leaves
-- what follows.
pub read_exactly :
    (bs rest : List ℕ) (events : List ReadEvent)
    → AllChunks events
    → stream events ≡ bs ++ rest
    → (later : List ReadEvent) × (read_at_least (length bs) [] events ≡ filled bs later)
      × AllChunks later
      × (stream later ≡ rest)
read_exactly bs rest events a e =
    let (got, later, r, c, l, s) =
      read_at_least-filled (length bs) [] events a (omega arith)
        (omega (arith, ap length e, length-append bs rest)) in
    let (same, left) = append_split got (stream later) bs rest l (s ∙ e) in
    (later, r ∙ ap (λ t. filled t later) same, c, left)

module _ {Buffer : Type 0} ⦃ops : BufferOps Buffer⦄ where
  -- On a connection that is open and whose writes succeed, a sendable packet is sent whole.
  pub write_packet_succeeds :
      (max : ℕ) (observed : Bool) (c : Sync) (p : Packet Buffer)
      → c.closed ≡ false
      → c.conn.writes ≡ []
      → IsSendable max p
      → (write_packet max observed c p).1 ≡ none
  unfolding write_packet write_header write_content conn_write
  write_packet_succeeds max observed c p o w v = ground (arith, IsSendable-length_error max p v)

  -- A content that arrives whole is read into the packet's buffer.
  read_content-returns :
      (observed : Bool) (c : Sync) (p : Packet Buffer) (content rest : List ℕ)
      → ops.bytes p.content ≡ []
      → p.metadata.content_length ≡ length content
      → AllChunks c.conn.reads
      → stream c.conn.reads ≡ content ++ rest
      → (later : List ReadEvent) × (b : Buffer) × (read_content observed c p
          ≡ returns
              (record c { conn = record (c.conn) { reads = later } })
              (record p { content = b }))
        × (ops.bytes b ≡ content)
        × AllChunks later
        × (stream later ≡ rest)
  unfolding read_content
  read_content-returns observed c p [] rest z l a s =
      (c.conn.reads, p.content, ground arith, z, a, s)
  read_content-returns observed c p (x ∷ xs) rest z l a s =
      let content = x ∷ xs in
      let n = p.metadata.content_length in
      let grown = ops.move_offset (ops.grow p.content n) n in
      let long : length (ops.bytes grown) ≡ length content =
        omega (arith, ops.length-move_offset p.content n, ap length z) in
      let (later, r, b, t) = read_exactly content rest c.conn.reads a s in
      (
        later,
        ops.fill grown content,
        ground (arith, r),
        ops.bytes-fill grown content (omega arith)
            ∙ ap (λ t. content ++ t) (drop_all (length content) (ops.bytes grown) (omega arith))
            ∙ append-nil content,
        b,
        t,
      )

  -- A good header sends `ReadPacket` on to the content.
  read_packet-read_content :
      (max : ℕ) (observed : Bool) (recycled : Option (Packet Buffer)) (c : Sync) (m : Metadata)
      (later : List ReadEvent)
      → c.closed ≡ false
      → read_at_least (length (header m)) [] c.conn.reads ≡ filled (header m) later
      → IsInRange m
      → m.magic ≡ packet_magic_header
      → (max ≡ 0) ⊎ (m.content_length ≤ max)
      → read_packet max observed recycled c
        ≡ read_content observed
            (record c { conn = record (c.conn) { reads = later } })
            (record (get_packet recycled) { metadata = m })
  unfolding read_packet read_body
  read_packet-read_content max observed recycled c m later o h r g w =
      let fields : get_fields (header m) ≡ some m =
        ap get_fields (sym (append-nil (header m))) ∙ get_fields-header m [] r in
      let h' = rw length-header at h in ground (arith, h', fields)

  -- `ReadPacket` on an open connection on which a frame arrives, in whatever pieces and with
  -- whatever behind it: the packet that was sent comes back and the rest is left.
  pub read_frame :
      (max : ℕ) (observed : Bool) (recycled : Option (Packet Buffer)) (c : Sync) (p : Packet Buffer)
      (rest : List ℕ)
      → c.closed ≡ false
      → AllChunks c.conn.reads
      → stream c.conn.reads ≡ frame p ++ rest
      → IsInRange p.metadata
      → IsSendable max p
      → (later : List ReadEvent) × (b : Buffer) × (read_packet max observed recycled c
          ≡ returns
              (record c { conn = record (c.conn) { reads = later } })
              (record { metadata = wire_metadata p; content = b }))
        × (ops.bytes b ≡ ops.bytes p.content)
        × AllChunks later
        × (stream later ≡ rest)
  unfolding frame
  read_frame max observed recycled c p rest o a s r v =
      let m = wire_metadata p in
      let content = ops.bytes p.content in
      let (later, h, b, t) =
        read_exactly (header m) (content ++ rest) c.conn.reads a
          (s ∙ append_assoc (header m) content rest) in
      let d = record c { conn = record (c.conn) { reads = later } } in
      let q = record (get_packet recycled) { metadata = m } in
      let (last, got, e, same, k, u) =
        read_content-returns observed d q content rest (get_packet-IsReset recycled).no_content
          v.length_matches b t in
      (
        last,
        got,
        read_packet-read_content max observed recycled c m later o h
              (record {
                magic_fits = omega arith;
                id_fits = r.id_fits;
                operation_fits = r.operation_fits;
                content_length_fits = r.content_length_fits;
              })
              refl v.within_max
            ∙ e,
        same,
        k,
        u,
      )
