-- ===== src/Sync/Frame.antt =====
-- What a call of `WritePacket` in sync.go puts on the wire, on every branch.
use frisbee_go.Prelude.{
  ℕ, ◌≤◌, ◌≡◌, ◌≢◌, refl, sym, ap, ◌∙◌, ◌⊎◌, inl, inr, Bool, true, false, Option, none, some, List,
  [], ◌∷◌, ◌++◌, length, take, drop, drop-length-append, replicate, take_all, Option-cases, arith,
}
use mathlib.Core.List.{append_assoc, append-nil}
use frisbee_go.Metadata.{Metadata, packet_magic_header, size}
use frisbee_go.Metadata.RoundTrip.{header, put_fields-header}
use frisbee_go.Errors.{Error}
use frisbee_go.Packet.{BufferOps, Packet}
use frisbee_go.Conn.{Conn, conn_write, conn_close}
use frisbee_go.Sync.{
  Sync, close_with_error, close_once, fail_io, length_error, encoded_metadata, write_content,
  write_header, write_packet,
}

-- A failed read or write leaves the connection closed, and what was sent as it was.
pub fail_io-closed :
    (observed : Bool) (c : Sync) (e : Error)
    → ((fail_io observed c e).0.closed ≡ true) × ((fail_io observed c e).0.conn.sent ≡ c.conn.sent)
unfolding fail_io close_with_error close_once conn_close
fail_io-closed observed c e = ground arith

-- `ys` begins with `xs`.
abbrev pub Extends : List ℕ → List ℕ → Type 0
Extends xs ys = ys ≡ xs ++ drop (length xs) ys

pub append-Extends : (xs t : List ℕ) → Extends xs (xs ++ t)
append-Extends xs t = ap (λ u. xs ++ u) (sym (drop-length-append xs t))

pub Extends-trans : (xs ys zs : List ℕ) → Extends xs ys → Extends ys zs → Extends xs zs
Extends-trans xs ys zs p q =
    let t = drop (length xs) ys ++ drop (length ys) zs in
    let whole : zs ≡ xs ++ t =
      q
      ∙ ap (λ u. u ++ drop (length ys) zs) p
      ∙ append_assoc xs (drop (length xs) ys) (drop (length ys) zs) in
    whole ∙ append-Extends xs t ∙ ap (λ u. xs ++ drop (length xs) u) (sym whole)

-- A write of a slice is whole and appended to what was sent, or it fails.
pub conn_write_cases :
    (c : Conn) (bs : List ℕ)
    → (((conn_write c bs).1 ≡ none) × ((conn_write c bs).0.sent ≡ c.sent ++ bs))
      ⊎ ((e : Error) × ((conn_write c bs).1 ≡ some e) × Extends c.sent (conn_write c bs).0.sent)
unfolding conn_write
conn_write_cases c bs = by_outcome c.writes refl
  where
    by_outcome :
        (w : List (Option (ℕ × Error)))
        → c.writes ≡ w
        → (((conn_write c bs).1 ≡ none) × ((conn_write c bs).0.sent ≡ c.sent ++ bs))
          ⊎ ((e : Error) × ((conn_write c bs).1 ≡ some e) × Extends c.sent (conn_write c bs).0.sent)
    by_outcome [] h = inl (ground arith, ground arith)
    by_outcome (none ∷ later) h = inl (ground arith, ground arith)
    by_outcome (some (n, e) ∷ later) h =
        inr (e, ground arith, ground (arith, append-Extends c.sent (take n bs)))

nil_of_length {ℓ} : {A : Type ℓ} (xs : List A) → length xs ≡ 0 → xs ≡ []
nil_of_length [] h = refl
nil_of_length (x ∷ xs) h = absurd (omega arith)

-- The bytes are sent, or an error is reported and the connection is closed.
abbrev Delivered : Sync → List ℕ → Sync × Option Error → Type 0
Delivered c bs r =
    ((r.1 ≡ none)
      × (r.0.conn.sent ≡ c.conn.sent ++ bs)
      × (r.0.closed ≡ c.closed)
      × (r.0.error ≡ c.error))
    ⊎ ((r.1 ≢ none) × (r.0.closed ≡ true) × Extends c.conn.sent r.0.conn.sent)

module _ {Buffer : Type 0} ⦃ops : BufferOps Buffer⦄ where
  -- What travels before the content: the code's own magic number, the packet's other fields.
  abbrev pub wire_metadata : Packet Buffer → Metadata
  wire_metadata p = record (p.metadata) { magic = packet_magic_header }

  -- A packet on the wire.
  unfoldable pub frame : Packet Buffer → List ℕ
  frame p = header (wire_metadata p) ++ ops.bytes p.content

  -- What `WritePacket` demands of a packet.
  pub record IsSendable (max : ℕ) (p : Packet Buffer) : Type 0 where
    pub length_matches : p.metadata.content_length ≡ length (ops.bytes p.content)
    pub within_max : (max ≡ 0) ⊎ (p.metadata.content_length ≤ max)

  pub encoded_metadata-header :
      (b : List ℕ) (p : Packet Buffer)
      → length b ≡ size
      → encoded_metadata b p ≡ header (wire_metadata p)
  unfolding encoded_metadata
  encoded_metadata-header b p l = rw (put_fields-header b (wire_metadata p) l)

  pub length_error-none :
      (max : ℕ) (p : Packet Buffer)
      → length_error max p.metadata.content_length (ops.len p.content) ≡ none
      → IsSendable max p
  unfolding length_error
  length_error-none max p e = ground (arith, ops.len-bytes p.content)

  pub IsSendable-length_error :
      (max : ℕ) (p : Packet Buffer)
      → IsSendable max p
      → length_error max p.metadata.content_length (ops.len p.content) ≡ none
  unfolding length_error
  IsSendable-length_error max p v = ground (arith, ops.len-bytes p.content)

  -- What a call of `WritePacket` may come to.
  abbrev pub Wrote : ℕ → Sync → Packet Buffer → Sync × Option Error → Type 0
  Wrote max c p r =
      ((r.1 ≡ none)
        × (r.0.conn.sent ≡ c.conn.sent ++ frame p)
        × (r.0.closed ≡ c.closed)
        × (r.0.error ≡ c.error)
        × IsSendable max p
        × (c.closed ≡ false))
      ⊎ ((r.1 ≢ none) × (r.0 ≡ c))
      ⊎ ((r.1 ≢ none) × (r.0.closed ≡ true) × Extends c.conn.sent r.0.conn.sent)

  write_content-Delivered :
      (observed : Bool) (c : Sync) (p : Packet Buffer)
      → p.metadata.content_length ≡ length (ops.bytes p.content)
      → Delivered c (ops.bytes p.content) (write_content observed c p)
  unfolding write_content
  write_content-Delivered observed c p l =
      elim (conn_write_cases c.conn (take p.metadata.content_length (ops.bytes p.content))) [
        | inl whole ↦ ground (
          arith,
          take_all p.metadata.content_length (ops.bytes p.content),
          append-nil c.conn.sent,
          nil_of_length (ops.bytes p.content),
        )
        | inr (e, cut, front) ↦ ground (
          arith,
          append-nil c.conn.sent,
          nil_of_length (ops.bytes p.content),
          fail_io-closed observed
              (record c {
                conn = (conn_write c.conn (take p.metadata.content_length (ops.bytes p.content))).0;
              })
              e,
        )
      ]

  write_open-Delivered :
      (observed : Bool) (c : Sync) (p : Packet Buffer)
      → p.metadata.content_length ≡ length (ops.bytes p.content)
      → Delivered c (frame p) (write_header observed c p)
  unfolding write_header frame
  write_open-Delivered observed c p l =
      let bytes = encoded_metadata (replicate size 0) p in
      let d = record c { conn = (conn_write c.conn bytes).0 } in
      elim (conn_write_cases c.conn bytes) [
        | inl whole ↦ ground (
          arith,
          Extends-trans c.conn.sent d.conn.sent (write_content observed d p).0.conn.sent,
          append-Extends c.conn.sent (header (wire_metadata p)),
          encoded_metadata-header (replicate size 0) p refl,
          append_assoc c.conn.sent (header (wire_metadata p)) (ops.bytes p.content),
          write_content-Delivered observed d p l,
        )
        | inr (e, cut, front) ↦ ground (arith, fail_io-closed observed d e)
      ]

  -- Whatever the network does to the writes, a call of `WritePacket` either reports no error, and
  -- then the packet was sendable, the connection is open and stays so, and exactly the packet's
  -- frame was sent; or it reports an error and changes nothing; or it reports an error and leaves
  -- the connection closed, with what was sent before still in front.
  pub write_packet-Wrote :
      (max : ℕ) (observed : Bool) (c : Sync) (p : Packet Buffer)
      → Wrote max c p (write_packet max observed c p)
  unfolding write_packet
  write_packet-Wrote max observed c p =
      elim (Option-cases (length_error max p.metadata.content_length (ops.len p.content))) [
        | inr (e, bad) ↦ ground arith
        | inl fine ↦
            let v = length_error-none max p fine in
            ground (arith, v, write_open-Delivered observed c p v.length_matches)
      ]
