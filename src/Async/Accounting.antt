-- ===== src/Async/Accounting.antt =====
-- What the write path of async.go has sent and still holds: whole frames of the packets that it
-- took, in order, with the flush loop woken.
use frisbee_go.Prelude.{
  ℕ, ◌≤◌, ◌<◌, ◌≡◌, refl, inl, inr, Bool, false, List, [], ◌∷◌, ◌++◌, length, take, take_all,
  Option-cases, arith,
}
use mathlib.Core.List.{append_assoc, append-nil}
use frisbee_go.Metadata.{size}
use frisbee_go.Metadata.RoundTrip.{header}
use frisbee_go.Packet.{BufferOps, Packet}
use frisbee_go.Bufio.{buffer_size, write_writer}
use frisbee_go.Bufio.Account.{written, write_writer-Adds}
use frisbee_go.Sync.{length_error, encoded_metadata}
use frisbee_go.Sync.Frame.{
  wire_metadata, frame, IsSendable, encoded_metadata-header, length_error-none,
}
use frisbee_go.Async.State.{Link}
use frisbee_go.Async.Write.{
  queued, set_write_deadline, break_off, wake_flusher, write_body, write_locked, write_packet,
}

-- The connection took `bs` behind all that it took before, and the flush loop has a token.
abbrev pub Took : Link → List ℕ → Link → Type 0
Took c bs d =
    (written d.writer ≡ written c.writer ++ bs)
    × (length d.writer.buffered ≤ buffer_size)
    × (0 < d.flush_tokens)
    × (d.closed ≡ c.closed)

nil_of_length {ℓ} : {A : Type ℓ} (xs : List A) → length xs ≡ 0 → xs ≡ []
nil_of_length [] h = refl
nil_of_length (x ∷ xs) h = absurd (omega arith)

-- Setting the deadline touches nothing else.
pub set_write_deadline_rest :
    (c : Link)
    → ((set_write_deadline c).0.writer ≡ c.writer)
      × ((set_write_deadline c).0.closed ≡ c.closed)
      × ((set_write_deadline c).0.flush_tokens ≡ c.flush_tokens)
unfolding set_write_deadline
set_write_deadline_rest c = ground arith

module _ {Buffer : Type 0} ⦃ops : BufferOps Buffer⦄ where
  write_body-Took :
      (observed : Bool) (p : Packet Buffer) (c : Link)
      → p.metadata.content_length ≡ length (ops.bytes p.content)
      → length c.writer.buffered ≤ buffer_size
      → (write_body observed p c).1 ≡ queued
      → Took c (ops.bytes p.content) (write_body observed p c).0
  unfolding write_body wake_flusher break_off
  write_body-Took observed p c l s h =
      let content = ops.bytes p.content in
      let n = p.metadata.content_length in
      ground (
        arith,
        take_all n content,
        nil_of_length content,
        append-nil (written c.writer),
        write_writer-Adds c.writer (take n content) s,
      )

  write_locked-Took :
      (pooled : List ℕ) (observed : Bool) (p : Packet Buffer) (c : Link)
      → length pooled ≡ size
      → p.metadata.content_length ≡ length (ops.bytes p.content)
      → length c.writer.buffered ≤ buffer_size
      → (write_locked pooled observed p c).1 ≡ queued
      → Took c (frame p) (write_locked pooled observed p c).0 × (c.closed ≡ false)
  unfolding write_locked frame break_off
  write_locked-Took pooled observed p c z l s h =
      let d = (set_write_deadline c).0 in
      let head = encoded_metadata pooled p in
      let e = record d { writer = (write_writer d.writer head).0 } in
      ground (
        arith,
        set_write_deadline_rest c,
        encoded_metadata-header pooled p z,
        write_writer-Adds c.writer head s,
        write_body-Took observed p e l,
        append_assoc (written c.writer) (header (wire_metadata p)) (ops.bytes p.content),
      )

  -- A packet that `writePacket` takes, without an error, was sendable on an open connection: its
  -- frame follows, whole, all that was taken before, whether it has been sent or waits in the
  -- buffer, whatever the pooled header buffer held; the buffer stays within its size, and a token
  -- waits for the flush loop.
  pub write_packet-Took :
      (max : ℕ) (pooled : List ℕ) (observed : Bool) (p : Packet Buffer) (c : Link)
      → length pooled ≡ size
      → length c.writer.buffered ≤ buffer_size
      → (write_packet max pooled observed p c).1 ≡ queued
      → Took c (frame p) (write_packet max pooled observed p c).0
        × IsSendable max p
        × (c.closed ≡ false)
  unfolding write_packet
  write_packet-Took max pooled observed p c z s h =
      elim (Option-cases (length_error max p.metadata.content_length (ops.len p.content))) [
        | inr (e, bad) ↦ ground (arith, bad)
        | inl fine ↦
            let v = length_error-none max p fine in
            ground (arith, fine, v, write_locked-Took pooled observed p c z v.length_matches s)
      ]
