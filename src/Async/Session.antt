-- ===== src/Async/Session.antt =====
-- Two async.go connections: one writes packets and flushes, the read loop of the other delivers them.
pub mod Transfer
pub mod Streams
use frisbee_go.Prelude.{
  ℕ, suc, ◌≤◌, ◌<◌, ◌≡◌, refl, sym, ap, ◌∙◌, Bool, false, none, some, List, [], ◌∷◌, ◌++◌, length,
  length-append, All, arith,
}
use mathlib.Core.List.{append_assoc, append-nil}
use frisbee_go.Metadata.{IsInRange, size}
use frisbee_go.Packet.{BufferOps, Packet}
use frisbee_go.Queue.{QueueOps}
use frisbee_go.Bufio.{Writer, buffer_size}
use frisbee_go.Bufio.Account.{written, flush_writer_ok}
use frisbee_go.Sync.Frame.{frame, IsSendable}
use frisbee_go.Sync.Session.{frames}
use frisbee_go.Async.Framing.{
  Step, next, Attempt, LoopEnd, waiting, closes, spins, beyond, out_of_fuel,
}
use frisbee_go.Async.Framing.Spec.{
  stays_open, arriving, EndsBy, finish, follow, all_frames, map_end,
}
use frisbee_go.Async.Framing.Refinement.{read_loop-frames}
use frisbee_go.Async.State.{Link, Async}
use frisbee_go.Async.Write.{queued, op_stream, set_write_deadline, write_packet, flush}
use frisbee_go.Async.Accounting.{set_write_deadline_rest, write_packet-Took}
use frisbee_go.Async.Receive.{is_control, handlers, receive}
use frisbee_go.Async.Receive.Inbox.{Inbox, frame_handlers}
use frisbee_go.Async.Receive.View.{view, pong, handlers-Implements}
use frisbee_go.Async.Receive.Taken.{IsDelivered, taken_all, all_frames-taken}

-- A flush without an error leaves nothing in the buffer, and sends what was written, no more.
pub flush_ok :
    (c : Link)
    → (flush c).1 ≡ none
    → ((flush c).0.writer.buffered ≡ []) × ((flush c).0.writer.conn.sent ≡ written c.writer)
unfolding flush
flush_ok c h =
    let d = (set_write_deadline c).0 in
    ground
      (arith, set_write_deadline_rest c, flush_writer_ok d.writer, append-nil c.writer.conn.sent)

written_of : (v w : Writer) → v.buffered ≡ [] → v.conn.sent ≡ written w → written v ≡ written w
written_of v w empty sent = ap (λ b. v.conn.sent ++ b) empty ∙ append-nil v.conn.sent ∙ sent

waiting-view :
    {A B : Type 0} (f : A → B) (x : LoopEnd A) (b : B)
    → map_end f x ≡ waiting b
    → (a : A) × (x ≡ waiting a) × (f a ≡ b)
waiting-view f (waiting a) b e = (a, refl, ground (arith, e))
waiting-view f (closes x a) b e = absurd (ground (arith, e))
waiting-view f spins b e = absurd (ground (arith, e))
waiting-view f beyond b e = absurd (ground (arith, e))
waiting-view f out_of_fuel b e = absurd (ground (arith, e))

module _ {Buffer : Type 0} ⦃ops : BufferOps Buffer⦄ where
  -- Calls of `writePacket` on these packets, each of which reports no error, with flushes, of the
  -- flush loop or others, anywhere between them.
  pub data Writes (max : ℕ) : Link → List (Packet Buffer) → Link → Type 0 where
    done : (c : Link) → Writes max c [] c
    writes :
        {c d : Link} {p : Packet Buffer} {ps : List (Packet Buffer)} (pooled : List ℕ)
        (observed : Bool)
        → length pooled ≡ size
        → (write_packet max pooled observed p c).1 ≡ queued
        → Writes max (write_packet max pooled observed p c).0 ps d
        → Writes max c (p ∷ ps) d
    flushes :
        {c d : Link} {ps : List (Packet Buffer)}
        → (flush c).1 ≡ none
        → Writes max (flush c).0 ps d
        → Writes max c ps d

  Writes-written :
      {max : ℕ} {c d : Link} {ps : List (Packet Buffer)}
      → Writes max c ps d
      → length c.writer.buffered ≤ buffer_size
      → (written d.writer ≡ written c.writer ++ frames ps) × All (λ p. IsSendable max p) ps
  unfolding frames
  Writes-written (done c) s = (sym (append-nil (written c.writer)), tt)
  Writes-written {max = max} {c = c} {ps = p ∷ ps} (writes pooled observed z q w) s =
      let ((whole, small, _, _), good, _) = write_packet-Took max pooled observed p c z s q in
      let (all, rest) = Writes-written w small in
      (
        all
            ∙ ap (λ t. t ++ frames ps) whole
            ∙ append_assoc (written c.writer) (frame p) (frames ps),
        (good, rest),
      )
  Writes-written {c = c} {ps = ps} (flushes q w) s =
      let (empty, sent) = flush_ok c q in
      let (all, rest) = Writes-written w (omega (arith, ap length empty)) in
      (all ∙ ap (λ t. t ++ frames ps) (written_of (flush c).0.writer c.writer empty sent), rest)

  -- The other end can read these packets.
  delivered :
      (max : ℕ) (ps : List (Packet Buffer))
      → All (λ p. IsSendable max p) ps
      → All (λ p. IsInRange p.metadata × (is_control p.metadata.operation ≡ false)) ps
      → All (IsDelivered max) ps
  delivered max [] s o = tt
  delivered max (p ∷ ps) (s, ss) ((r, o), os) =
      (record { sendable = s; in_range = r; no_control = o }, delivered max ps ss os)

  module _ {Queue : Type 0} ⦃qs : QueueOps Queue (Packet Buffer)⦄ where
    -- Packets that are written and flushed at one end are delivered one after the other at the other
    -- end, whatever the deliveries come to.
    pub carries :
        (max : ℕ) (pooled : List ℕ) (observed : Bool) (append_cap : ℕ → ℕ) (fuel : ℕ)
        (events : List Attempt) (c d : Link) (r : Async Buffer Queue) (ps : List (Packet Buffer))
        (box : Inbox)
        → written c.writer ≡ []
        → Writes max c ps d
        → (flush d).1 ≡ none
        → All (λ p. IsInRange p.metadata × (is_control p.metadata.operation ≡ false)) ps
        → (All (λ p. IsSendable max p) ps → taken_all qs.shut_error (view r) ps ≡ next box)
        → ((n : ℕ) → n < append_cap n)
        → EndsBy stays_open events
        → arriving events ≡ (flush d).0.writer.conn.sent
        → length (arriving events) < fuel
        → (e : Async Buffer Queue) × (receive max pooled observed append_cap (suc fuel) events r
            ≡ some e)
          × (view e ≡ box)
    unfolding receive
    carries max pooled observed append_cap fuel events c d r ps box z w q o steps grows ends same
          f =
        let impl = handlers-Implements {Queue = Queue} max pooled observed in
        let (all, good) =
          Writes-written w
            (omega (arith, ap length z, length-append c.writer.conn.sent c.writer.buffered)) in
        let (empty, sent) = flush_ok d q in
        let stream : arriving events ≡ frames ps ++ [] =
          same ∙ sent ∙ all ∙ ap (λ t. t ++ frames ps) z ∙ sym (append-nil (frames ps)) in
        let looped =
          read_loop-frames view (handlers max pooled observed) _ impl max append_cap grows
            stays_open fuel buffer_size events r ends (omega arith) f in
        let told =
          all_frames-taken max stays_open qs.shut_error (pong ops max pooled observed) fuel (view r)
            ps [] (delivered max ps good o) (omega arith) (omega (arith, ap length stream)) in
        let (e, ended, seen) = waiting-view view _ _ (
          looped
          ∙ ap
              (λ bs.
                all_frames (frame_handlers qs.shut_error (pong ops max pooled observed)) max
                  stays_open fuel (view r) bs)
              stream
          ∙ told
          ∙ ap (λ x. follow x (finish stays_open)) (steps good)) in
        (e, rw (ended, receive) refl, seen)
