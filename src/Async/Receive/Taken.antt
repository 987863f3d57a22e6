-- ===== src/Async/Receive/Taken.antt =====
-- The frames of packets, in the read loop of async.go: each is delivered, one after the other.
use frisbee_go.Prelude.{
  ℕ, zero, suc, ◌≤◌, ◌<◌, ◌≡◌, refl, ap, ◌∙◌, false, List, [], ◌∷◌, ◌++◌, length, drop,
  take-length-append, drop-length-append, length-append, All, arith,
}
use mathlib.Core.List.{append_assoc}
use frisbee_go.Metadata.{IsInRange, size, get_fields}
use frisbee_go.Metadata.Fields.{get_fields-none}
use frisbee_go.Metadata.RoundTrip.{header, length-header, get_fields-header}
use frisbee_go.Errors.{Error}
use frisbee_go.Packet.{BufferOps, Packet}
use frisbee_go.Sync.Frame.{wire_metadata, frame, IsSendable}
use frisbee_go.Sync.Session.{frames}
use frisbee_go.Async.Framing.Spec.{Ending, finish, follow, one_frame, frame_content, all_frames}
use frisbee_go.Async.Framing.{LoopEnd, Step, next, stop}
use frisbee_go.Async.State.{Link}
use frisbee_go.Async.Write.{Outcome}
use frisbee_go.Async.Receive.{is_control, look_up}
use frisbee_go.Async.Receive.Inbox.{Frame, Inbox, box_deliver, frame_handlers}

abbrev pub and_next : Step Inbox → (Inbox → Step Inbox) → Step Inbox
and_next (next c) go_on = go_on c
and_next (stop e c) go_on = stop e c

module _ {Buffer : Type 0} ⦃ops : BufferOps Buffer⦄ where
  -- What arrives of a packet: its fields, with the code's own magic number, and its content.
  abbrev pub arrived : Packet Buffer → Frame
  arrived p = record { header = wire_metadata p; content = ops.bytes p.content }

  -- A packet that the code will send, and that is not a PING or a PONG.
  pub record IsDelivered (max : ℕ) (p : Packet Buffer) : Type 0 where
    pub sendable : IsSendable max p
    pub in_range : IsInRange p.metadata
    pub no_control : is_control p.metadata.operation ≡ false

  -- The delivery of a packet, after the lookup, and that of packets one after the other.
  abbrev pub taken : Error → Inbox → Packet Buffer → Step Inbox
  taken shut_error c p =
      box_deliver shut_error c
        (look_up c.new_stream_handler c.streams p.metadata.operation p.metadata.id
          p.metadata.content_length)
        (arrived p)

  abbrev pub taken_all : Error → Inbox → List (Packet Buffer) → Step Inbox
  taken_all shut_error c [] = next c
  taken_all shut_error c (p ∷ ps) = and_next (taken shut_error c p) (λ d. taken_all shut_error d ps)

  wire-IsInRange : (p : Packet Buffer) → IsInRange p.metadata → IsInRange (wire_metadata p)
  wire-IsInRange p r = record {
    magic_fits = omega arith;
    id_fits = r.id_fits;
    operation_fits = r.operation_fits;
    content_length_fits = r.content_length_fits;
  }

  length-frame : (p : Packet Buffer) → size ≤ length (frame p)
  unfolding frame
  length-frame p = omega (
    arith,
    length-append (header (wire_metadata p)) (ops.bytes p.content),
    length-header (wire_metadata p),
  )

  module _ (max : ℕ) (k : Ending) (shut_error : Error) (pong : Link → Link × Outcome) where
    one_frame-taken :
        (go_on : Inbox → List ℕ → LoopEnd Inbox) (c : Inbox) (p : Packet Buffer) (rest : List ℕ)
        → IsDelivered max p
        → one_frame
            (frame_handlers shut_error pong)
            max
            k
            go_on
            c
            (wire_metadata p)
            (ops.bytes p.content ++ rest)
          ≡ follow (taken shut_error c p) (λ d. go_on d rest)
    unfolding one_frame frame_content
    one_frame-taken go_on c p rest v = ground (
      arith,
      take-length-append (ops.bytes p.content) rest,
      drop-length-append (ops.bytes p.content) rest,
      length-append (ops.bytes p.content) rest,
      v.no_control,
      v.sendable.length_matches,
      v.sendable.within_max,
    )

    first_frame :
        (fuel : ℕ) (c : Inbox) (p : Packet Buffer) (rest : List ℕ)
        → IsDelivered max p
        → all_frames (frame_handlers shut_error pong) max k (suc fuel) c (frame p ++ rest)
          ≡ follow
              (taken shut_error c p)
              (λ d. all_frames (frame_handlers shut_error pong) max k fuel d rest)
    unfolding all_frames frame header
    first_frame fuel c p rest v =
        let m = wire_metadata p in
        let cut = append_assoc (header m) (ops.bytes p.content) rest in
        let e =
          ap get_fields cut
          ∙ get_fields-header m (ops.bytes p.content ++ rest) (wire-IsInRange p v.in_range) in
        let behind =
          ap (drop size) cut ∙ drop-length-append (header m) (ops.bytes p.content ++ rest) in
        rw (e, all_frames)
          (rw behind (
            one_frame-taken (λ d bs. all_frames (frame_handlers shut_error pong) max k fuel d bs) c
              p rest v))

    -- Frames, with less than a header behind them, are delivered one after the other.
    pub all_frames-taken :
        (fuel : ℕ) (c : Inbox) (ps : List (Packet Buffer)) (tail : List ℕ)
        → All (IsDelivered max) ps
        → length tail < size
        → length (frames ps ++ tail) < fuel
        → all_frames (frame_handlers shut_error pong) max k fuel c (frames ps ++ tail)
          ≡ follow (taken_all shut_error c ps) (finish k)
    unfolding frames all_frames
    all_frames-taken zero c ps tail v t f = absurd (omega arith)
    all_frames-taken (suc fuel) c [] tail v t f = rw (get_fields-none tail t, all_frames) refl
    all_frames-taken (suc fuel) c (p ∷ ps) tail v t f =
        ap (all_frames (frame_handlers shut_error pong) max k (suc fuel) c)
          (append_assoc (frame p) (frames ps) tail)
        ∙ first_frame fuel c p (frames ps ++ tail) v.0
        ∙ by_step (taken shut_error c p) (λ d. all_frames-taken fuel d ps tail v.1 t (
            omega (
              arith,
              length-frame p,
              length-append (frame p) (frames ps),
              length-append (frame p ++ frames ps) tail,
              length-append (frames ps) tail,
              f,
            )))
      where
        by_step :
            (s : Step Inbox)
            → ((d : Inbox)
                → all_frames (frame_handlers shut_error pong) max k fuel d (frames ps ++ tail)
                  ≡ follow (taken_all shut_error d ps) (finish k))
            → follow s
                (λ d. all_frames (frame_handlers shut_error pong) max k fuel d (frames ps ++ tail))
              ≡ follow (and_next s (λ d. taken_all shut_error d ps)) (finish k)
        by_step (next d) h = h d
        by_step (stop e d) h = refl
