-- ===== src/Async/Receive/View.antt =====
-- The read loop of async.go, packet by packet, does with its queues and buffers what the frames say.
use frisbee_go.Prelude.{
  ℕ, zero, suc, ◌≡◌, refl, ap, ◌⊎◌, inl, inr, Bool, Option, none, some, List, [], ◌∷◌, map, length,
  Bool-cases, Option-cases, arith,
}
use mathlib.Core.List.{map-append}
use frisbee_go.Packet.{BufferOps, Packet, get_packet-IsReset}
use frisbee_go.Queue.{QueueOps}
use frisbee_go.Async.Framing.{Step}
use frisbee_go.Async.Framing.Spec.{map_step, Implements}
use frisbee_go.Async.State.{Link, Stream, Async, modify, at}
use frisbee_go.Async.Write.{Outcome, write_packet}
use frisbee_go.Async.Close.{take_packet, new_stream, shut_stream}
use frisbee_go.Async.Receive.{
  Found, pong_packet, control, push_incoming, end_stream, ensure_stream, push_stream,
  deliver_stream, deliver, handlers,
}
use frisbee_go.Async.Receive.Inbox.{
  Frame, Mailbox, StreamBox, Inbox, post, shut_box, box_control, box_incoming, box_end, box_ensure,
  box_push, box_stream, box_deliver, frame_handlers,
}

module _ {ℓ κ} {A : Type ℓ} {B : Type κ} (v : A → B) where
  map-modify :
      (i : ℕ) (f : A → A) (g : B → B) (xs : List A)
      → ((x : A) → v (f x) ≡ g (v x))
      → map v (modify i f xs) ≡ modify i g (map v xs)
  unfolding modify
  map-modify i f g [] h = refl
  map-modify zero f g (x ∷ xs) h = ap (λ y. y ∷ map v xs) (h x)
  map-modify (suc i) f g (x ∷ xs) h = ap (λ ys. v x ∷ ys) (map-modify i f g xs h)

  map-at :
      (i : ℕ) (xs : List A)
      → ((at i xs ≡ none) × (at i (map v xs) ≡ none))
        ⊎ ((x : A) × (at i xs ≡ some x) × (at i (map v xs) ≡ some (v x)))
  unfolding at
  map-at i [] = inl (refl, refl)
  map-at zero (x ∷ xs) = inr (x, refl, refl)
  map-at (suc i) (x ∷ xs) = map-at i xs

  length-map : (xs : List A) → length (map v xs) ≡ length xs
  length-map [] = refl
  length-map (x ∷ xs) = ap suc (length-map xs)

-- The answer to a PING.
abbrev pub pong : {Buffer : Type 0} → BufferOps Buffer → ℕ → List ℕ → Bool → Link → Link × Outcome
pong {Buffer} ops max pooled observed l =
    write_packet {Buffer = Buffer} ⦃ops = ops⦄ max pooled observed (pong_packet ⦃ops = ops⦄) l

pool-cases : {A : Type 0} (xs : List A) → (xs ≡ []) ⊎ ((x : A) × (ys : List A) × (xs ≡ x ∷ ys))
pool-cases [] = inl refl
pool-cases (x ∷ xs) = inr (x, xs, refl)

abbrev pub view_packet : {Buffer : Type 0} → BufferOps Buffer → Packet Buffer → Frame
view_packet ops p = record { header = p.metadata; content = ops.bytes p.content }

abbrev pub view_queue :
    {Buffer Queue : Type 0} → BufferOps Buffer → QueueOps Queue (Packet Buffer) → Queue → Mailbox
view_queue ops qs q = record {
  frames = map (λ p. view_packet ops p) (qs.contents q);
  is_shut = qs.is_shut q;
}

module _ {Buffer Queue : Type 0} ⦃ops : BufferOps Buffer⦄
    ⦃qs : QueueOps Queue (Packet Buffer)⦄ where
  abbrev pub view_stream : Stream Buffer Queue → StreamBox
  view_stream s = record {
    id = s.id;
    closed = s.closed;
    mailbox = view_queue ops qs s.queue;
    stale = map (λ p. view_packet ops p) s.stale;
  }

  -- What the connection holds, without the pool of packets, which is of no consequence.
  abbrev pub view : Async Buffer Queue → Inbox
  view c = record {
    link = c.link;
    incoming = view_queue ops qs c.incoming;
    stale = map (λ p. view_packet ops p) c.stale;
    error = c.error;
    channels_closed = c.channels_closed;
    heap = map view_stream c.heap;
    streams = c.streams;
    new_stream_handler = c.new_stream_handler;
    started = c.started;
  }

  view-push :
      (q : Queue) (p : Packet Buffer)
      → view_queue ops qs (qs.push q p).0 ≡ post (view_queue ops qs q) (view_packet ops p)
  view-push q p = elim (Bool-cases (qs.is_shut q)) [
    | inl shut ↦ ground (arith, qs.push_shut q p shut)
    | inr open_ ↦ ground (
      arith,
      qs.push_open q p open_,
      map-append (λ (r : Packet Buffer). view_packet ops r) (qs.contents q) (p ∷ []),
    )
  ]

  view-shut_stream :
      (s : Stream Buffer Queue) → view_stream (shut_stream s) ≡ shut_box (view_stream s)
  unfolding shut_stream
  view-shut_stream s = ground (
    arith,
    qs.contents-shut s.queue,
    qs.is_shut-shut s.queue,
    qs.drain_all (qs.shut s.queue),
    qs.is_shut-drain (qs.shut s.queue),
    qs.contents-drain (qs.shut s.queue),
  )

  abbrev Agrees : Step (Async Buffer Queue) → Step Inbox → Type 0
  Agrees s t = map_step view s ≡ t

  view-push_incoming :
      (c : Async Buffer Queue) (p : Packet Buffer)
      → Agrees (push_incoming c p) (box_incoming qs.shut_error (view c) (view_packet ops p))
  unfolding push_incoming box_incoming
  view-push_incoming c p = elim (Bool-cases (qs.is_shut c.incoming)) [
    | inl shut ↦ ground (arith, view-push c.incoming p, qs.push_shut c.incoming p shut)
    | inr open_ ↦ ground (arith, view-push c.incoming p, qs.push_open c.incoming p open_)
  ]

  view-end_stream :
      (c : Async Buffer Queue) (id : ℕ) (s : Option ℕ)
      → view (end_stream c id s) ≡ box_end (view c) id s
  unfolding end_stream box_end
  view-end_stream c id none = refl
  view-end_stream c id (some s) =
      ground (arith, map-modify view_stream s shut_stream shut_box c.heap view-shut_stream)

  view-ensure_stream :
      (c : Async Buffer Queue) (f id : ℕ) (s : Option ℕ)
      → ((ensure_stream c f id s).0 ≡ (box_ensure (view c) f id s).0)
        × (view (ensure_stream c f id s).1 ≡ (box_ensure (view c) f id s).1)
  unfolding ensure_stream box_ensure new_stream
  view-ensure_stream c f id (some s) = (refl, refl)
  view-ensure_stream c f id none = ground (
    arith,
    length-map view_stream c.heap,
    map-append view_stream c.heap (new_stream id ∷ []),
    qs.contents-new_queue,
    qs.is_shut-new_queue,
  )

  view-push_stream :
      (c : Async Buffer Queue) (s : ℕ) (p : Packet Buffer)
      → Agrees (push_stream c s p) (box_push qs.shut_error (view c) s (view_packet ops p))
  unfolding push_stream box_push
  view-push_stream c s p = elim (map-at view_stream s c.heap) [
    | inl (e, f) ↦ rw (e, push_stream) (rw (f, box_push) refl)
    | inr (t, e, f) ↦
        let q = (qs.push t.queue p).0 in
        let m =
          map-modify view_stream s (λ u. record u { queue = q })
            (λ u. record u { mailbox = view_queue ops qs q }) c.heap (λ u. refl) in
        elim (Bool-cases (qs.is_shut t.queue)) [
          | inl shut ↦ ground (arith, e, f, m, view-push t.queue p, qs.push_shut t.queue p shut)
          | inr open_ ↦ ground (arith, e, f, m, view-push t.queue p, qs.push_open t.queue p open_)
        ]
  ]

  view-deliver_stream :
      (c : Async Buffer Queue) (found : Found) (p : Packet Buffer)
      → Agrees
          (deliver_stream c found p)
          (box_stream qs.shut_error (view c) found (view_packet ops p))
  unfolding deliver_stream box_stream
  view-deliver_stream c found p = elim (Option-cases found.handler) [
    | inl e ↦ ground (arith, e, view-end_stream c p.metadata.id found.stream)
    | inr (h, e) ↦
        let (d, same) = view-ensure_stream c h p.metadata.id found.stream in
        let (s, c₁) = ensure_stream c h p.metadata.id found.stream in
        ground
          (arith, e, d, same, view-end_stream c p.metadata.id found.stream, view-push_stream c₁ s p)
  ]

  view-deliver :
      (c : Async Buffer Queue) (found : Found) (p : Packet Buffer)
      → Agrees (deliver c found p) (box_deliver qs.shut_error (view c) found (view_packet ops p))
  unfolding deliver box_deliver
  view-deliver c found p = ground (arith, view-deliver_stream c found p, view-push_incoming c p)

  take_packet-IsReset : (c : Async Buffer Queue) → ops.bytes ((take_packet c).0).content ≡ []
  unfolding take_packet
  take_packet-IsReset c = elim (pool-cases c.pool) [
    | inl e ↦ rw (e, take_packet) (get_packet-IsReset {Buffer = Buffer} none).no_content
    | inr (found, later, e) ↦
        rw (e, take_packet) (get_packet-IsReset {Buffer = Buffer} found).no_content
  ]

  view-take_packet : (c : Async Buffer Queue) → view (take_packet c).1 ≡ view c
  unfolding take_packet
  view-take_packet c = ground arith

  module _ (max : ℕ) (pooled : List ℕ) (observed : Bool) where
    view-control :
        (c : Async Buffer Queue) (p : Packet Buffer)
        → Agrees
            (control max pooled observed c p)
            (box_control (pong ops max pooled observed) (view c) p.metadata)
    unfolding control box_control
    view-control c p = ground arith

    -- What the read loop does with a packet is what the specification says of its frame.
    pub handlers-Implements :
        Implements ops view
          (handlers max pooled observed)
          (frame_handlers qs.shut_error (pong ops max pooled observed))
    handlers-Implements = record {
      get_clean = take_packet-IsReset;
      get_view = view-take_packet;
      same_control = λ op. refl;
      control_view = λ c p. view-control c p;
      look_view = λ c p. refl;
      deliver_view = λ c found p. view-deliver c found p;
    }
