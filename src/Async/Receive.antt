-- ===== src/Async/Receive.antt =====
-- What the read loop of async.go does with a packet: the switch on its operation. The lookup of
-- the handler of new streams and of the stream comes before the content is read.
pub mod Inbox
pub mod View
pub mod Taken
pub mod InOrder
pub mod Streams
pub mod Loop
use frisbee_go.Prelude.{
  ℕ, Bool, true, false, ◌||◌, not, Option, none, some, List, [], ◌∷◌, ◌++◌, ◌==◌, if◌then◌else◌,
  length,
}
use frisbee_go.Errors.{Error}
use frisbee_go.Packet.{BufferOps, Packet, zero_metadata}
use frisbee_go.Queue.{QueueOps}
use frisbee_go.Bufio.{buffer_size}
use frisbee_go.Async.Framing.{
  Attempt, Step, next, stop, LoopEnd, waiting, closes, Handlers, read_loop,
}
use frisbee_go.Async.State.{
  Link, Stream, Async, find_stream, delete_stream, insert_stream, modify, at,
}
use frisbee_go.Async.Write.{
  Outcome, queued, refused, broken, op_ping, op_pong, op_stream, write_packet,
}
use frisbee_go.Async.Close.{take_packet, new_stream, shut_stream, close_with_error}

-- The local variables `isStream`, `newStreamHandler` and `stream`.
pub record Found : Type 0 where
  pub is_stream : Bool
  pub handler : Option ℕ
  pub stream : Option ℕ

unfoldable pub is_control : ℕ → Bool
is_control op = op == op_ping || op == op_pong

-- Whether a STREAM packet needs its stream: there is a handler, or the packet closes it.
unfoldable pub look_up : Option ℕ → List (ℕ × ℕ) → ℕ → ℕ → ℕ → Found
look_up handler streams op id content_length =
    let wanted : Bool = elim handler [ some f ↦ true | none ↦ content_length == 0 ] in
    if op == op_stream
    then record {
      is_stream = true;
      handler = handler;
      stream = if wanted then find_stream id streams else none;
    }
    else record { is_stream = false; handler = none; stream = none }

module _ {Buffer : Type 0} ⦃ops : BufferOps Buffer⦄ where
  -- `PONGPacket`.
  unfoldable pub pong_packet : Packet Buffer
  pong_packet = record {
    metadata = record zero_metadata { operation = op_pong };
    content = ops.new_buffer;
  }

  -- `PINGPacket`.
  unfoldable pub ping_packet : Packet Buffer
  ping_packet = record {
    metadata = record zero_metadata { operation = op_ping };
    content = ops.new_buffer;
  }

module _ {Buffer Queue : Type 0} ⦃ops : BufferOps Buffer⦄
    ⦃qs : QueueOps Queue (Packet Buffer)⦄ where
  abbrev pub answered : Async Buffer Queue → Link × Outcome → Step (Async Buffer Queue)
  answered c (link, queued) = next (record c { link = link })
  answered c (link, refused e) = stop e (record c { link = link })
  answered c (link, broken e) = stop e (record c { link = link })

  -- PING is answered with a PONG; a PONG is dropped.
  unfoldable pub control :
      ℕ → List ℕ → Bool → Async Buffer Queue → Packet Buffer → Step (Async Buffer Queue)
  control max pooled observed c p =
      if p.metadata.operation == op_ping
      then answered c (write_packet {Buffer = Buffer} max pooled observed pong_packet c.link)
      else next c

  abbrev pub pushed : Async Buffer Queue → Option Error → Step (Async Buffer Queue)
  pushed c none = next c
  pushed c (some e) = stop e c

  -- A packet that is for no stream goes to the incoming queue.
  unfoldable pub push_incoming : Async Buffer Queue → Packet Buffer → Step (Async Buffer Queue)
  push_incoming c p =
      let (queue, err) = qs.push c.incoming p in pushed (record c { incoming = queue }) err

  -- The other end has closed a stream.
  unfoldable pub end_stream : Async Buffer Queue → ℕ → Option ℕ → Async Buffer Queue
  end_stream c id none = c
  end_stream c id (some s) = record c {
    heap = modify s shut_stream c.heap;
    streams = delete_stream id c.streams;
  }

  -- A stream that is new here is made and handed to the handler, in a goroutine of its own.
  unfoldable pub ensure_stream : Async Buffer Queue → ℕ → ℕ → Option ℕ → ℕ × Async Buffer Queue
  ensure_stream c f id (some s) = (s, c)
  ensure_stream c f id none =
      let s = length c.heap in
      (
        s,
        record c {
          heap = c.heap ++ new_stream id ∷ [];
          streams = insert_stream id s c.streams;
          started = c.started ++ (f, s) ∷ [];
        },
      )

  -- A pointer to no stream does not occur.
  unfoldable pub push_stream : Async Buffer Queue → ℕ → Packet Buffer → Step (Async Buffer Queue)
  push_stream c s p = elim (at s c.heap) [
    | none ↦ next c
    | some stream ↦
        let (queue, err) = qs.push stream.queue p in
        pushed (record c { heap = modify s (λ t. record t { queue = queue }) c.heap }) err
  ]

  -- A STREAM packet closes its stream, is dropped, or goes to its stream.
  unfoldable pub deliver_stream :
      Async Buffer Queue → Found → Packet Buffer → Step (Async Buffer Queue)
  deliver_stream c found p =
      if p.metadata.content_length == 0
      then next (end_stream c p.metadata.id found.stream)
      else elim found.handler [
        | none ↦ next c
        | some f ↦ let (s, d) = ensure_stream c f p.metadata.id found.stream in push_stream d s p
      ]

  unfoldable pub deliver : Async Buffer Queue → Found → Packet Buffer → Step (Async Buffer Queue)
  deliver c found p = if found.is_stream then deliver_stream c found p else push_incoming c p

  abbrev pub handlers : ℕ → List ℕ → Bool → Handlers (Async Buffer Queue) Found Buffer
  handlers max pooled observed = record {
    get = take_packet;
    is_control = is_control;
    control = control max pooled observed;
    look = λ c p.
        look_up c.new_stream_handler c.streams p.metadata.operation p.metadata.id
          p.metadata.content_length;
    deliver = deliver;
  }

  -- The goroutine of the read loop, with the `closeWithError` that it ends in; `none` if it ends
  -- in no other way, which the theorems exclude.
  unfoldable pub receive :
      ℕ
      → List ℕ
      → Bool
      → (ℕ → ℕ)
      → ℕ
      → List Attempt
      → Async Buffer Queue
      → Option (Async Buffer Queue)
  receive max pooled observed append_cap fuel events c =
      elim (read_loop (handlers max pooled observed) max append_cap fuel buffer_size events c) [
        | waiting d ↦ some d
        | closes e d ↦ some (close_with_error max pooled observed d e).0
        | _ ↦ none
      ]
