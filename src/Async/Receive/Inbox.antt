-- ===== src/Async/Receive/Inbox.antt =====
-- What the read loop of async.go does with a frame, told without buffers and queues: a queue is the
-- list of the frames that it holds, and whether it is closed.
use frisbee_go.Prelude.{
  ℕ, Bool, true, false, Option, none, some, List, [], ◌∷◌, ◌++◌, ◌==◌, if◌then◌else◌, length,
}
use frisbee_go.Errors.{Error}
use frisbee_go.Metadata.{Metadata}
use frisbee_go.Async.Framing.{Step, next, stop}
use frisbee_go.Async.Framing.Spec.{FrameHandlers}
use frisbee_go.Async.State.{Link, delete_stream, insert_stream, modify, at}
use frisbee_go.Async.Write.{Outcome, queued, refused, broken, op_ping}
use frisbee_go.Async.Receive.{Found, is_control, look_up}

pub record Frame : Type 0 where
  pub header : Metadata
  pub content : List ℕ

pub record Mailbox : Type 0 where
  pub frames : List Frame
  pub is_shut : Bool

pub record StreamBox : Type 0 where
  pub id : ℕ
  pub closed : Bool
  pub mailbox : Mailbox
  pub stale : List Frame

pub record Inbox : Type 0 where
  pub link : Link
  pub incoming : Mailbox
  pub stale : List Frame
  pub error : Option Error
  pub channels_closed : Bool
  pub heap : List StreamBox
  pub streams : List (ℕ × ℕ)
  pub new_stream_handler : Option ℕ
  pub started : List (ℕ × ℕ)

-- A frame joins the end, unless the mailbox is closed.
abbrev pub post : Mailbox → Frame → Mailbox
post m f = record m { frames = if m.is_shut then m.frames else m.frames ++ f ∷ [] }

-- A closed stream keeps its frames as stale ones.
abbrev pub shut_box : StreamBox → StreamBox
shut_box s = if s.closed then s else record s {
  closed = true;
  mailbox = record { frames = []; is_shut = true };
  stale = s.mailbox.frames;
}

abbrev pub new_box : ℕ → StreamBox
new_box id = record {
  id = id;
  closed = false;
  mailbox = record { frames = []; is_shut = false };
  stale = [];
}

abbrev pub box_answered : Inbox → Link × Outcome → Step Inbox
box_answered c (link, queued) = next (record c { link = link })
box_answered c (link, refused e) = stop e (record c { link = link })
box_answered c (link, broken e) = stop e (record c { link = link })

unfoldable pub box_end : Inbox → ℕ → Option ℕ → Inbox
box_end c id none = c
box_end c id (some s) = record c {
  heap = modify s shut_box c.heap;
  streams = delete_stream id c.streams;
}

unfoldable pub box_ensure : Inbox → ℕ → ℕ → Option ℕ → ℕ × Inbox
box_ensure c f id (some s) = (s, c)
box_ensure c f id none =
    let s = length c.heap in
    (
      s,
      record c {
        heap = c.heap ++ new_box id ∷ [];
        streams = insert_stream id s c.streams;
        started = c.started ++ (f, s) ∷ [];
      },
    )

-- What a closed queue reports.
module _ (shut_error : Error) where
  abbrev pub box_pushed : Bool → Inbox → Step Inbox
  box_pushed is_shut c = if is_shut then stop shut_error c else next c

  unfoldable pub box_incoming : Inbox → Frame → Step Inbox
  box_incoming c f = box_pushed c.incoming.is_shut (record c { incoming = post c.incoming f })

  unfoldable pub box_push : Inbox → ℕ → Frame → Step Inbox
  box_push c s f = elim (at s c.heap) [
    | none ↦ next c
    | some t ↦
        box_pushed t.mailbox.is_shut
          (record c { heap = modify s (λ u. record u { mailbox = post t.mailbox f }) c.heap })
  ]

  unfoldable pub box_stream : Inbox → Found → Frame → Step Inbox
  box_stream c found f =
      if f.header.content_length == 0
      then next (box_end c f.header.id found.stream)
      else elim found.handler [
        | none ↦ next c
        | some h ↦ let (s, d) = box_ensure c h f.header.id found.stream in box_push d s f
      ]

  unfoldable pub box_deliver : Inbox → Found → Frame → Step Inbox
  box_deliver c found f = if found.is_stream then box_stream c found f else box_incoming c f

-- A PING is answered with `pong`.
unfoldable pub box_control : (Link → Link × Outcome) → Inbox → Metadata → Step Inbox
box_control pong c m = if m.operation == op_ping then box_answered c (pong c.link) else next c

abbrev pub frame_handlers : Error → (Link → Link × Outcome) → FrameHandlers Inbox Found
frame_handlers shut_error pong = record {
  is_control = is_control;
  control = box_control pong;
  look = λ c m. look_up c.new_stream_handler c.streams m.operation m.id m.content_length;
  deliver = λ c found m content.
      box_deliver shut_error c found (record { header = m; content = content });
}
