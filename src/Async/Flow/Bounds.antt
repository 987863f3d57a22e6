-- ===== src/Async/Flow/Bounds.antt =====
-- How much waits for the flush loop of async.go: tokens in `flushCh` and bytes in the buffer.
use frisbee_go.Prelude.{ℕ, ◌≤◌, Bool, false, List, length, take, arith}
use frisbee_go.Packet.{BufferOps, Packet}
use frisbee_go.Bufio.{buffer_size, flush_writer, write_writer}
use frisbee_go.Bufio.Bounds.{flush_writer-le, write_writer-le}
use frisbee_go.Sync.{encoded_metadata}
use frisbee_go.Async.State.{Link}
use frisbee_go.Async.Write.{
  set_write_deadline, break_off, wake_flusher, write_body, write_open, flush_open,
}
use frisbee_go.Async.Accounting.{set_write_deadline_rest}
use frisbee_go.Async.Close.{last_flush}
use frisbee_go.Async.Flow.{
  Flow, after_flush, wakes, ends_loop, gives_up, locks, flushes, FlowStep, by_flusher, enters,
  leaves, flushes_too, flush_fails, closes, closes_on_error, comes_late, shuts, last_flushes, Flows,
  stays, moves, new_flow,
}

-- At most one token, and no more bytes than there is room for.
abbrev pub IsWithin : Link → Type 0
IsWithin c = (c.flush_tokens ≤ 1) × (length c.writer.buffered ≤ buffer_size)

flush_open-IsWithin : (c : Link) → IsWithin c → IsWithin (flush_open c).0
unfolding flush_open
flush_open-IsWithin c (t, l) =
    let d = (set_write_deadline c).0 in
    ground (arith, t, l, set_write_deadline_rest c, flush_writer-le d.writer)

last_flush-IsWithin : (c : Link) → IsWithin c → IsWithin (last_flush c)
unfolding last_flush
last_flush-IsWithin c (t, l) =
    let d = (set_write_deadline c).0 in
    let e = record d { writer = (flush_writer d.writer).0 } in
    ground
      (arith, t, l, set_write_deadline_rest c, flush_writer-le d.writer, set_write_deadline_rest e)

module _ {Buffer : Type 0} ⦃ops : BufferOps Buffer⦄ where
  write_body-IsWithin :
      (observed : Bool) (p : Packet Buffer) (c : Link)
      → IsWithin c
      → IsWithin (write_body observed p c).0
  unfolding write_body break_off wake_flusher
  write_body-IsWithin observed p c (t, l) = ground (
    arith,
    t,
    l,
    write_writer-le c.writer (take p.metadata.content_length (ops.bytes p.content)) l,
  )

  write_open-IsWithin :
      (pooled : List ℕ) (observed : Bool) (p : Packet Buffer) (c : Link)
      → IsWithin c
      → IsWithin (write_open pooled observed p c).0
  unfolding write_open break_off
  write_open-IsWithin pooled observed p c (t, l) =
      let d = (set_write_deadline c).0 in
      let head = encoded_metadata pooled p in
      let e = record d { writer = (write_writer d.writer head).0 } in
      ground (
        arith,
        t,
        l,
        set_write_deadline_rest c,
        write_writer-le d.writer head,
        write_body-IsWithin observed p e,
      )

  FlowStep-IsWithin :
      (max : ℕ) {s t : Flow Buffer} → FlowStep max s t → IsWithin s.link → IsWithin t.link
  unfolding after_flush
  FlowStep-IsWithin max (by_flusher (wakes s w h)) i = ground arith
  FlowStep-IsWithin max (by_flusher (ends_loop s w h c)) i = i
  FlowStep-IsWithin max (by_flusher (gives_up s w l c)) i = i
  FlowStep-IsWithin max (by_flusher (locks s w l c)) i = i
  FlowStep-IsWithin max (by_flusher (flushes s w)) i = ground (arith, flush_open-IsWithin s.link i)
  FlowStep-IsWithin max (enters s pooled p l o z v) i = i
  FlowStep-IsWithin max (leaves s pooled p l) i = write_open-IsWithin pooled false p s.link i
  FlowStep-IsWithin max (flushes_too s l o n) i = flush_open-IsWithin s.link i
  FlowStep-IsWithin max (flush_fails s e l o n) i = flush_open-IsWithin s.link i
  FlowStep-IsWithin max (closes s o) i = i
  FlowStep-IsWithin max (closes_on_error s f o) i = i
  FlowStep-IsWithin max (comes_late s f c) i = i
  FlowStep-IsWithin max (shuts s w l) i = i
  FlowStep-IsWithin max (last_flushes s w d l) i = last_flush-IsWithin s.link i

  -- However writers, flushes, the flush loop and a close of a new connection interleave, and
  -- whichever of their writes fail, `flushCh` never holds more than one token, of the three for which
  -- it has room, so that no `writePacket` waits to send one while it holds the mutex; and the buffer
  -- never holds more than `DefaultBufferSize` bytes.
  pub Flows-IsWithin :
      (max : ℕ) (link : Link) (t : Flow Buffer)
      → IsWithin link
      → Flows max (new_flow link) t
      → IsWithin t.link
  Flows-IsWithin max link t i (stays s) = i
  Flows-IsWithin max link t i (moves {t = u} r step) =
      FlowStep-IsWithin max step (Flows-IsWithin max link u i r)
