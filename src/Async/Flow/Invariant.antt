-- ===== src/Async/Flow/Invariant.antt =====
-- What holds of the goroutines around the buffered writer of async.go, however they interleave.
use frisbee_go.Prelude.{ℕ, ◌<◌, ◌≡◌, ◌⊎◌, refl, inl, Bool, true, false, ◌&&◌, none, List, [], arith}
use frisbee_go.Packet.{BufferOps, Packet}
use frisbee_go.Bufio.Account.{flush_writer_ok}
use frisbee_go.Async.State.{Link}
use frisbee_go.Async.Write.{
  set_write_deadline, break_off, wake_flusher, write_body, write_open, flush_open,
}
use frisbee_go.Async.Accounting.{set_write_deadline_rest}
use frisbee_go.Async.Stale.{last_flush-closed}
use frisbee_go.Async.Flow.{
  Lock, free, writing, flushing, Flusher, waits, woken, holds, done, Closer, nobody, won, has_shut,
  has_flushed, Flow, breaking, after_flush, FlusherStep, wakes, ends_loop, gives_up, locks, flushes,
  FlowStep, by_flusher, enters, leaves, flushes_too, flush_fails, closes, closes_on_error,
  comes_late, shuts, last_flushes, Flows, stays, moves, new_flow,
}

abbrev pub is_writing : {Buffer : Type 0} → Lock Buffer → Bool
is_writing free = false
is_writing (writing pooled p) = true
is_writing flushing = false

abbrev pub is_flushing : {Buffer : Type 0} → Lock Buffer → Bool
is_flushing free = false
is_flushing (writing pooled p) = false
is_flushing flushing = true

abbrev pub holds_lock : Flusher → Bool
holds_lock waits = false
holds_lock woken = false
holds_lock holds = true
holds_lock done = false

abbrev pub is_done : Flusher → Bool
is_done waits = false
is_done woken = false
is_done holds = false
is_done done = true

-- `flushCh` and `closeCh` are closed.
abbrev pub channels_closed : Closer → Bool
channels_closed nobody = false
channels_closed won = false
channels_closed has_shut = true
channels_closed has_flushed = true

-- What is in the buffer will be flushed, or the connection will be closed.
abbrev pub Awake : {Buffer : Type 0} → Flow Buffer → Type 0
Awake s =
    (s.link.writer.buffered ≡ [])
    ⊎ ((0 < s.link.flush_tokens) × (s.flusher ≡ waits))
    ⊎ (s.flusher ≡ woken)
    ⊎ (s.flusher ≡ holds)
    ⊎ (0 < s.failing)
    ⊎ (s.link.closed ≡ true)

pub record IsSound {Buffer : Type 0} (s : Flow Buffer) : Type 0 where
  pub closer_closed : (s.closer ≡ nobody) ⊎ (s.link.closed ≡ true)
  pub no_late_send : (is_writing s.lock && channels_closed s.closer) ≡ false
  pub one_holder : is_flushing s.lock ≡ holds_lock s.flusher
  pub awake : Awake s
  pub loop_alive : (is_done s.flusher ≡ false) ⊎ (0 < s.failing) ⊎ (s.link.closed ≡ true)

pub flush_open-closed : (c : Link) → (flush_open c).0.closed ≡ c.closed
unfolding flush_open
flush_open-closed c = ground (arith, set_write_deadline_rest c)

flush_open-none : (c : Link) → (flush_open c).1 ≡ none → (flush_open c).0.writer.buffered ≡ []
unfolding flush_open
flush_open-none c h =
    let d = (set_write_deadline c).0 in
    ground (arith, set_write_deadline_rest c, flush_writer_ok d.writer)

FlusherStep-IsSound :
    {Buffer : Type 0} {s t : Flow Buffer} → FlusherStep s t → IsSound s → IsSound t
unfolding after_flush
FlusherStep-IsSound (wakes s w h) i = ground arith
FlusherStep-IsSound (ends_loop s w h c) i = ground arith
FlusherStep-IsSound (gives_up s w l c) i = ground arith
FlusherStep-IsSound (locks s w l c) i = ground arith
FlusherStep-IsSound (flushes s w) i =
    ground (arith, flush_open-closed s.link, flush_open-none s.link)

module _ {Buffer : Type 0} ⦃ops : BufferOps Buffer⦄ where
  -- A write that ends well leaves a token; one that does not is about to close the connection.
  write_open_lem :
      (pooled : List ℕ) (p : Packet Buffer) (c : Link)
      → ((write_open pooled false p c).0.closed ≡ c.closed)
        × ((0 < (write_open pooled false p c).0.flush_tokens)
            ⊎ (0 < breaking (write_open pooled false p c).1)
            ⊎ (c.closed ≡ true))
  unfolding write_open break_off write_body wake_flusher breaking
  write_open_lem pooled p c = ground (arith, set_write_deadline_rest c)

  FlowStep-IsSound : (max : ℕ) {s t : Flow Buffer} → FlowStep max s t → IsSound s → IsSound t
  FlowStep-IsSound max (by_flusher step) i = FlusherStep-IsSound step i
  FlowStep-IsSound max (enters s pooled p l o z v) i = ground arith
  FlowStep-IsSound max (leaves s pooled p l) i = ground (arith, write_open_lem pooled p s.link)
  FlowStep-IsSound max (flushes_too s l o n) i =
      ground (arith, flush_open-closed s.link, flush_open-none s.link)
  FlowStep-IsSound max (flush_fails s e l o n) i = ground (arith, flush_open-closed s.link)
  FlowStep-IsSound max (closes s o) i = ground arith
  FlowStep-IsSound max (closes_on_error s f o) i = ground arith
  FlowStep-IsSound max (comes_late s f c) i = ground arith
  FlowStep-IsSound max (shuts s w l) i = ground arith
  FlowStep-IsSound max (last_flushes s w d l) i = ground (arith, last_flush-closed s.link)

  pub Flows-IsSound : (max : ℕ) {s t : Flow Buffer} → Flows max s t → IsSound s → IsSound t
  Flows-IsSound max (stays s) i = i
  Flows-IsSound max (moves r step) i = FlowStep-IsSound max step (Flows-IsSound max r i)

  pub new_flow-IsSound :
      (link : Link) → link.writer.buffered ≡ [] → IsSound {Buffer = Buffer} (new_flow link)
  new_flow-IsSound link e = record {
    closer_closed = inl refl;
    no_late_send = refl;
    one_holder = refl;
    awake = inl e;
    loop_alive = inl refl;
  }

  -- However the goroutines of a new connection interleave: `flushCh` is not closed while a
  -- `writePacket` that is to send on it holds the mutex, so that no send panics; and whatever waits
  -- in the buffer, a token waits for a flush loop that is there to receive it, or the loop has
  -- received one and has yet to flush, or a goroutine is about to close the connection after an
  -- error, or the connection is closed.
  pub Flows-Awake :
      (max : ℕ) (link : Link) (t : Flow Buffer)
      → link.writer.buffered ≡ []
      → Flows max (new_flow link) t
      → ((is_writing t.lock && channels_closed t.closer) ≡ false) × Awake t
  Flows-Awake max link t e r =
      let i = Flows-IsSound max r (new_flow-IsSound link e) in (i.no_late_send, i.awake)
