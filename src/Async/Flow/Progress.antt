-- ===== src/Async/Flow/Progress.antt =====
-- The flush loop of async.go gets what waits in the buffer onto the connection.
use frisbee_go.Prelude.{ℕ, suc, ◌-◌, ◌<◌, ◌≡◌, refl, inl, inr, false, none, [], arith}
use mathlib.Core.List.{append-nil}
use frisbee_go.Packet.{BufferOps}
use frisbee_go.Conn.{conn_write}
use frisbee_go.Bufio.{flush_writer}
use frisbee_go.Bufio.Account.{written}
use frisbee_go.Async.State.{Link}
use frisbee_go.Async.Write.{set_write_deadline, flush_open}
use frisbee_go.Async.Flow.{
  Lock, free, writing, flushing, waits, woken, holds, Flow, after_flush, FlusherStep, wakes, locks,
  flushes, Flows, new_flow,
}
use frisbee_go.Async.Flow.Invariant.{
  flush_open-closed, is_writing, is_flushing, Flows-IsSound, new_flow-IsSound,
}

-- Nothing goes wrong on the connection any more.
pub record IsWorking (c : Link) : Type 0 where
  pub writes_succeed : c.writer.conn.writes ≡ []
  pub deadlines_succeed : c.deadlines ≡ []
  pub no_failure : c.writer.failed ≡ none

flush_open-IsWorking :
    (c : Link)
    → IsWorking c
    → ((flush_open c).1 ≡ none)
      × ((flush_open c).0.writer.buffered ≡ [])
      × ((flush_open c).0.writer.conn.sent ≡ written c.writer)
unfolding flush_open set_write_deadline flush_writer conn_write
flush_open-IsWorking c w = ground (arith, append-nil c.writer.conn.sent)

-- The flush loop on its own, in at most so many steps.
pub data Turns {Buffer : Type 0} : ℕ → Flow Buffer → Flow Buffer → Type 0 where
  rests : (n : ℕ) (s : Flow Buffer) → Turns n s s
  turns : {n : ℕ} {s t u : Flow Buffer} → FlusherStep s t → Turns n t u → Turns (suc n) s u

-- What waited in the buffer is on the connection.
abbrev pub Flushed : {Buffer : Type 0} → ℕ → Flow Buffer → Type 0
Flushed {Buffer} n s =
    (t : Flow Buffer) × Turns n s t
    × (t.link.writer.buffered ≡ [])
    × (t.link.writer.conn.sent ≡ written s.link.writer)
    × (t.link.closed ≡ false)
    × (t.failing ≡ 0)

module _ {Buffer : Type 0} (s : Flow Buffer) (quiet : s.failing ≡ 0) (works : IsWorking s.link)
    (open_ : s.link.closed ≡ false) where
  holds-Flushed : s.flusher ≡ holds → Flushed 1 s
  unfolding after_flush
  holds-Flushed h =
      let (ok, empty, sent) = flush_open-IsWorking s.link works in
      let r = record s { link = (flush_open s.link).0; lock = free } in
      (
        after_flush (flush_open s.link).1 r,
        turns (flushes s h) (rests 0 _),
        ground (arith, ok, empty),
        ground (arith, ok, sent),
        ground (arith, ok, flush_open-closed s.link),
        ground (arith, ok, quiet),
      )

woken-Flushed :
    {Buffer : Type 0} (s : Flow Buffer)
    → s.failing ≡ 0
    → IsWorking s.link
    → s.link.closed ≡ false
    → s.flusher ≡ woken
    → s.lock ≡ free
    → Flushed 2 s
woken-Flushed s quiet works o w l =
    let r = record s { flusher = holds; lock = flushing } in
    let (t, run, empty, sent, still, calm) = holds-Flushed r quiet works o refl in
    (t, turns (locks s w l o) run, empty, sent, still, calm)

waits-Flushed :
    {Buffer : Type 0} (s : Flow Buffer)
    → s.failing ≡ 0
    → IsWorking s.link
    → s.link.closed ≡ false
    → s.flusher ≡ waits
    → 0 < s.link.flush_tokens
    → s.lock ≡ free
    → Flushed 3 s
waits-Flushed s quiet works o w h l =
    let r = record s {
      flusher = woken;
      link = record (s.link) { flush_tokens = s.link.flush_tokens - 1 };
    } in
    let (t, run, empty, sent, still, calm) =
      woken-Flushed r quiet (ground (arith, works)) o refl l in
    (t, turns (wakes s w h) run, empty, sent, still, calm)

Turns-suc : {Buffer : Type 0} {n : ℕ} {s t : Flow Buffer} → Turns n s t → Turns (suc n) s t
Turns-suc (rests n s) = rests (suc n) s
Turns-suc (turns step run) = turns step (Turns-suc run)

Flushed-suc : {Buffer : Type 0} (n : ℕ) (s : Flow Buffer) → Flushed n s → Flushed (suc n) s
Flushed-suc n s (t, run, empty, sent, still, calm) = (t, Turns-suc run, empty, sent, still, calm)

lock-free :
    {Buffer : Type 0} (l : Lock Buffer) → is_writing l ≡ false → is_flushing l ≡ false → l ≡ free
lock-free free w f = refl
lock-free (writing pooled p) w f = absurd (ground (arith, w))
lock-free flushing w f = absurd (ground (arith, f))

-- From every state that the goroutines of a new connection can come to, however they have
-- interleaved: if the connection is open, no goroutine has failed and nobody is in the middle of a
-- write, then the flush loop needs no more than three steps of its own, each of which it can take,
-- until all that was written is on the connection and nothing waits in the buffer, as long as the
-- connection takes what is written to it.
pub Flows-Flushed :
    {Buffer : Type 0} ⦃ops : BufferOps Buffer⦄ (max : ℕ) (link : Link) (s : Flow Buffer)
    → link.writer.buffered ≡ []
    → Flows max (new_flow link) s
    → s.link.closed ≡ false
    → s.failing ≡ 0
    → is_writing s.lock ≡ false
    → IsWorking s.link
    → Flushed 3 s
Flows-Flushed max link s e r o quiet w works =
    let i = Flows-IsSound max r (new_flow-IsSound link e) in
    elim i.awake [
      | inl empty ↦
          (s, rests 3 s, empty, ground (arith, empty, append-nil s.link.writer.conn.sent), o, quiet)
      | inr (inl (token, h)) ↦
          waits-Flushed s quiet works o h token
            (lock-free s.lock w (ground (arith, i.one_holder, h)))
      | inr (inr (inl h)) ↦
          Flushed-suc 2 s
            (woken-Flushed s quiet works o h (lock-free s.lock w (ground (arith, i.one_holder, h))))
      | inr (inr (inr (inl h))) ↦
          Flushed-suc 2 s (Flushed-suc 1 s (holds-Flushed s quiet works o h))
      | inr (inr (inr (inr (inl failed)))) ↦ absurd (omega arith)
      | inr (inr (inr (inr (inr shut)))) ↦ absurd (ground arith)
    ]
