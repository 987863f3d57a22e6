-- ===== src/Async/Flow.antt =====
-- async.go: the goroutines that share the buffered writer and `flushCh`, in any interleaving: the
-- callers of `writePacket` (the program, the ping loop and the read loop) and of `Flush`, the flush
-- loop, and `close`, whose compare-and-swap does not wait for the mutex. The mutex is held in
-- between `enters` and `leaves`, and in between `locks` and `flushes`.
pub mod Invariant
pub mod Progress
pub mod Bounds
mod Examples
use frisbee_go.Prelude.{
  ℕ, ◌+◌, ◌-◌, ◌<◌, ◌≡◌, Bool, true, false, ◌&&◌, Option, none, some, List, [], ◌∷◌, length,
}
use frisbee_go.Metadata.{size}
use frisbee_go.Errors.{Error}
use frisbee_go.Packet.{BufferOps, Packet}
use frisbee_go.Sync.Frame.{IsSendable}
use frisbee_go.Async.State.{Link}
use frisbee_go.Async.Write.{Outcome, queued, refused, broken, write_open, flush_open}
use frisbee_go.Async.Close.{last_flush}

-- Who holds the mutex; a writer with the header buffer of the pool and its packet.
pub data Lock (Buffer : Type 0) : Type 0 where
  free : Lock Buffer
  writing : List ℕ → Packet Buffer → Lock Buffer
  flushing : Lock Buffer

-- The flush loop: it receives from `flushCh`, it is about to lock the mutex, it holds it, or it has
-- called `wg.Done()`.
pub data Flusher : Type 0 where
  waits woken holds done : Flusher

-- The call of `close` that has set `closed`: there is none, it has yet to close the channels, it has
-- closed them, or it has flushed a last time.
pub data Closer : Type 0 where
  nobody won has_shut has_flushed : Closer

pub record Flow (Buffer : Type 0) : Type 0 where
  pub link : Link
  pub lock : Lock Buffer
  pub flusher : Flusher
  pub closer : Closer
  -- The goroutines whose write or flush has failed and that are about to call `closeWithError`.
  pub failing : ℕ

-- A write that has broken off leads to `closeWithError`, at once or by way of the caller's loop.
unfoldable pub breaking : Outcome → ℕ
breaking queued = 0
breaking (refused e) = 0
breaking (broken e) = 1

-- The end of a turn of `flushLoop`.
unfoldable pub after_flush : {Buffer : Type 0} → Option Error → Flow Buffer → Flow Buffer
after_flush none s = record s { flusher = waits }
after_flush (some e) s = record s { flusher = done; failing = s.failing + 1 }

-- A turn of `flushLoop`.
pub data FlusherStep {Buffer : Type 0} : Flow Buffer → Flow Buffer → Type 0 where
  wakes :
      (s : Flow Buffer)
      → s.flusher ≡ waits
      → 0 < s.link.flush_tokens
      → FlusherStep s (record s {
        flusher = woken;
        link = record (s.link) { flush_tokens = s.link.flush_tokens - 1 };
      })
  -- The channel is closed and holds no token.
  ends_loop :
      (s : Flow Buffer)
      → s.flusher ≡ waits
      → s.link.flush_tokens ≡ 0
      → s.closer ≡ has_shut
      → FlusherStep s (record s { flusher = done })
  -- `flush` finds the connection closed.
  gives_up :
      (s : Flow Buffer)
      → s.flusher ≡ woken
      → s.lock ≡ free
      → s.link.closed ≡ true
      → FlusherStep s (record s { flusher = done; failing = s.failing + 1 })
  locks :
      (s : Flow Buffer)
      → s.flusher ≡ woken
      → s.lock ≡ free
      → s.link.closed ≡ false
      → FlusherStep s (record s { flusher = holds; lock = flushing })
  flushes :
      (s : Flow Buffer)
      → s.flusher ≡ holds
      → FlusherStep s (
          after_flush
            (flush_open s.link).1
            (record s { link = (flush_open s.link).0; lock = free }))

module _ {Buffer : Type 0} ⦃ops : BufferOps Buffer⦄ (max : ℕ) where
  pub data FlowStep : Flow Buffer → Flow Buffer → Type 0 where
    by_flusher : {s t : Flow Buffer} → FlusherStep s t → FlowStep s t
    -- `writePacket` has passed its checks, has locked the mutex and found the connection open.
    enters :
        (s : Flow Buffer) (pooled : List ℕ) (p : Packet Buffer)
        → s.lock ≡ free
        → s.link.closed ≡ false
        → length pooled ≡ size
        → IsSendable max p
        → FlowStep s (record s { lock = writing pooled p })
    -- It has written and sent its token, and unlocks the mutex.
    leaves :
        (s : Flow Buffer) (pooled : List ℕ) (p : Packet Buffer)
        → s.lock ≡ writing pooled p
        → FlowStep s (record s {
          lock = free;
          link = (write_open pooled false p s.link).0;
          failing = s.failing + breaking (write_open pooled false p s.link).1;
        })
    -- `Flush`.
    flushes_too :
        (s : Flow Buffer)
        → s.lock ≡ free
        → s.link.closed ≡ false
        → (flush_open s.link).1 ≡ none
        → FlowStep s (record s { link = (flush_open s.link).0 })
    flush_fails :
        (s : Flow Buffer) (e : Error)
        → s.lock ≡ free
        → s.link.closed ≡ false
        → (flush_open s.link).1 ≡ some e
        → FlowStep s (record s { link = (flush_open s.link).0; failing = s.failing + 1 })
    -- `close`, called by the program.
    closes :
        (s : Flow Buffer)
        → s.link.closed ≡ false
        → FlowStep s (record s { link = record (s.link) { closed = true }; closer = won })
    -- `close`, called by a goroutine that has failed, when the connection is still open and when
    -- it is closed already.
    closes_on_error :
        (s : Flow Buffer)
        → 0 < s.failing
        → s.link.closed ≡ false
        → FlowStep s (record s {
          link = record (s.link) { closed = true };
          closer = won;
          failing = s.failing - 1;
        })
    comes_late :
        (s : Flow Buffer)
        → 0 < s.failing
        → s.link.closed ≡ true
        → FlowStep s (record s { failing = s.failing - 1 })
    shuts :
        (s : Flow Buffer)
        → s.closer ≡ won
        → s.lock ≡ free
        → FlowStep s (record s { closer = has_shut })
    last_flushes :
        (s : Flow Buffer)
        → s.closer ≡ has_shut
        → s.flusher ≡ done
        → s.lock ≡ free
        → FlowStep s (record s { closer = has_flushed; link = last_flush s.link })

  pub data Flows : Flow Buffer → Flow Buffer → Type 0 where
    stays : (s : Flow Buffer) → Flows s s
    moves : {s t u : Flow Buffer} → Flows s t → FlowStep t u → Flows s u

-- `NewAsync`, on a net.Conn.
abbrev pub new_flow : {Buffer : Type 0} → Link → Flow Buffer
new_flow link = record { link = link; lock = free; flusher = waits; closer = nobody; failing = 0 }
