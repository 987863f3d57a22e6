-- ===== src/Server/Limited.antt =====
-- server.go: `handleLimitedPacket`, which starts a goroutine for a packet only when it gets a place
-- in `limiter`, a channel that all connections share. The goroutines are those of Workers, except
-- that each gives its place back after `wg.Done()`.
pub mod Bounds
mod Examples
use frisbee_go.Prelude.{
  ℕ, zero, suc, ◌+◌, ◌-◌, ◌<◌, ◌≡◌, Bool, true, false, Option, none, some, List, [], ◌∷◌, ◌++◌,
  length, All, arith,
}
use frisbee_go.Errors.{Error}
use frisbee_go.Packet.{BufferOps}
use frisbee_go.Server.{Pointer, Handler}
use frisbee_go.Server.Workers.{
  Worker, ready, closing, finished, Loop, reading, in_wait, has_returned, Serving, tell,
  create_handler, before_packets,
}

pub record Limited (Buffer : Type 0) : Type 0 where
  pub serving : Serving Buffer
  -- The packet that the loop has at its `select`, with what `WritePacket` will return.
  pub in_hand : Option (Pointer Buffer × Option Error)
  -- `len(s.limiter)`, and how many of these places other connections have.
  pub places : ℕ
  pub elsewhere : ℕ
  -- The goroutines of this connection that have given their place back.
  pub released : ℕ
  pub cancelled : Bool

-- The goroutines that have not called `wg.Done()`, and those that have.
abbrev pub busy : {Buffer : Type 0} → List (Worker Buffer) → ℕ
busy [] = 0
busy (ready p w ∷ rest) = suc (busy rest)
busy (closing r ∷ rest) = suc (busy rest)
busy (finished ∷ rest) = busy rest

abbrev pub through : {Buffer : Type 0} → List (Worker Buffer) → ℕ
through [] = 0
through (ready p w ∷ rest) = through rest
through (closing r ∷ rest) = through rest
through (finished ∷ rest) = suc (through rest)

module _ {Buffer : Type 0} ⦃ops : BufferOps Buffer⦄ (table : List (ℕ × Handler Buffer))
    (concurrency : ℕ) where
  pub data LimitedStep : Limited Buffer → Limited Buffer → Type 0 where
    reads_one :
        (s : Limited Buffer) (p : Pointer Buffer) (write : Option Error)
        → s.serving.loop ≡ reading
        → s.in_hand ≡ none
        → LimitedStep s (record s { in_hand = some (p, write) })
    -- `s.limiter <- struct{}{}` and `go handle(p)`.
    starts :
        (s : Limited Buffer) (p : Pointer Buffer) (write : Option Error)
        → s.serving.loop ≡ reading
        → s.in_hand ≡ some (p, write)
        → s.places < concurrency
        → LimitedStep s (record s {
          serving = record (s.serving) { workers = ready p write ∷ s.serving.workers };
          in_hand = none;
          places = s.places + 1;
        })
    -- `<-connCtx.Done()`; the error is that of the last read, which is nil.
    sees_cancel :
        (s : Limited Buffer) (p : Pointer Buffer) (write : Option Error)
        → s.serving.loop ≡ reading
        → s.in_hand ≡ some (p, write)
        → s.cancelled ≡ true
        → LimitedStep s (record s {
          serving = tell none (record (s.serving) { loop = in_wait });
          in_hand = none;
        })
    read_fails :
        (s : Limited Buffer) (e : Error)
        → s.serving.loop ≡ reading
        → s.in_hand ≡ none
        → LimitedStep s (record s {
          serving = tell (some e) (record (s.serving) { loop = in_wait });
          cancelled = true;
        })
    handles_one :
        (s : Limited Buffer) (before after : List (Worker Buffer)) (p : Pointer Buffer)
        (write : Option Error)
        → s.serving.workers ≡ before ++ ready p write ∷ after
        → LimitedStep s (record s {
          serving = record (s.serving) { workers = before ++ create_handler table p write ∷ after };
        })
    tells_one :
        (s : Limited Buffer) (before after : List (Worker Buffer)) (reason : Option Error)
        → s.serving.workers ≡ before ++ closing reason ∷ after
        → LimitedStep s (record s {
          serving = tell reason (record (s.serving) { workers = before ++ finished ∷ after });
          cancelled = true;
        })
    -- `<-s.limiter`, after `wg.Done()`.
    releases :
        (s : Limited Buffer)
        → s.released < through s.serving.workers
        → LimitedStep s (record s { released = s.released + 1; places = s.places - 1 })
    -- Other connections, and the contexts of the program.
    others_take :
        (s : Limited Buffer)
        → s.places < concurrency
        → LimitedStep s (record s { places = s.places + 1; elsewhere = s.elsewhere + 1 })
    others_release :
        (s : Limited Buffer)
        → 0 < s.elsewhere
        → LimitedStep s (record s { places = s.places - 1; elsewhere = s.elsewhere - 1 })
    is_cancelled : (s : Limited Buffer) → LimitedStep s (record s { cancelled = true })
    goes_home :
        (s : Limited Buffer)
        → s.serving.loop ≡ in_wait
        → All (λ w. w ≡ finished) s.serving.workers
        → LimitedStep s (record s { serving = record (s.serving) { loop = has_returned } })

  pub data Runs : Limited Buffer → Limited Buffer → Type 0 where
    rests : (s : Limited Buffer) → Runs s s
    moves : {s t u : Limited Buffer} → Runs s t → LimitedStep t u → Runs s u

-- A connection of a server of which `elsewhere` places are taken.
abbrev pub new_limited : {Buffer : Type 0} → ℕ → Limited Buffer
new_limited elsewhere = record {
  serving = before_packets;
  in_hand = none;
  places = elsewhere;
  elsewhere = elsewhere;
  released = 0;
  cancelled = false;
}
