-- ===== src/Server/Workers.antt =====
-- server.go: `handleUnlimitedPacket`, a goroutine for each packet (`createHandler`), in any
-- interleaving. A step is what happens between two places where goroutines can meet: the handling
-- of a packet up to `conn.Close()`, and the compare-and-swap of `closed` with the call of
-- `onClosed` and `wg.Done()`.
pub mod Invariant
use frisbee_go.Prelude.{
  ℕ, ◌≡◌, refl, ap, sym, ◌∙◌, ◌⊎◌, inl, inr, Bool, true, false, Option, none, some, List, [], ◌∷◌,
  ◌++◌, if◌then◌else◌, All, subst, arith,
}
use frisbee_go.Errors.{Error}
use frisbee_go.Packet.{BufferOps}
use frisbee_go.Server.{Action, action_none, action_close, Pointer, Handler, find_handler, answer}

-- A goroutine: it has a packet (with what `WritePacket` will return), it has closed the connection
-- for a reason, or it has called `wg.Done()`.
pub data Worker (Buffer : Type 0) : Type 0 where
  ready : Pointer Buffer → Option Error → Worker Buffer
  closing : Option Error → Worker Buffer
  finished : Worker Buffer

-- The loop itself: it reads packets, it is in `wg.Wait()`, or it has returned.
pub data Loop : Type 0 where
  reading in_wait has_returned : Loop

pub record Serving (Buffer : Type 0) : Type 0 where
  pub workers : List (Worker Buffer)
  pub closed : Bool
  -- What `onClosed` was called with.
  pub told : List (Option Error)
  pub loop : Loop

-- `if closed.CompareAndSwap(false, true) { s.onClosed(conn, err) }`.
unfoldable pub tell : {Buffer : Type 0} → Option Error → Serving Buffer → Serving Buffer
tell reason s = if s.closed then s else record s { closed = true; told = s.told ++ reason ∷ [] }

unfoldable pub after_action : {Buffer : Type 0} → Action → Worker Buffer
after_action action_none = finished
after_action action_close = closing none

module _ {Buffer : Type 0} ⦃ops : BufferOps Buffer⦄ (table : List (ℕ × Handler Buffer)) where
  -- `createHandler`, up to the compare-and-swap.
  unfoldable pub create_handler : Pointer Buffer → Option Error → Worker Buffer
  create_handler p write = elim (find_handler p.packet.metadata.operation table) [
    | none ↦ finished
    | some h ↦
        let (outgoing, action) = h p in
        elim (answer outgoing) [
          | none ↦ after_action action
          | some o ↦ elim write [ some e ↦ closing (some e) | none ↦ after_action action ]
        ]
  ]

  pub data ServeStep : Serving Buffer → Serving Buffer → Type 0 where
    reads :
        (s : Serving Buffer) (p : Pointer Buffer) (write : Option Error)
        → s.loop ≡ reading
        → ServeStep s (record s { workers = ready p write ∷ s.workers })
    handles :
        (s : Serving Buffer) (before after : List (Worker Buffer)) (p : Pointer Buffer)
        (write : Option Error)
        → s.workers ≡ before ++ ready p write ∷ after
        → ServeStep s (record s { workers = before ++ create_handler p write ∷ after })
    tells :
        (s : Serving Buffer) (before after : List (Worker Buffer)) (reason : Option Error)
        → s.workers ≡ before ++ closing reason ∷ after
        → ServeStep s (tell reason (record s { workers = before ++ finished ∷ after }))
    read_stops :
        (s : Serving Buffer) (e : Error)
        → s.loop ≡ reading
        → ServeStep s (tell (some e) (record s { loop = in_wait }))
    returns :
        (s : Serving Buffer)
        → s.loop ≡ in_wait
        → All (λ w. w ≡ finished) s.workers
        → ServeStep s (record s { loop = has_returned })

  pub data Reaches : Serving Buffer → Serving Buffer → Type 0 where
    stays : (s : Serving Buffer) → Reaches s s
    steps : {s t u : Serving Buffer} → Reaches s t → ServeStep t u → Reaches s u

abbrev pub before_packets : {Buffer : Type 0} → Serving Buffer
before_packets = record { workers = []; closed = false; told = []; loop = reading }

-- `onClosed` was not called and the flag is not set, or both once.
abbrev pub ToldOnce : {Buffer : Type 0} → Serving Buffer → Type 0
ToldOnce s =
    ((s.closed ≡ false) × (s.told ≡ []))
    ⊎ ((s.closed ≡ true) × (reason : Option Error) × (s.told ≡ reason ∷ []))

-- What holds of the loop where it is.
abbrev pub LoopFits : {Buffer : Type 0} → Loop → Serving Buffer → Type 0
LoopFits reading s = Unit {0}
LoopFits in_wait s = s.closed ≡ true
LoopFits has_returned s = (s.closed ≡ true) × All (λ w. w ≡ finished) s.workers
