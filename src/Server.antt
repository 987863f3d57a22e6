-- ===== src/Server.antt =====
-- server.go: how packets are handled on a connection, one at a time (`handleSinglePacket`), the
-- check of a handler table, and the wait between failed calls of `Accept`. Contexts and the wait group are left
-- out.
pub mod Single
pub mod Ownership
pub mod Handlers
pub mod Backoff
pub mod Workers
pub mod Limited
pub mod Samples
pub mod Shutdown
pub mod Setup
mod Examples
use frisbee_go.Prelude.{
  ℕ, zero, suc, ◌+◌, ◌*◌, ◌%◌, ◌^◌, Bool, true, false, ◌||◌, Option, none, some, List, [], ◌∷◌,
  ◌++◌, ltb, ◌==◌, if◌then◌else◌,
}
use frisbee_go.Errors.{Error, invalid_handler_table}
use frisbee_go.Packet.{BufferOps, Packet}
use frisbee_go.Async.Write.{op_reserved9}

pub data Action : Type 0 where
  action_none action_close : Action

-- A pointer to a packet, with what it points to.
pub record Pointer (Buffer : Type 0) : Type 0 where
  pub address : ℕ
  pub packet : Packet Buffer

-- A handler is a function of the program: it may answer with a packet, which may be the incoming
-- one.
abbrev pub Handler : Type 0 → Type 0
Handler Buffer = Pointer Buffer → Option (Pointer Buffer) × Action

-- A `HandlerTable`: a Go map.
unfoldable pub find_handler :
    {Buffer : Type 0} → ℕ → List (ℕ × Handler Buffer) → Option (Handler Buffer)
find_handler op [] = none
find_handler op ((o, h) ∷ rest) = if o == op then some h else find_handler op rest

-- The loop over the operations below `bound`, from `op` on, of which there are `count`.
unfoldable pub has_handler_below : {Buffer : Type 0} → ℕ → ℕ → List (ℕ × Handler Buffer) → Bool
has_handler_below zero op table = false
has_handler_below (suc count) op table =
    let rest = has_handler_below count (op + 1) table in
    elim (find_handler op table) [ some h ↦ true | none ↦ rest ]

-- `SetHandlerTable`, which `NewServer` calls: the table that the server has then, and the error.
unfoldable pub set_handler_table :
    {Buffer : Type 0}
    → List (ℕ × Handler Buffer)
    → List (ℕ × Handler Buffer)
    → List (ℕ × Handler Buffer) × Option Error
set_handler_table old table =
    if has_handler_below op_reserved9 0 table
    then (old, some invalid_handler_table)
    else (table, none)

-- What the handling of packets does, in order: a packet is read, handlers are called (with the
-- answer that they return), packets are written and put back into the pool, the connection is
-- closed, and the server's callbacks run.
pub data Effect (Buffer : Type 0) : Type 0 where
  took : Pointer Buffer → Effect Buffer
  handled : Pointer Buffer → Option (Pointer Buffer) → Effect Buffer
  pre_write : Effect Buffer
  wrote : Pointer Buffer → Effect Buffer
  put : ℕ → Effect Buffer
  conn_closed : Effect Buffer
  on_closed : Option Error → Effect Buffer

-- What happens to the calls of `ReadPacket`, in order, with what `WritePacket` returns if the
-- packet is answered.
pub data Arrival (Buffer : Type 0) : Type 0 where
  arrives : Pointer Buffer → Option Error → Arrival Buffer
  read_fails : Error → Arrival Buffer

module _ {Buffer : Type 0} where
  -- The answer and the packet go back to the pool.
  unfoldable pub put_both : Pointer Buffer → Pointer Buffer → List (Effect Buffer)
  put_both p o =
      if o.address == p.address then put p.address ∷ [] else put o.address ∷ put p.address ∷ []

  -- The end of the handling of a packet: whether the loop goes on.
  unfoldable pub act : Action → List (Effect Buffer) × Bool
  act action_none = ([], true)
  act action_close = (conn_closed ∷ on_closed none ∷ [], false)

  -- A packet that is answered.
  unfoldable pub respond :
      Pointer Buffer → Pointer Buffer → Option Error → Action → List (Effect Buffer) × Bool
  respond p o none action =
      let (after, go_on) = act action in (pre_write ∷ wrote o ∷ put_both p o ++ after, go_on)
  respond p o (some e) action =
      (pre_write ∷ wrote o ∷ put_both p o ++ conn_closed ∷ on_closed (some e) ∷ [], false)

module _ {Buffer : Type 0} ⦃ops : BufferOps Buffer⦄ where
  -- An answer is written if its length is the length of its content, as a 32-bit word.
  unfoldable pub answer : Option (Pointer Buffer) → Option (Pointer Buffer)
  answer none = none
  answer (some o) =
      if o.packet.metadata.content_length == ops.len o.packet.content % 2 ^ 32 then some o else none

  -- One turn of the loop of `handleSinglePacket`.
  unfoldable pub handle_packet :
      List (ℕ × Handler Buffer) → Pointer Buffer → Option Error → List (Effect Buffer) × Bool
  handle_packet table p write = elim (find_handler p.packet.metadata.operation table) [
    | none ↦ (put p.address ∷ [], true)
    | some h ↦
        let (outgoing, action) = h p in
        elim (answer outgoing) [
          | some o ↦
              let (after, go_on) = respond p o write action in (handled p outgoing ∷ after, go_on)
          | none ↦
              let (after, go_on) = act action in (handled p outgoing ∷ put p.address ∷ after, go_on)
        ]
  ]

  -- `handleSinglePacket`, and whether it has returned.
  unfoldable pub handle_single :
      List (ℕ × Handler Buffer) → List (Arrival Buffer) → List (Effect Buffer) × Bool
  handle_single table [] = ([], false)
  handle_single table (read_fails e ∷ later) = (conn_closed ∷ on_closed (some e) ∷ [], true)
  handle_single table (arrives p write ∷ later) =
      let (effects, go_on) = handle_packet table p write in
      let (more, returned) = handle_single table later in
      if go_on then (took p ∷ effects ++ more, returned) else (took p ∷ effects, true)

-- `minBackoff` and `maxBackoff`, in milliseconds.
abbrev pub min_backoff : ℕ
min_backoff = 5

abbrev pub max_backoff : ℕ
max_backoff = 1000

-- The wait of `handleListener` after one more temporary error.
unfoldable pub next_backoff : ℕ → ℕ
next_backoff backoff =
    let raised : ℕ = if backoff == 0 then min_backoff else backoff * 2 in
    if ltb max_backoff raised then max_backoff else raised

-- What happens to a call of `Accept`: a connection, or an error, which may be a temporary one, with
-- whether the server has been shut down then and after the wait.
pub data Accepted : Type 0 where
  accepted : ℕ → Accepted
  accept_fails : Error → Bool → Bool → Bool → Accepted

-- What the listener does: it serves a connection, or it sleeps for so many milliseconds.
pub data Listened : Type 0 where
  served : ℕ → Listened
  slept : ℕ → Listened

pub data ListenEnd : Type 0 where
  listening : ListenEnd
  returned : Option Error → ListenEnd

abbrev pub and_then : Listened → List Listened × ListenEnd → List Listened × ListenEnd
and_then x (xs, end) = (x ∷ xs, end)

-- `handleListener`, with its variable `backoff`.
unfoldable pub handle_listener : ℕ → List Accepted → List Listened × ListenEnd
handle_listener backoff [] = ([], listening)
handle_listener backoff (accepted c ∷ later) = and_then (served c) (handle_listener 0 later)
handle_listener backoff (accept_fails e temporary down down_later ∷ later) =
    let longer = next_backoff backoff in
    let rest = handle_listener longer later in
    if down
    then ([], returned none)
    else if temporary
    then if down_later then (slept longer ∷ [], returned none) else and_then (slept longer) rest
    else ([], returned (some e))
