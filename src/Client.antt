-- ===== src/Client.antt =====
-- client.go: `handleConn`, the loop that handles the packets of a client. Contexts, the wait
-- group and logging are left out.
pub mod Ownership
pub mod Setup
mod Examples
use frisbee_go.Prelude.{
  ℕ, Bool, true, false, Option, none, some, List, [], ◌∷◌, ◌++◌, if◌then◌else◌,
}
use frisbee_go.Errors.{Error}
use frisbee_go.Packet.{BufferOps}
use frisbee_go.Server.{
  Action, action_none, action_close, Pointer, Handler, Effect, took, handled, wrote, put,
  conn_closed, Arrival, arrives, read_fails, find_handler, answer, put_both,
}

-- What a round of the loop meets: the client is found closed, or `ReadPacket` is called.
pub data Round (Buffer : Type 0) : Type 0 where
  found_closed : Round Buffer
  meets : Arrival Buffer → Round Buffer

module _ {Buffer : Type 0} where
  -- The switch on the action, with `c.Close()`, and whether the loop goes on.
  unfoldable pub client_act : Action → List (Effect Buffer) × Bool
  client_act action_none = ([], true)
  client_act action_close = (conn_closed ∷ [], false)

  -- A packet that is answered.
  unfoldable pub client_respond :
      Pointer Buffer → Pointer Buffer → Option Error → Action → List (Effect Buffer) × Bool
  client_respond p o none action =
      let (after, go_on) = client_act action in (wrote o ∷ put_both p o ++ after, go_on)
  client_respond p o (some e) action = (wrote o ∷ put_both p o ++ conn_closed ∷ [], false)

module _ {Buffer : Type 0} ⦃ops : BufferOps Buffer⦄ (table : List (ℕ × Handler Buffer)) where
  unfoldable pub client_packet : Pointer Buffer → Option Error → List (Effect Buffer) × Bool
  client_packet p write = elim (find_handler p.packet.metadata.operation table) [
    | none ↦ (put p.address ∷ [], true)
    | some h ↦
        let (outgoing, action) = h p in
        elim (answer outgoing) [
          | some o ↦
              let (after, go_on) = client_respond p o write action in
              (handled p outgoing ∷ after, go_on)
          | none ↦
              let (after, go_on) = client_act action in
              (handled p outgoing ∷ put p.address ∷ after, go_on)
        ]
  ]

  -- `handleConn`, and whether it has returned.
  unfoldable pub handle_conn : List (Round Buffer) → List (Effect Buffer) × Bool
  handle_conn [] = ([], false)
  handle_conn (found_closed ∷ later) = ([], true)
  handle_conn (meets (read_fails e) ∷ later) = (conn_closed ∷ [], true)
  handle_conn (meets (arrives p write) ∷ later) =
      let (effects, go_on) = client_packet p write in
      let (more, returned) = handle_conn later in
      if go_on then (took p ∷ effects ++ more, returned) else (took p ∷ effects, true)
