-- ===== src/Client/Setup.antt =====
-- client.go: how a client is made, connected, used and closed. A client that has not been connected
-- has a nil connection, whose methods panic. `Close` and `Raw` wait for `handleConn`, which has
-- ended then. Functions of the program are numbered, and `none` is nil.
pub mod Closing
pub mod Connecting
mod Examples
use frisbee_go.Prelude.{ℕ, Bool, true, false, Option, none, some, List, [], ◌∷◌, if◌then◌else◌}
use frisbee_go.Errors.{Error, invalid_handler_table, connection_not_initialized}
use frisbee_go.Packet.{BufferOps, Packet}
use frisbee_go.Queue.{QueueOps}
use frisbee_go.Conn.{Conn}
use frisbee_go.Options.{Options, Setting, load_options}
use frisbee_go.Dialer.{Dialled}
use frisbee_go.Connect.{Socket, Connected, connected, failed, connect_async}
use frisbee_go.Async.State.{Async}
use frisbee_go.Async.Start.{new_async}
use frisbee_go.Async.Write.{op_reserved9}
use frisbee_go.Async.Close.{
  close_once, close, flush_now, write, open_stream, set_new_stream_handler,
}
use frisbee_go.Server.{Handler, has_handler_below}

pub record Client (Buffer Queue : Type 0) : Type 0 where
  pub handler_table : List (ℕ × Handler Buffer)
  pub options : Options
  pub conn : Option (Async Buffer Queue)
  pub closed : Bool

-- How a method ends: it uses a nil pointer, or it returns, with the client as it is then.
pub data Called (St A : Type 0) : Type 0 where
  panics : Called St A
  gives : St → A → Called St A

module _ {Buffer Queue : Type 0} where
  -- `NewClient`.
  unfoldable pub new_client :
      ℕ → List (ℕ × Handler Buffer) → List Setting → Option (Client Buffer Queue) × Option Error
  new_client noop table settings =
      if has_handler_below op_reserved9 0 table then (none, some invalid_handler_table) else (
        some (record {
          handler_table = table;
          options = load_options noop settings;
          conn = none;
          closed = false;
        }),
        none,
      )

module _ {Buffer Queue : Type 0} ⦃ops : BufferOps Buffer⦄
    ⦃qs : QueueOps Queue (Packet Buffer)⦄ where
  abbrev pub keep_conn :
      {A : Type 0} → Client Buffer Queue → Async Buffer Queue × A → Called (Client Buffer Queue) A
  keep_conn c (a, x) = gives (record c { conn = some a }) x

  abbrev pub with_conn :
      {A : Type 0}
      → Client Buffer Queue
      → (Async Buffer Queue → Async Buffer Queue × A)
      → Called (Client Buffer Queue) A
  with_conn c f = elim c.conn [ none ↦ panics | some a ↦ keep_conn c (f a) ]

  abbrev pub connect_with :
      Client Buffer Queue
      → Connected (Async Buffer Queue)
      → Called (Client Buffer Queue) (Option Error)
  connect_with c (connected s a) = gives (record c { conn = some a }) none
  connect_with c (failed e) = gives c (some e)
  connect_with c Connected.panics = panics

  -- `Connect`; the network is a parameter, as for `ConnectAsync`.
  unfoldable pub connect :
      (ℕ → Dialled)
      → (ℕ → ℕ → Dialled)
      → (Socket → Conn)
      → List (Option ℕ)
      → Client Buffer Queue
      → Called (Client Buffer Queue) (Option Error)
  connect plain tls opens stream_handler c =
      connect_with c
        (connect_async plain tls opens c.options.tls_config c.options.keep_alive stream_handler)

  -- `FromConn`.
  unfoldable pub from_conn :
      Conn → List (Option ℕ) → Client Buffer Queue → Called (Client Buffer Queue) (Option Error)
  from_conn conn stream_handler c =
      gives (record c { conn = some (new_async conn stream_handler) }) none

  module _ (max : ℕ) (pooled : List ℕ) (observed : Bool) where
    -- `Close`.
    unfoldable pub close_client : Client Buffer Queue → Called (Client Buffer Queue) (Option Error)
    close_client c =
        if c.closed
        then with_conn c (close max pooled observed)
        else with_conn (record c { closed = true }) (close max pooled observed)

    -- `WritePacket`, `Flush` and `Stream`.
    unfoldable pub write_client :
        Packet Buffer → Client Buffer Queue → Called (Client Buffer Queue) (Option Error)
    write_client p c = with_conn c (write max pooled observed p)

    unfoldable pub flush_client : Client Buffer Queue → Called (Client Buffer Queue) (Option Error)
    flush_client c = with_conn c (flush_now max pooled observed)

    -- `Raw` of async.go.
    abbrev pub raw_async : Async Buffer Queue → Async Buffer Queue × (Option Conn × Option Error)
    raw_async a =
        let (b, _) = close_once max pooled observed a in (b, (some b.link.writer.conn, none))

    -- `Raw`.
    unfoldable pub raw_client :
        Client Buffer Queue → Called (Client Buffer Queue) (Option Conn × Option Error)
    raw_client c = elim c.conn [
      | none ↦ gives c (none, some connection_not_initialized)
      | some a ↦
          if c.closed
          then keep_conn c (raw_async a)
          else keep_conn (record c { closed = true }) (raw_async a)
    ]

  unfoldable pub stream_client : ℕ → Client Buffer Queue → Called (Client Buffer Queue) ℕ
  stream_client id c = with_conn c (λ a. let (s, b) = open_stream id a in (b, s))

  -- `SetStreamHandler`; `closure f` is the function that calls `f` with its context.
  unfoldable pub set_client_stream_handler :
      (Option ℕ → ℕ) → Option ℕ → Client Buffer Queue → Called (Client Buffer Queue) (Option Error)
  set_client_stream_handler closure f c = with_conn c λ a.
      let b : Async Buffer Queue = elim f [ none ↦ set_new_stream_handler none a | some g ↦ a ] in
      (set_new_stream_handler (some (closure f)) b, none)
