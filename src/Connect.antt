-- ===== src/Connect.antt =====
-- `ConnectAsync` of async.go and `ConnectSync` of sync.go, which dial and wrap the connection, and
-- their methods that ask a connection for its TLS state. The network is a parameter: what the
-- attempts to dial come to, and what a connection will read and write.
pub mod Made
mod Examples
use frisbee_go.Prelude.{ℕ, Bool, true, false, Option, none, some, List, if◌then◌else◌}
use frisbee_go.Errors.{Error, not_tls_connection_error}
use frisbee_go.Packet.{Packet}
use frisbee_go.Queue.{QueueOps}
use frisbee_go.Conn.{Conn}
use frisbee_go.Sync.{Sync, new_sync}
use frisbee_go.Async.State.{Async}
use frisbee_go.Async.Start.{new_async}
use frisbee_go.Options.{ℤ}
use frisbee_go.Dialer.{Dialled, dial, dial_tls, num_retries}

-- A net.Conn: which one, whether it is a *tls.Conn, and the keep-alive period that was set on it.
pub record Socket : Type 0 where
  pub handle : ℕ
  pub is_tls : Bool
  pub keep_alive : Option ℤ

-- How a call of `ConnectAsync` or `ConnectSync` ends. Without a connection and without an error, the
-- code goes on to use a connection that is nil.
pub data Connected (C : Type 0) : Type 0 where
  connected : Socket → C → Connected C
  failed : Error → Connected C
  panics : Connected C

module _ (plain : ℕ → Dialled) (tls : ℕ → ℕ → Dialled) where
  -- The connection that `DialTLS` returns is a *tls.Conn; that of `Dial` is told its keep-alive.
  unfoldable pub dial_socket : Option ℕ → ℤ → (ℕ → Socket) × Option ℕ × Option Error
  dial_socket none keep_alive =
      let (c, err) = dial plain num_retries in
      ((λ n. record { handle = n; is_tls = false; keep_alive = some keep_alive }), c, err)
  dial_socket (some config) keep_alive =
      let (c, err) = dial_tls tls config num_retries in
      ((λ n. record { handle = n; is_tls = true; keep_alive = none }), c, err)

  abbrev pub wrap :
      {C : Type 0} → (Socket → C) → (ℕ → Socket) × Option ℕ × Option Error → Connected C
  wrap make (socket, c, some e) = failed e
  wrap make (socket, some n, none) = connected (socket n) (make (socket n))
  wrap make (socket, none, none) = panics

  module _ (opens : Socket → Conn) where
    -- `ConnectAsync`.
    unfoldable pub connect_async :
        {Buffer Queue : Type 0}
        → ⦃qs : QueueOps Queue (Packet Buffer)⦄ → Option ℕ
        → ℤ
        → List (Option ℕ)
        → Connected (Async Buffer Queue)
    connect_async config keep_alive stream_handler =
        wrap (λ s. new_async (opens s) stream_handler) (dial_socket config keep_alive)

    -- `ConnectSync`.
    unfoldable pub connect_sync : Option ℕ → ℤ → Connected Sync
    connect_sync config keep_alive = wrap (λ s. new_sync (opens s)) (dial_socket config keep_alive)

-- The TLS methods are the same in async.go and sync.go. Of the *tls.Conn, what its methods return
-- is a parameter.
module _ {State : Type 0} (state : ℕ → State) (empty_state : State) where
  -- `ConnectionState`.
  unfoldable pub connection_state : Socket → State × Option Error
  connection_state s =
      if s.is_tls then (state s.handle, none) else (empty_state, some not_tls_connection_error)

-- `Handshake` and `HandshakeContext`.
unfoldable pub handshake : (ℕ → Option Error) → Socket → Option Error
handshake shakes s = if s.is_tls then shakes s.handle else some not_tls_connection_error
