-- ===== src/Connect/Made.antt =====
-- What connecting comes to.
use frisbee_go.Prelude.{
  ℕ, ◌<◌, ◌≡◌, refl, ◌⊎◌, inl, inr, true, false, Option, none, some, List, All,
}
use frisbee_go.Errors.{Error, not_tls_connection_error}
use frisbee_go.Packet.{Packet}
use frisbee_go.Queue.{QueueOps}
use frisbee_go.Conn.{Conn}
use frisbee_go.Sync.{new_sync}
use frisbee_go.Async.State.{Async}
use frisbee_go.Async.Start.{new_async}
use frisbee_go.Options.{ℤ}
use frisbee_go.Dialer.{
  Dialled, connects, dial_fails, dial, dial_tls, num_retries, Fails, from, dial_lem,
}
use frisbee_go.Connect.{
  Socket, Connected, connected, failed, dial_socket, connect_async, connect_sync, connection_state,
  handshake,
}

-- The dialler that a call uses, and the connection that it makes of what the dialler returns.
abbrev pub attempts : (ℕ → Dialled) → (ℕ → ℕ → Dialled) → Option ℕ → ℕ → Dialled
attempts plain tls none = plain
attempts plain tls (some config) = tls config

abbrev pub socket : Option ℕ → ℤ → ℕ → Socket
socket none keep_alive n = record { handle = n; is_tls = false; keep_alive = some keep_alive }
socket (some config) keep_alive n = record { handle = n; is_tls = true; keep_alive = none }

-- What the methods for TLS have to return for a connection that was dialled with `config`, when the
-- library's methods return `answer`.
abbrev pub if_tls : {A : Type 0} → Option ℕ → A → A → A
if_tls none refusal answer = refusal
if_tls (some config) refusal answer = answer

module _ {State : Type 0} (state : ℕ → State) (empty_state : State)
    (shakes : ℕ → Option Error) where
  -- The methods for TLS agree with the configuration.
  abbrev pub AnswersTls : Option ℕ → ℕ → Socket → Type 0
  AnswersTls config n s =
      (connection_state state empty_state s
        ≡ if_tls config (empty_state, some not_tls_connection_error) (state n, none))
      × (handshake shakes s ≡ if_tls config (some not_tls_connection_error) (shakes n))

  socket-AnswersTls :
      (config : Option ℕ) (keep_alive : ℤ) (n : ℕ)
      → AnswersTls config n (socket config keep_alive n)
  unfolding connection_state handshake
  socket-AnswersTls none keep_alive n = (refl, refl)
  socket-AnswersTls (some config) keep_alive n = (refl, refl)

module _ (plain : ℕ → Dialled) (tls : ℕ → ℕ → Dialled) where
  dial_socket_lem :
      (config : Option ℕ) (keep_alive : ℤ)
      → dial_socket plain tls config keep_alive ≡ (
          let (c, err) = dial (attempts plain tls config) num_retries in
          (socket config keep_alive, c, err))
  unfolding dial_socket dial dial_tls
  dial_socket_lem none keep_alive = refl
  dial_socket_lem (some config) keep_alive = refl

  -- Both calls dial up to ten times, through TLS if there is a configuration for it. They wrap the
  -- connection of the first attempt that succeeds, or return the error of the tenth attempt, all
  -- attempts before having failed; they never use a connection that is nil. The methods for TLS of what
  -- they wrap do what the Go library's do if there was a configuration, and return
  -- `NotTLSConnectionError` if there was none.
  pub connect_lem :
      {Buffer Queue : Type 0}
      → ⦃qs : QueueOps Queue (Packet Buffer)⦄ → {State : Type 0}
      → (state : ℕ → State) (empty_state : State) (shakes : ℕ → Option Error)
      → (opens : Socket → Conn) (config : Option ℕ) (keep_alive : ℤ)
        (stream_handler : List (Option ℕ))
      → let s = socket config keep_alive in
        let attempt = attempts plain tls config in
        let made : Connected (Async Buffer Queue) =
          connect_async plain tls opens config keep_alive stream_handler in
        ((before : ℕ) × (c : ℕ) × (before < 10)
          × All (λ j. Fails (attempt j)) (from before 0)
          × (attempt before ≡ connects c)
          × (made ≡ connected (s c) (new_async (opens (s c)) stream_handler))
          × (connect_sync plain tls opens config keep_alive
              ≡ connected (s c) (new_sync (opens (s c))))
          × AnswersTls state empty_state shakes config c (s c))
        ⊎ ((e : Error) × (attempt 9 ≡ dial_fails e)
            × All (λ j. Fails (attempt j)) (from 10 0)
            × (made ≡ failed e)
            × (connect_sync plain tls opens config keep_alive ≡ failed e))
  unfolding connect_async connect_sync
  connect_lem state empty_state shakes opens config keep_alive stream_handler =
      let h = dial_socket_lem config keep_alive in
      elim (dial_lem (attempts plain tls config) 9) [
        | inl (before, c, l, all, f, same) ↦ inl (
          before,
          c,
          l,
          all,
          f,
          rw (h, same) refl,
          rw (h, same) refl,
          socket-AnswersTls state empty_state shakes config keep_alive c,
        )
        | inr (e, f, all, same) ↦ inr (e, f, all, rw (h, same) refl, rw (h, same) refl)
      ]
