-- ===== src/Client/Setup/Connecting.antt =====
-- How a client of client.go is made and connected.
use frisbee_go.Prelude.{
  ℕ, ap, ◌<◌, ◌≡◌, refl, ◌⊎◌, inl, inr, false, Option, none, some, List, [], ◌∷◌, All,
}
use frisbee_go.Errors.{Error, invalid_handler_table}
use frisbee_go.Packet.{BufferOps, Packet}
use frisbee_go.Queue.{QueueOps}
use frisbee_go.Conn.{Conn}
use frisbee_go.Options.{Options, Setting, load_options}
use frisbee_go.Dialer.{Dialled, connects, dial_fails, Fails, from}
use frisbee_go.Connect.{Socket, Connected, connect_async}
use frisbee_go.Connect.Made.{attempts, socket, connect_lem}
use frisbee_go.Async.State.{Async}
use frisbee_go.Async.Start.{new_async}
use frisbee_go.Server.{Handler, find_handler}
use frisbee_go.Server.Handlers.{has_handler_below_lem}
use frisbee_go.Client.Setup.{Client, gives, new_client, connect_with, connect}

module _ {Buffer Queue : Type 0} ⦃ops : BufferOps Buffer⦄
    ⦃qs : QueueOps Queue (Packet Buffer)⦄ where
  -- What `Connect` comes to for a client with these options.
  abbrev pub ConnectsWith :
      (ℕ → Dialled)
      → (ℕ → ℕ → Dialled)
      → (Socket → Conn)
      → List (Option ℕ)
      → Options
      → Client Buffer Queue
      → Type 0
  ConnectsWith plain tls opens handlers options c =
      let s = socket options.tls_config options.keep_alive in
      let attempt = attempts plain tls options.tls_config in
      ((before : ℕ) × (n : ℕ) × (before < 10)
        × All (λ j. Fails (attempt j)) (from before 0)
        × (attempt before ≡ connects n)
        × (connect plain tls opens handlers c
            ≡ gives (record c { conn = some (new_async (opens (s n)) handlers) }) none))
      ⊎ ((e : Error) × (attempt 9 ≡ dial_fails e)
          × All (λ j. Fails (attempt j)) (from 10 0)
          × (connect plain tls opens handlers c ≡ gives c (some e)))

  connect-ConnectsWith :
      (plain : ℕ → Dialled) (tls : ℕ → ℕ → Dialled) (opens : Socket → Conn)
      (handlers : List (Option ℕ)) (c : Client Buffer Queue)
      → ConnectsWith plain tls opens handlers c.options c
  unfolding connect
  connect-ConnectsWith plain tls opens handlers c =
      let tls_config = c.options.tls_config in
      let keep_alive = c.options.keep_alive in
      let made : Connected (Async Buffer Queue) =
        connect_async plain tls opens tls_config keep_alive handlers in
      elim (connect_lem plain tls {Buffer = Buffer} {Queue = Queue} (λ n. n) 0 (λ n. none) opens
        tls_config keep_alive handlers) [
          | inl (before, n, l, all, f, same, _, _) ↦
              inl (before, n, l, all, f, ap (connect_with c) same)
          | inr (e, f, all, same, _) ↦ inr (e, f, all, ap (connect_with c) same)
        ]

  -- `NewClient` refuses a handler table with a handler for one of the operations 0 to 8, and only
  -- such a table. Otherwise its client is connected by `Connect` with the keep-alive and the TLS
  -- configuration of the options that were loaded: it has a new connection over that of the first of
  -- ten attempts that succeeds, or it stays as it is and the error is that of the tenth attempt.
  pub new_client_lem :
      (noop : ℕ) (table : List (ℕ × Handler Buffer)) (settings : List Setting) (plain : ℕ → Dialled)
      (tls : ℕ → ℕ → Dialled) (opens : Socket → Conn) (handlers : List (Option ℕ))
      → let made : Option (Client Buffer Queue) × Option Error = new_client noop table settings in
        ((c : Client Buffer Queue) × (made ≡ (some c, none))
          × (c.handler_table ≡ table)
          × All (λ op. find_handler op table ≡ none) (0 ∷ 1 ∷ 2 ∷ 3 ∷ 4 ∷ 5 ∷ 6 ∷ 7 ∷ 8 ∷ [])
          × ConnectsWith plain tls opens handlers (load_options noop settings) c)
        ⊎ ((made ≡ (none, some invalid_handler_table))
            × (op : ℕ) × (h : Handler Buffer) × (op < 9)
            × (find_handler op table ≡ some h))
  unfolding new_client
  new_client_lem noop table settings plain tls opens handlers =
      elim (has_handler_below_lem 9 0 table) [
        | inl (free, all) ↦
            let c : Client Buffer Queue = record {
              handler_table = table;
              options = load_options noop settings;
              conn = none;
              closed = false;
            } in
            inl (
              c,
              rw (free, new_client) refl,
              refl,
              all,
              connect-ConnectsWith plain tls opens handlers c,
            )
        | inr (used, op, h, l, e) ↦ inr (rw (used, new_client) refl, op, h, l, e)
      ]
