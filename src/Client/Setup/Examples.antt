-- ===== src/Client/Setup/Examples.antt =====
-- Tests of how clients are made and closed, and the theorems on it at concrete inputs.
use frisbee_go.Prelude.{
  ℕ, ◌<◌, ◌≡◌, refl, ◌⊎◌, true, false, Option, none, some, List, [], ◌∷◌, All, ltb, if◌then◌else◌,
}
use frisbee_go.Errors.{Error, external, invalid_handler_table, connection_not_initialized}
use frisbee_go.Packet.{Packet}
use frisbee_go.Conn.{Conn}
use frisbee_go.Concrete.{ListQueue, list_buffer, list_queue}
use frisbee_go.Options.{pos, with_keep_alive, load_options}
use frisbee_go.Dialer.{Dialled, connects, dial_fails}
use frisbee_go.Connect.{Socket}
use frisbee_go.Async.State.{Async}
use frisbee_go.Async.Stale.{Drains}
use frisbee_go.Async.Close.{set_new_stream_handler}
use frisbee_go.Async.Samples.{idle, hello, dirty}
use frisbee_go.Server.{Handler, find_handler}
use frisbee_go.Server.Samples.{table}
use frisbee_go.Client.Setup.{
  Client, gives, panics, new_client, close_client, raw_client, set_client_stream_handler,
}
use frisbee_go.Client.Setup.Closing.{close_client_lem}
use frisbee_go.Client.Setup.Connecting.{ConnectsWith, new_client_lem}

abbrev BytesQueue : Type 0
BytesQueue = ListQueue (Packet (List ℕ))

-- A connection on which one packet waits to be read.
abbrev link : Async (List ℕ) BytesQueue
link = record {
  link = idle;
  incoming = record { items = hello ∷ []; shut = false };
  stale = [];
  error = none;
  channels_closed = false;
  heap = [];
  streams = [];
  new_stream_handler = none;
  started = [];
  pool = [];
}

abbrev apart : Client (List ℕ) BytesQueue
apart = record { handler_table = table; options = load_options 7 []; conn = none; closed = false }

abbrev client : Client (List ℕ) BytesQueue
client = record apart { conn = some link }

-- Without a connection, `Raw` says so, and `Close` uses a nil pointer.
raw_apart : raw_client 100 dirty false apart ≡ gives apart (none, some connection_not_initialized)
unfolding raw_client
raw_apart = refl

closes_apart : close_client 100 dirty false apart ≡ panics
unfolding close_client
closes_apart = refl

-- To set a handler that is nil sets the function that calls it.
sets_nil :
    set_client_stream_handler (λ f. 5) none client
    ≡ gives (record client { conn = some (record link { new_stream_handler = some 5 }) }) none
unfolding set_client_stream_handler set_new_stream_handler
sets_nil = refl

abbrev flaky : ℕ → Dialled
flaky i = if ltb i 3 then dial_fails (external i) else connects i

abbrev silent : Socket → Conn
silent s = record { reads = []; writes = []; sent = []; is_closed = false }

close_client_lem_example :
    (d : Client (List ℕ) BytesQueue) × (b : Async (List ℕ) BytesQueue) × (close_client 100 dirty
        false client
      ≡ gives d none)
    × (d.closed ≡ true)
    × (d.conn ≡ some b)
    × (b.link.closed ≡ true)
    × Drains b (hello ∷ [])
    × (close_client 100 dirty false d ≡ gives d none)
    × (raw_client 100 dirty false d ≡ gives d (some b.link.writer.conn, none))
close_client_lem_example = close_client_lem 100 dirty false client link refl refl

new_client_lem_example :
    let made : Option (Client (List ℕ) BytesQueue) × Option Error =
      new_client 7 table (with_keep_alive (pos 5) ∷ []) in
    ((c : Client (List ℕ) BytesQueue) × (made ≡ (some c, none))
      × (c.handler_table ≡ table)
      × All (λ op. find_handler op table ≡ none) (0 ∷ 1 ∷ 2 ∷ 3 ∷ 4 ∷ 5 ∷ 6 ∷ 7 ∷ 8 ∷ [])
      × ConnectsWith flaky
          (λ config. flaky)
          silent
          []
          (load_options 7 (with_keep_alive (pos 5) ∷ []))
          c)
    ⊎ ((made ≡ (none, some invalid_handler_table))
        × (op : ℕ) × (h : Handler (List ℕ)) × (op < 9)
        × (find_handler op table ≡ some h))
new_client_lem_example =
    new_client_lem 7 table (with_keep_alive (pos 5) ∷ []) flaky (λ config. flaky) silent []
