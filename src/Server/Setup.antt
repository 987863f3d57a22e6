-- ===== src/Server/Setup.antt =====
-- server.go: how a server is made, set up and started, and how it chooses what handles a new
-- connection. Functions of the program are numbered, and `none` is nil.
pub mod Ready
mod Examples
use frisbee_go.Prelude.{
  ℕ, Bool, true, false, Option, none, some, List, [], ◌∷◌, ltb, ◌==◌, if◌then◌else◌,
}
use frisbee_go.Errors.{Error, on_closed_nil, pre_write_nil, listener_nil}
use frisbee_go.Options.{Options, Setting, load_options}
use frisbee_go.Server.{Handler, Accepted, Listened, ListenEnd, set_handler_table, handle_listener}

-- The default functions, those that the program sets, and, for streams, a closure that calls what
-- the program sets, which may be nil.
pub data Callback : Type 0 where
  default : Callback
  calls : ℕ → Callback
  calls_nil : Callback

pub record Server (Buffer : Type 0) : Type 0 where
  pub handler_table : List (ℕ × Handler Buffer)
  pub options : Options
  pub on_closed : Callback
  pub pre_write : Callback
  pub stream_handler : Callback
  pub concurrency : ℕ
  -- The capacity of the channel `limiter`, if it has been made.
  pub limiter : Option ℕ
  pub listener : Option ℕ
  -- Whether `startedCh` has been closed.
  pub started : Bool

-- `StartWithListener`, up to what the listener does with what it is given; to start a server twice
-- closes a closed channel.
pub data Start (Buffer : Type 0) : Type 0 where
  refuses : Error → Start Buffer
  panics : Start Buffer
  runs : Server Buffer → List Listened × ListenEnd → Start Buffer

-- What handles the packets of a connection, with the limiter.
pub data Handling : Type 0 where
  unlimited : Handling
  single : Handling
  limited : Option ℕ → Handling

-- What becomes of a new connection: it is closed, as its keep-alive could not be set, it is left as
-- it is, as the server has been shut down, or its packets are handled.
pub data Served : Type 0 where
  turned_away : Served
  left_open : Served
  handled_by : Handling → Served

-- The two calls that set the keep-alive of a TCP connection, of which the first may fail.
unfoldable pub keep_alive_error : Bool → Option Error → Option Error → Option Error
keep_alive_error false on period = none
keep_alive_error true (some e) period = some e
keep_alive_error true none period = period

module _ {Buffer : Type 0} where
  -- `NewServer`; the table is nil until `SetHandlerTable` takes one.
  unfoldable pub new_server :
      ℕ → List (ℕ × Handler Buffer) → List Setting → Server Buffer × Option Error
  new_server noop table settings =
      let (accepted, err) = set_handler_table [] table in
      (
        record {
          handler_table = accepted;
          options = load_options noop settings;
          on_closed = default;
          pre_write = default;
          stream_handler = default;
          concurrency = 0;
          limiter = none;
          listener = none;
          started = false;
        },
        err,
      )

  -- `SetOnClosed`.
  unfoldable pub set_on_closed : Option ℕ → Server Buffer → Server Buffer × Option Error
  set_on_closed none s = (s, some on_closed_nil)
  set_on_closed (some f) s = (record s { on_closed = calls f }, none)

  -- `SetPreWrite`.
  unfoldable pub set_pre_write : Option ℕ → Server Buffer → Server Buffer × Option Error
  set_pre_write none s = (s, some pre_write_nil)
  set_pre_write (some f) s = (record s { pre_write = calls f }, none)

  -- `SetStreamHandler`, which does not look whether its argument is nil.
  unfoldable pub set_stream_handler : Option ℕ → Server Buffer → Server Buffer × Option Error
  set_stream_handler none s = (record s { stream_handler = calls_nil }, none)
  set_stream_handler (some f) s = (record s { stream_handler = calls f }, none)

  -- `SetHandlerTable`.
  unfoldable pub replace_table :
      List (ℕ × Handler Buffer) → Server Buffer → Server Buffer × Option Error
  replace_table table s =
      let (kept, err) = set_handler_table s.handler_table table in
      (record s { handler_table = kept }, err)

  -- `SetConcurrency`.
  unfoldable pub set_concurrency : ℕ → Server Buffer → Server Buffer
  set_concurrency n s = record s {
    concurrency = n;
    limiter = if ltb 1 n then some n else s.limiter;
  }

  unfoldable pub start_with_listener : Option ℕ → List Accepted → Server Buffer → Start Buffer
  start_with_listener none arrivals s = refuses listener_nil
  start_with_listener (some l) arrivals s =
      if s.started
      then panics
      else runs (record s { listener = some l; started = true }) (handle_listener 0 arrivals)

  -- `Start`, with what listening comes to, for the TLS configuration, as a parameter.
  unfoldable pub start :
      (Option ℕ → Option ℕ × Option Error) → List Accepted → Server Buffer → Start Buffer
  start listens arrivals s =
      let (l, err) = listens s.options.tls_config in
      elim err [ some e ↦ refuses e | none ↦ start_with_listener l arrivals s ]

  -- The switch of `serveConn`.
  unfoldable pub handling : Server Buffer → Handling
  handling s =
      if s.concurrency == 0
      then unlimited
      else if s.concurrency == 1
      then single
      else limited s.limiter

  -- `serveConn`, up to the handling.
  unfoldable pub serve_conn : Bool → Option Error → Option Error → Bool → Server Buffer → Served
  serve_conn is_tcp on period shutdown s = elim (keep_alive_error is_tcp on period) [
    | some e ↦ turned_away
    | none ↦ if shutdown then left_open else handled_by (handling s)
  ]
