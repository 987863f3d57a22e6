-- ===== src/Server/Setup/Ready.antt =====
-- What a server of server.go is ready for once it has been made and set up.
use frisbee_go.Prelude.{
  ℕ, ◌≡◌, refl, ap, subst, sym, ◌∙◌, inl, inr, Bool, true, false, Option, none, some, List, [], ◌∷◌,
  ◌==◌, if◌then◌else◌, All, arith,
}
use frisbee_go.Errors.{Error}
use frisbee_go.Options.{Setting}
use frisbee_go.Options.Last.{last_said}
use frisbee_go.Server.{Handler, Accepted, find_handler, set_handler_table, handle_listener}
use frisbee_go.Server.Handlers.{set_handler_table_lem}
use frisbee_go.Server.Setup.{
  Callback, default, calls, Server, new_server, set_on_closed, set_pre_write, set_stream_handler,
  replace_table, set_concurrency, panics, runs, start_with_listener, Handling, unlimited, single,
  limited, handling, handled_by, keep_alive_error, serve_conn,
}

-- A call that sets a server up.
pub data Setup (Buffer : Type 0) : Type 0 where
  sets_on_closed : Option ℕ → Setup Buffer
  sets_pre_write : Option ℕ → Setup Buffer
  sets_streams : Option ℕ → Setup Buffer
  sets_table : List (ℕ × Handler Buffer) → Setup Buffer
  sets_concurrency : ℕ → Setup Buffer

-- What a call says of a function, of the concurrency.
abbrev pub called : Option ℕ → Option Callback
called none = none
called (some f) = some (calls f)

abbrev pub says_on_closed : {Buffer : Type 0} → Setup Buffer → Option Callback
says_on_closed (sets_on_closed f) = called f
says_on_closed _ = none

abbrev pub says_pre_write : {Buffer : Type 0} → Setup Buffer → Option Callback
says_pre_write (sets_pre_write f) = called f
says_pre_write _ = none

abbrev pub says_concurrency : {Buffer : Type 0} → Setup Buffer → Option ℕ
says_concurrency (sets_concurrency n) = some n
says_concurrency _ = none

-- How packets are to be handled with a concurrency of `n`.
abbrev pub expected : ℕ → Handling
expected n = if n == 0 then unlimited else if n == 1 then single else limited (some n)

module _ {Buffer : Type 0} where
  abbrev pub set_up : Setup Buffer → Server Buffer → Server Buffer × Option Error
  set_up (sets_on_closed f) s = set_on_closed f s
  set_up (sets_pre_write f) s = set_pre_write f s
  set_up (sets_streams f) s = set_stream_handler f s
  set_up (sets_table table) s = replace_table table s
  set_up (sets_concurrency n) s = (set_concurrency n s, none)

  -- The calls one after the other, whatever errors they return.
  abbrev pub configure : List (Setup Buffer) → Server Buffer → Server Buffer
  configure [] s = s
  configure (k ∷ ks) s = configure ks (set_up k s).0

  -- No handler stands for an operation from 0 to 8.
  abbrev pub HasNoReserved : List (ℕ × Handler Buffer) → Type 0
  HasNoReserved table =
      All (λ op. find_handler op table ≡ none) (0 ∷ 1 ∷ 2 ∷ 3 ∷ 4 ∷ 5 ∷ 6 ∷ 7 ∷ 8 ∷ [])

  record IsReady (s : Server Buffer) : Type 0 where
    limits : handling s ≡ expected s.concurrency
    no_reserved : HasNoReserved s.handler_table
    not_started : s.started ≡ false

  table-HasNoReserved :
      (old table : List (ℕ × Handler Buffer))
      → HasNoReserved old
      → HasNoReserved (set_handler_table old table).0
  table-HasNoReserved old table h = elim (set_handler_table_lem old table) [
    | inl (same, free) ↦ subst (λ r. HasNoReserved r.0) (sym same) free
    | inr (same, op, f, l, e) ↦ subst (λ r. HasNoReserved r.0) (sym same) h
  ]

  set_up-IsReady : (k : Setup Buffer) (s : Server Buffer) → IsReady s → IsReady (set_up k s).0
  unfolding set_on_closed set_pre_write set_stream_handler replace_table set_concurrency handling
  set_up-IsReady (sets_on_closed none) s i = i
  set_up-IsReady (sets_on_closed (some f)) s i = record {
    limits = i.limits;
    no_reserved = i.no_reserved;
    not_started = i.not_started;
  }
  set_up-IsReady (sets_pre_write none) s i = i
  set_up-IsReady (sets_pre_write (some f)) s i = record {
    limits = i.limits;
    no_reserved = i.no_reserved;
    not_started = i.not_started;
  }
  set_up-IsReady (sets_streams none) s i = record {
    limits = i.limits;
    no_reserved = i.no_reserved;
    not_started = i.not_started;
  }
  set_up-IsReady (sets_streams (some f)) s i = record {
    limits = i.limits;
    no_reserved = i.no_reserved;
    not_started = i.not_started;
  }
  set_up-IsReady (sets_table table) s i = record {
    limits = i.limits;
    no_reserved = table-HasNoReserved s.handler_table table i.no_reserved;
    not_started = i.not_started;
  }
  set_up-IsReady (sets_concurrency n) s i = record {
    limits = ground arith;
    no_reserved = i.no_reserved;
    not_started = i.not_started;
  }

  configure-IsReady :
      (ks : List (Setup Buffer)) (s : Server Buffer) → IsReady s → IsReady (configure ks s)
  configure-IsReady [] s i = i
  configure-IsReady (k ∷ ks) s i = configure-IsReady ks (set_up k s).0 (set_up-IsReady k s i)

  -- Each of the fields is as the last call that sets it has it.
  abbrev IsAsSaid : List (Setup Buffer) → Server Buffer → Server Buffer → Type 0
  IsAsSaid ks s t =
      (t.on_closed ≡ last_said says_on_closed s.on_closed ks)
      × (t.pre_write ≡ last_said says_pre_write s.pre_write ks)
      × (t.concurrency ≡ last_said says_concurrency s.concurrency ks)

  configure-IsAsSaid :
      (ks : List (Setup Buffer)) (s : Server Buffer) → IsAsSaid ks s (configure ks s)
  unfolding set_on_closed set_pre_write set_stream_handler replace_table set_concurrency
  configure-IsAsSaid [] s = (refl, refl, refl)
  configure-IsAsSaid (sets_on_closed none ∷ ks) s = configure-IsAsSaid ks s
  configure-IsAsSaid (sets_on_closed (some f) ∷ ks) s =
      configure-IsAsSaid ks (set_up (sets_on_closed (some f)) s).0
  configure-IsAsSaid (sets_pre_write none ∷ ks) s = configure-IsAsSaid ks s
  configure-IsAsSaid (sets_pre_write (some f) ∷ ks) s =
      configure-IsAsSaid ks (set_up (sets_pre_write (some f)) s).0
  configure-IsAsSaid (sets_streams none ∷ ks) s =
      configure-IsAsSaid ks (set_up (sets_streams none) s).0
  configure-IsAsSaid (sets_streams (some f) ∷ ks) s =
      configure-IsAsSaid ks (set_up (sets_streams (some f)) s).0
  configure-IsAsSaid (sets_table table ∷ ks) s =
      configure-IsAsSaid ks (set_up (sets_table table) s).0
  configure-IsAsSaid (sets_concurrency n ∷ ks) s =
      configure-IsAsSaid ks (set_up (sets_concurrency n) s).0

  new_server-IsReady :
      (noop : ℕ) (table : List (ℕ × Handler Buffer)) (settings : List Setting)
      → IsReady (new_server noop table settings).0
  unfolding new_server handling find_handler
  new_server-IsReady noop table settings = record {
    limits = refl;
    no_reserved =
        table-HasNoReserved [] table
          (refl, (refl, (refl, (refl, (refl, (refl, (refl, (refl, (refl, tt {0})))))))));
    not_started = refl;
  }

  -- Once it has started, a server cannot be started again.
  abbrev pub StartsOnce : Server Buffer → Type 0
  StartsOnce s =
      (l : ℕ) (arrivals later : List Accepted)
      → (t : Server Buffer) × (start_with_listener (some l) arrivals s
          ≡ runs t (handle_listener 0 arrivals))
        × (start_with_listener (some l) later t ≡ panics)

  not_started-StartsOnce : (s : Server Buffer) → s.started ≡ false → StartsOnce s
  unfolding start_with_listener
  not_started-StartsOnce s h l arrivals later =
      (record s { listener = some l; started = true }, ground (arith, h), refl)

  serves :
      (is_tcp : Bool) (s : Server Buffer)
      → serve_conn is_tcp none none false s ≡ handled_by (handling s)
  unfolding serve_conn keep_alive_error
  serves true s = refl
  serves false s = refl

  -- However a new server is set up, by whatever calls in whatever order and whatever errors they
  -- return: a connection whose keep-alive could be set is served, before a shutdown, without a limit,
  -- one packet at a time, or with a limiter of the right capacity, if the concurrency that was set
  -- last is 0 (or none was set), 1, or more; the functions for closed connections and before writes
  -- are the last that were set and were not nil, or the defaults; the table has no handler for the
  -- operations from 0 to 8; and the server can be started once, when it serves what the listener
  -- accepts, but not a second time.
  pub configure_lem :
      (noop : ℕ) (table : List (ℕ × Handler Buffer)) (settings : List Setting)
      (ks : List (Setup Buffer))
      → let s = configure ks (new_server noop table settings).0 in
        ((is_tcp : Bool)
          → serve_conn is_tcp none none false s
            ≡ handled_by (expected (last_said says_concurrency 0 ks)))
        × (s.on_closed ≡ last_said says_on_closed default ks)
        × (s.pre_write ≡ last_said says_pre_write default ks)
        × HasNoReserved s.handler_table
        × StartsOnce s
  unfolding new_server
  configure_lem noop table settings ks =
      let new = (new_server noop table settings).0 in
      let s = configure ks new in
      let i = configure-IsReady ks new (new_server-IsReady noop table settings) in
      let (closed, written, n) = configure-IsAsSaid ks new in
      (
        (λ is_tcp. serves is_tcp s ∙ ap handled_by (i.limits ∙ ap expected n)),
        closed,
        written,
        i.no_reserved,
        not_started-StartsOnce s i.not_started,
      )
