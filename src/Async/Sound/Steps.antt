-- ===== src/Async/Sound/Steps.antt =====
-- What the functions that the calls of async.go and stream.go are made of keep of the state.
use frisbee_go.Prelude.{
  ℕ, ◌≡◌, refl, ap, ◌∙◌, Bool, true, false, Option, none, some, List, [], ◌∷◌, if◌then◌else◌, arith,
}
use frisbee_go.Errors.{Error, connection_closed, stream_closed, join}
use frisbee_go.Packet.{BufferOps, Packet, get_packet}
use frisbee_go.Queue.{QueueOps}
use frisbee_go.Async.State.{Link, Async, modify, at}
use frisbee_go.Async.Write.{
  Outcome, queued, refused, broken, break_off, wake_flusher, write_body, write_open, write_locked,
  write_packet,
}
use frisbee_go.Async.Accounting.{set_write_deadline_rest}
use frisbee_go.Async.Close.{
  take_packet, shut_stream, settle, send_close, close_send, last_flush, close_streams, close_once,
  close_conn, close_with_error,
}
use frisbee_go.Async.Stale.{write_packet-closed, last_flush-closed}
use frisbee_go.Async.Sound.{Evolves, Evolves-refl, Evolves-trans}
use frisbee_go.Async.Sound.Parts.{same_streams, set_link, close-Evolves, delete-Evolves}
use frisbee_go.Async.Sound.Streams.{modify-Evolves, shut_stream-IsSound}

-- A write that meets no other goroutine leaves the flag as it is.
write_packet-open :
    {Buffer : Type 0} ⦃ops : BufferOps Buffer⦄ (max : ℕ) (pooled : List ℕ) (observed : Bool)
    (p : Packet Buffer) (c : Link)
    → observed ≡ false
    → (write_packet max pooled observed p c).0.closed ≡ c.closed
unfolding write_packet write_locked write_open write_body break_off wake_flusher
write_packet-open max pooled observed p c n = ground (arith, n, set_write_deadline_rest c)

module _ {Buffer Queue : Type 0} ⦃ops : BufferOps Buffer⦄
    ⦃qs : QueueOps Queue (Packet Buffer)⦄ where
  -- Fields that the invariant does not read.
  pub set_error :
      {met : Bool} (c : Async Buffer Queue) (e : Option Error)
      → Evolves met c (record c { error = e })
  set_error c e =
      same_streams c (record c { error = e }) refl (λ id s h. h) (λ z. z) (λ n t. t)
        (λ i. (i.flag_first, i.while_open, i.when_closed))

  pub take_packet-Evolves : {met : Bool} (c : Async Buffer Queue) → Evolves met c (take_packet c).1
  unfolding take_packet
  take_packet-Evolves {met = met} c =
      elim c.pool
        as (λ pool.
          Evolves met c
            (elim pool as (λ x. Packet Buffer × Async Buffer Queue) [
              | [] ↦ (get_packet none, c)
              | found ∷ later ↦ (get_packet found, record c { pool = later })
            ]).1) [
              | [] ↦ Evolves-refl c
              | found ∷ later ↦
                  same_streams c (record c { pool = later }) refl (λ id s h. h) (λ z. z) (λ n t. t)
                    (λ i. (i.flag_first, i.while_open, i.when_closed))
            ]

  pub shut-Evolves :
      {met : Bool} (s : ℕ) (c : Async Buffer Queue)
      → Evolves met c (record c { heap = modify s shut_stream c.heap })
  unfolding shut_stream
  shut-Evolves s c =
      modify-Evolves c s shut_stream (λ t. ground arith) (λ t z. ground arith) shut_stream-IsSound

  -- A call that branches evolves if its branches do.
  pub if-Evolves :
      {met : Bool} {X : Type 0} (c : Async Buffer Queue) (b : Bool) (x y : Async Buffer Queue × X)
      → (b ≡ true → Evolves met c x.0)
      → (b ≡ false → Evolves met c y.0)
      → Evolves met c (if b then x else y).0
  if-Evolves c true x y f g = f refl
  if-Evolves c false x y f g = g refl

  pub case-Evolves :
      {met : Bool} {A X : Type 0} (c : Async Buffer Queue) (o : Option A)
      (x : Async Buffer Queue × X) (y : A → Async Buffer Queue × X)
      → (o ≡ none → Evolves met c x.0)
      → ((a : A) → o ≡ some a → Evolves met c (y a).0)
      → Evolves met c (elim o as (λ _. Async Buffer Queue × X) [ none ↦ x | some a ↦ y a ]).0
  case-Evolves c none x y f g = f refl
  case-Evolves c (some a) x y f g = g a refl

  module _ (max : ℕ) (pooled : List ℕ) (observed : Bool) where
    -- A write leaves a closed connection closed.
    pub write-Evolves :
        (p : Packet Buffer) (c : Async Buffer Queue)
        → Evolves observed c (record c { link = (write_packet max pooled observed p c.link).0 })
    write-Evolves p c =
        set_link c (write_packet max pooled observed p c.link).0
          (λ z. ap (λ l. l.closed) (write_packet-closed max pooled observed p c.link z) ∙ z)
          (λ n. write_packet-open max pooled observed p c.link n)

    -- The end of a write, with a way to close that evolves.
    pub settle-Evolves :
        (fail : Async Buffer Queue → Error → Async Buffer Queue × Error)
        → ((d : Async Buffer Queue) (e : Error) → Evolves observed d (fail d e).0)
        → (c : Async Buffer Queue) (l : Link) (o : Outcome)
        → Evolves observed c (record c { link = l })
        → Evolves observed c (settle fail c (l, o)).0
    unfolding settle
    settle-Evolves fail good c l queued x = x
    settle-Evolves fail good c l (refused e) x = x
    settle-Evolves fail good c l (broken e) x = Evolves-trans x (good (record c { link = l }) e)

    pub settle_write :
        (fail : Async Buffer Queue → Error → Async Buffer Queue × Error)
        → ((d : Async Buffer Queue) (e : Error) → Evolves observed d (fail d e).0)
        → (p : Packet Buffer) (c : Async Buffer Queue)
        → Evolves observed c (settle fail c (write_packet max pooled observed p c.link)).0
    settle_write fail good p c =
        let (l, o) = write_packet max pooled observed p c.link in
        settle-Evolves fail good c l o (write-Evolves p c)

    send_close-Evolves :
        (fail : Async Buffer Queue → Error → Async Buffer Queue × Error)
        → ((d : Async Buffer Queue) (e : Error) → Evolves observed d (fail d e).0)
        → (id : ℕ) (c : Async Buffer Queue)
        → Evolves observed c (send_close max pooled observed fail id c).0
    unfolding send_close
    send_close-Evolves fail good id c =
        Evolves-trans (take_packet-Evolves c) (settle_write fail good _ (take_packet c).1)

    pub close_send-Evolves :
        (fail : Async Buffer Queue → Error → Async Buffer Queue × Error)
        → ((d : Async Buffer Queue) (e : Error) → Evolves observed d (fail d e).0)
        → (lock : Bool) (s : ℕ) (c : Async Buffer Queue)
        → Evolves observed c (close_send max pooled observed fail lock s c).0
    unfolding close_send
    close_send-Evolves fail good lock s c =
        case-Evolves c (at s c.heap) (c, none) _ (λ n. Evolves-refl c)
          (λ t h.
            if-Evolves c t.closed (c, some stream_closed) _ (λ z. Evolves-refl c)
              (λ z.
                let d = record c { heap = modify s shut_stream c.heap } in
                let x = Evolves-trans (shut-Evolves s c) (send_close-Evolves fail good t.id d) in
                if-Evolves c lock _ _
                  (λ y.
                    Evolves-trans x
                      (delete-Evolves (send_close max pooled observed fail t.id d).0 t.id))
                  (λ y. x)))

    close_streams-Evolves :
        (table : List (ℕ × ℕ)) (c : Async Buffer Queue)
        → Evolves observed c (close_streams max pooled observed table c)
    unfolding close_streams
    close_streams-Evolves [] c = Evolves-refl c
    close_streams-Evolves ((id, s) ∷ rest) c =
        Evolves-trans (close_send-Evolves (λ d e. (d, e)) (λ d e. Evolves-refl d) false s c)
          (close_streams-Evolves rest _)

    pub close_once-Evolves :
        (c : Async Buffer Queue) → Evolves observed c (close_once max pooled observed c).0
    unfolding close_once
    close_once-Evolves c =
        if-Evolves c c.link.closed (c, some connection_closed) _ (λ z. Evolves-refl c)
          (λ z.
            let (incoming, stale) = qs.drain (qs.shut c.incoming) in
            let d = record c {
              link = record (c.link) { closed = true };
              incoming = incoming;
              stale = stale;
              channels_closed = true;
            } in
            let e = close_streams max pooled observed d.streams d in
            Evolves-trans (close-Evolves c stale) (
              Evolves-trans (close_streams-Evolves d.streams d) (
                set_link e (last_flush e.link) (λ y. last_flush-closed e.link ∙ y)
                  (λ n. last_flush-closed e.link))))

    pub close_conn-Evolves :
        (c : Async Buffer Queue) → Evolves observed c (close_conn max pooled observed c)
    close_conn-Evolves c = set_link c (close_conn max pooled observed c).link (λ z. z) (λ n. refl)

    pub close_with_error-Evolves :
        (c : Async Buffer Queue) (e : Error)
        → Evolves observed c (close_with_error max pooled observed c e).0
    unfolding close_with_error
    close_with_error-Evolves c e =
        let d = record c { error = some e } in
        let f = (close_once max pooled observed d).0 in
        let x = Evolves-trans (set_error c (some e)) (close_once-Evolves d) in
        case-Evolves c (close_once max pooled observed d).1 _ _
          (λ n. Evolves-trans x (close_conn-Evolves f))
          (λ a n. Evolves-trans x (set_error f (some (join a e))))
