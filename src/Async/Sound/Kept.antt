-- ===== src/Async/Sound/Kept.antt =====
-- Every call of async.go and stream.go keeps the state sound.
use frisbee_go.Prelude.{
  ℕ, ◌≡◌, ◌∙◌, refl, Bool, true, false, not, ◌&&◌, if◌then◌else◌, Option, none, some, List, [], ◌∷◌,
  leb, ◌==◌, arith,
}
use frisbee_go.Errors.{
  stream_closed, invalid_operation, invalid_stream_packet, wraps_connection_closed,
}
use frisbee_go.Packet.{BufferOps, Packet}
use frisbee_go.Queue.{QueueOps}
use frisbee_go.Conn.{Conn}
use frisbee_go.Async.State.{Link, Async, find_stream, at}
use frisbee_go.Async.Start.{new_link, new_async}
use frisbee_go.Async.Write.{op_reserved9, flush}
use frisbee_go.Async.Close.{
  on_stream, close_with_error, close_once, close, flush_now, write, close_stream, write_stream,
  read_stream, read_stale_stream, open_stream, set_new_stream_handler, close_conn,
}
use frisbee_go.Async.Receive.{
  control, deliver, deliver_stream, push_incoming, end_stream, ensure_stream, push_stream,
}
use frisbee_go.Async.Sound.{
  IsSound, IsSteady, IsTight, tight-IsSound, Keeps, Evolves, Evolves-refl, Evolves-trans,
  Evolves-met,
}
use frisbee_go.Async.Stale.{close-closed}
use frisbee_go.Async.Flow.Invariant.{flush_open-closed}
use frisbee_go.Async.Sound.Parts.{same_streams, set_link}
use frisbee_go.Async.Sound.Streams.{modify-Evolves}
use frisbee_go.Async.Sound.Steps.{
  settle_write, if-Evolves, case-Evolves, close_send-Evolves, close_once-Evolves,
  close_conn-Evolves, close_with_error-Evolves,
}
use frisbee_go.Async.Sound.Calls.{
  Call, writes, flushes, reads, closes, fails_with, opens_stream, sets_handler, writes_stream,
  reads_stream, closes_stream, controls, delivers, state, perform, perform_all, meets, finish_close,
  run_all,
}
use frisbee_go.Async.Sound.Reads.{read-Evolves, read_stream-Follows}
use frisbee_go.Async.Sound.Deliver.{open_stream-Evolves, deliver-Evolves, control-Evolves}

flush-closed : (c : Link) → (flush c).0.closed ≡ c.closed
unfolding flush
flush-closed c = ground (arith, flush_open-closed c)

module _ {Buffer Queue : Type 0} ⦃ops : BufferOps Buffer⦄
    ⦃qs : QueueOps Queue (Packet Buffer)⦄ where
  module _ (max : ℕ) (pooled : List ℕ) where
    perform-Evolves :
        (k : Call Buffer) (c : Async Buffer Queue) → Evolves (meets k) c (perform max pooled k c)
    unfolding write flush_now flush close open_stream set_new_stream_handler write_stream
        close_stream read_stream read_stale_stream control deliver deliver_stream push_incoming
        end_stream ensure_stream push_stream
    perform-Evolves (writes observed p) c =
        if-Evolves c (leb p.metadata.operation op_reserved9) (c, some invalid_operation) _
          (λ z. Evolves-refl c)
          (λ z.
            settle_write max pooled observed (close_with_error max pooled observed)
              (close_with_error-Evolves max pooled observed) p c)
    perform-Evolves (flushes observed) c =
        let (l, err) = flush c.link in
        let d = record c { link = l } in
        let x : Evolves observed c d =
          set_link c l (λ z. flush-closed c.link ∙ z) (λ n. flush-closed c.link) in
        case-Evolves c err (d, none) _ (λ n. x)
          (λ e n. Evolves-trans x (close_with_error-Evolves max pooled observed d e))
    perform-Evolves reads c = read-Evolves c
    perform-Evolves (closes observed) c =
        let (d, err) = close_once max pooled observed c in
        let x = close_once-Evolves max pooled observed c in
        if-Evolves c (wraps_connection_closed err) (d, none) (close_conn max pooled observed d, err)
          (λ z. x) (λ z. Evolves-trans x (close_conn-Evolves max pooled observed d))
    perform-Evolves (fails_with observed e) c = close_with_error-Evolves max pooled observed c e
    perform-Evolves (opens_stream id) c = open_stream-Evolves id c
    perform-Evolves (sets_handler handler) c =
        same_streams c (record c { new_stream_handler = handler }) refl (λ id s h. h) (λ z. z)
          (λ n t. t) (λ i. (i.flag_first, i.while_open, i.when_closed))
    perform-Evolves (writes_stream observed s p) c =
        case-Evolves c (at s c.heap) (c, none) _ (λ n. Evolves-refl c)
          (λ t h.
            if-Evolves c t.closed (c, some stream_closed) _ (λ z. Evolves-refl c)
              (λ z.
                if-Evolves c (p.metadata.content_length == 0) (c, some invalid_stream_packet) _
                  (λ y. Evolves-refl c)
                  (λ y.
                    settle_write max pooled observed (close_with_error max pooled observed)
                      (close_with_error-Evolves max pooled observed) (on_stream t.id p) c)))
    perform-Evolves (reads_stream s) c =
        modify-Evolves c s (λ t. state (read_stream t t)) (λ t. (read_stream-Follows t).0)
          (λ t. (read_stream-Follows t).1) (λ t. (read_stream-Follows t).2)
    perform-Evolves (closes_stream observed s) c =
        close_send-Evolves max pooled observed (close_with_error max pooled observed)
          (close_with_error-Evolves max pooled observed) true s c
    perform-Evolves (controls observed p) c = control-Evolves max pooled observed c p
    perform-Evolves (delivers found p) c = deliver-Evolves c found p

    performs_all :
        (ks : List (Call Buffer)) (c : Async Buffer Queue)
        → Evolves true c (perform_all max pooled ks c)
    performs_all [] c = Evolves-refl c
    performs_all (k ∷ ks) c =
        Evolves-trans (Evolves-met (perform-Evolves k c)) (performs_all ks (perform max pooled k c))

    finish_close-Evolves :
        (met : Bool) (c d : Async Buffer Queue)
        → Evolves met c d
        → Evolves false c (finish_close max pooled met d)
    finish_close-Evolves false c d x = x
    finish_close-Evolves true c d x = by_test (d.link.closed && not d.channels_closed) refl
      where
        by_test :
            (b : Bool)
            → (d.link.closed && not d.channels_closed) ≡ b
            → Evolves false c (
                if b
                then (close max pooled false
                    (record d { link = record (d.link) { closed = false } })).0
                else d)
        by_test false h = record {
          keeps = x.keeps;
          steady = x.steady;
          tight = λ n t z. ground (arith, h, z);
        }
        by_test true h =
            let e = record d { link = record (d.link) { closed = false } } in
            let y = perform-Evolves (closes false) e in
            record {
              keeps = record {
                streams = λ s t at_t.
                    let (u, at_u, same, shut) = x.keeps.streams s t at_t in
                    let (v, at_v, same', shut') = y.keeps.streams s u at_u in
                    (v, at_v, same' ∙ same, λ z. shut' (shut z));
                connection = λ z. close-closed max pooled false e refl;
              };
              steady = λ i.
                  let j = x.steady i in
                  y.steady (record {
                    table = j.table;
                    sound_streams = j.sound_streams;
                    flag_first = λ o. absurd (ground (arith, h, o));
                    while_open = j.while_open;
                    when_closed = j.when_closed;
                  });
              tight = λ n t z. y.tight refl (λ o. absurd (ground (arith, o))) z;
            }

    runs_all :
        (ks : List (Call Buffer)) (c : Async Buffer Queue)
        → Evolves false c (run_all max pooled ks c)
    runs_all [] c = Evolves-refl c
    runs_all (k ∷ ks) c =
        Evolves-trans
          (finish_close-Evolves (meets k) c (perform max pooled k c) (perform-Evolves k c))
          (runs_all ks (finish_close max pooled (meets k) (perform max pooled k c)))

    new_async-IsSteady :
        (conn : Conn) (handlers : List (Option ℕ))
        → let start : Async Buffer Queue = new_async conn handlers in IsSteady start × IsTight start
    unfolding new_async find_stream at new_link
    new_async-IsSteady conn handlers = (
      record {
        table = λ id s h. absurd (ground (arith, h));
        sound_streams = λ s t h. absurd (ground (arith, h));
        flag_first = λ z. absurd (ground (arith, z));
        while_open = λ o. (refl, qs.is_shut-new_queue);
        when_closed = λ z. absurd (ground (arith, z));
      },
      λ z. absurd (ground (arith, z)),
    )

    -- After any calls of the program on a new connection, and any packets that its read loop has
    -- delivered between them, in any order and with any failures, where a `close` of another goroutine
    -- that a failing call meets comes to its end before anything else: the table of streams points to
    -- streams that exist and have the identifier under which they are found; an open stream has
    -- nothing left over and its queue takes packets, and the queue of a closed one is shut and empty;
    -- and likewise for the connection, by its flag `closed`, the channels of a closed one being closed.
    pub run_all-IsSound :
        (conn : Conn) (handlers : List (Option ℕ)) (ks : List (Call Buffer))
        → let start : Async Buffer Queue = new_async conn handlers in
          IsSound (run_all max pooled ks start)
    run_all-IsSound conn handlers ks =
        let start : Async Buffer Queue = new_async conn handlers in
        let (steady, tight) = new_async-IsSteady conn handlers in
        let x = runs_all ks start in
        tight-IsSound (run_all max pooled ks start) (x.steady steady) (x.tight refl tight)

    -- Whatever calls are made and packets delivered, a pointer to a stream stays valid, the stream
    -- keeps its identifier, and a stream or connection that is closed is never open again.
    pub perform_all-Keeps :
        (ks : List (Call Buffer)) (c : Async Buffer Queue) → Keeps c (perform_all max pooled ks c)
    perform_all-Keeps ks c = (performs_all ks c).keeps
