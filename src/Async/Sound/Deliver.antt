-- ===== src/Async/Sound/Deliver.antt =====
-- What the read loop of async.go and `NewStream` keep of the state.
use frisbee_go.Prelude.{
  ℕ, subst, sym, ◌≡◌, refl, ◌∙◌, Bool, Option, none, some, List, [], ◌∷◌, ◌++◌, length, ◌==◌,
}
use frisbee_go.Errors.{Error}
use frisbee_go.Packet.{BufferOps, Packet}
use frisbee_go.Queue.{QueueOps}
use frisbee_go.Async.State.{Link, Stream, Async, find_stream, insert_stream, modify, at}
use frisbee_go.Async.Framing.{Step, next}
use frisbee_go.Async.Write.{op_ping, Outcome, queued, refused, broken, write_packet}
use frisbee_go.Async.Close.{open_stream, new_stream, shut_stream}
use frisbee_go.Async.Receive.{
  Found, control, deliver, deliver_stream, push_incoming, end_stream, ensure_stream, push_stream,
  pushed, answered, pong_packet,
}
use frisbee_go.Async.Sound.{Evolves, Evolves-refl, Evolves-trans}
use frisbee_go.Async.Sound.Parts.{same_streams, push_incoming-Evolves, delete-Evolves}
use frisbee_go.Async.Sound.Streams.{modify-Evolves, append-Evolves}
use frisbee_go.Async.Sound.Steps.{write-Evolves, shut-Evolves}
use frisbee_go.Async.Sound.Calls.{state_after}
use frisbee_go.Async.Sound.Places.{modify-at}
use frisbee_go.Async.Sound.Reads.{if-either, Follows}

module _ {Buffer Queue : Type 0} ⦃ops : BufferOps Buffer⦄
    ⦃qs : QueueOps Queue (Packet Buffer)⦄ where
  pub open_stream-Evolves :
      {met : Bool} (id : ℕ) (c : Async Buffer Queue) → Evolves met c (open_stream id c).1
  unfolding open_stream
  open_stream-Evolves {met = met} id c = opened (find_stream id c.streams)
    where
      opened :
          (o : Option ℕ)
          → Evolves met c
              (elim o as (λ _. ℕ × Async Buffer Queue) [
                | some s ↦ (s, c)
                | none ↦ (
                  length c.heap,
                  record c {
                    heap = c.heap ++ new_stream id ∷ [];
                    streams = insert_stream id (length c.heap) c.streams;
                  },
                )
              ]).1
      opened none = append-Evolves c id
      opened (some s) = Evolves-refl c

  ensure_stream-Evolves :
      {met : Bool} (c : Async Buffer Queue) (f id : ℕ) (s : Option ℕ)
      → Evolves met c (ensure_stream c f id s).1
  unfolding ensure_stream
  ensure_stream-Evolves c f id (some s) = Evolves-refl c
  ensure_stream-Evolves c f id none =
      let d = record c {
        heap = c.heap ++ new_stream id ∷ [];
        streams = insert_stream id (length c.heap) c.streams;
      } in
      Evolves-trans (append-Evolves c id) (
        same_streams d (record d { started = c.started ++ (f, length c.heap) ∷ [] }) refl
          (λ j s h. h) (λ z. z) (λ n t. t) (λ i. (i.flag_first, i.while_open, i.when_closed)))

  end_stream-Evolves :
      {met : Bool} (c : Async Buffer Queue) (id : ℕ) (s : Option ℕ)
      → Evolves met c (end_stream c id s)
  unfolding end_stream
  end_stream-Evolves c id none = Evolves-refl c
  end_stream-Evolves c id (some s) =
      Evolves-trans (shut-Evolves s c)
        (delete-Evolves (record c { heap = modify s shut_stream c.heap }) id)

  push-Follows :
      (t : Stream Buffer Queue) (p : Packet Buffer)
      → Follows t (record t { queue = (qs.push t.queue p).0 })
  push-Follows t p = (
    refl,
    (λ z. z),
    (λ i. record {
      while_open = λ o. let (x, y) = i.while_open o in (x, (qs.push_open t.queue p y).2);
      when_closed = λ z.
          let (x, y) = i.when_closed z in
          let (err, same, shut) = qs.push_shut t.queue p x in (shut, same ∙ y);
    }),
  )

  pushed-state : (d : Async Buffer Queue) (err : Option Error) → state_after (pushed d err) ≡ d
  pushed-state d none = refl
  pushed-state d (some e) = refl

  push_stream-Evolves :
      {met : Bool} (c : Async Buffer Queue) (s : ℕ) (p : Packet Buffer)
      → Evolves met c (state_after (push_stream c s p))
  unfolding push_stream
  push_stream-Evolves {met = met} c s p = found (at s c.heap) refl
    where
      found :
          (o : Option (Stream Buffer Queue))
          → at s c.heap ≡ o
          → Evolves met c (
              state_after (elim o as (λ _. Step (Async Buffer Queue)) [
                | none ↦ next c
                | some stream ↦
                    let (queue, err) = qs.push stream.queue p in
                    pushed
                      (record c { heap = modify s (λ t. record t { queue = queue }) c.heap })
                      err
              ]))
      found none h = Evolves-refl c
      found (some stream) h =
          let (queue, err) = qs.push stream.queue p in
          let one : Stream Buffer Queue → Stream Buffer Queue = λ t. record t { queue = queue } in
          let every : Stream Buffer Queue → Stream Buffer Queue =
            λ t. record t { queue = (qs.push t.queue p).0 } in
          subst (Evolves met c) (sym (pushed-state (record c { heap = modify s one c.heap }) err)) (
            subst (λ heap. Evolves met c (record c { heap = heap }))
              (modify-at s every one c.heap stream h refl)
              (modify-Evolves c s every (λ t. (push-Follows t p).0) (λ t. (push-Follows t p).1)
                (λ t. (push-Follows t p).2)))

  deliver_stream-Evolves :
      {met : Bool} (c : Async Buffer Queue) (found : Found) (p : Packet Buffer)
      → Evolves met c (state_after (deliver_stream c found p))
  unfolding deliver_stream
  deliver_stream-Evolves {met = met} c found p =
      if-either (λ x. Evolves met c (state_after x)) (p.metadata.content_length == 0) _ _
        (end_stream-Evolves c p.metadata.id found.stream) (handled found.handler)
    where
      handled :
          (o : Option ℕ)
          → Evolves met c (
              state_after (elim o as (λ _. Step (Async Buffer Queue)) [
                | none ↦ next c
                | some f ↦
                    let (s, d) = ensure_stream c f p.metadata.id found.stream in push_stream d s p
              ]))
      handled none = Evolves-refl c
      handled (some f) =
          let (s, d) = ensure_stream c f p.metadata.id found.stream in
          Evolves-trans (ensure_stream-Evolves c f p.metadata.id found.stream)
            (push_stream-Evolves d s p)

  pub deliver-Evolves :
      {met : Bool} (c : Async Buffer Queue) (found : Found) (p : Packet Buffer)
      → Evolves met c (state_after (deliver c found p))
  unfolding deliver push_incoming
  deliver-Evolves {met = met} c found p =
      if-either (λ x. Evolves met c (state_after x)) found.is_stream _ _
        (deliver_stream-Evolves c found p) (incoming (qs.push c.incoming p).1)
    where
      incoming :
          (err : Option Error)
          → Evolves met c
              (state_after (pushed (record c { incoming = (qs.push c.incoming p).0 }) err))
      incoming none = push_incoming-Evolves c p
      incoming (some e) = push_incoming-Evolves c p

  answered-Evolves :
      {met : Bool} (c : Async Buffer Queue) (l : Link) (o : Outcome)
      → Evolves met c (record c { link = l })
      → Evolves met c (state_after (answered c (l, o)))
  answered-Evolves c l queued x = x
  answered-Evolves c l (refused e) x = x
  answered-Evolves c l (broken e) x = x

  pub control-Evolves :
      (max : ℕ) (pooled : List ℕ) (observed : Bool) (c : Async Buffer Queue) (p : Packet Buffer)
      → Evolves observed c (state_after (control max pooled observed c p))
  unfolding control
  control-Evolves max pooled observed c p =
      let pong : Packet Buffer = pong_packet in
      let (l, o) = write_packet max pooled observed pong c.link in
      if-either (λ x. Evolves observed c (state_after x)) (p.metadata.operation == op_ping) _
        (next c) (answered-Evolves c l o (write-Evolves max pooled observed pong c))
        (Evolves-refl c)
