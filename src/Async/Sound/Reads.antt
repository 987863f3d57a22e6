-- ===== src/Async/Sound/Reads.antt =====
-- What `ReadPacket` of async.go and stream.go keeps of the state.
use frisbee_go.Prelude.{◌≡◌, refl, Bool, true, false, List, [], ◌∷◌, if◌then◌else◌, arith}
use frisbee_go.Errors.{connection_closed, stream_closed}
use frisbee_go.Packet.{BufferOps, Packet}
use frisbee_go.Queue.{QueueOps, Popped, pops, pop_waits, pop_fails}
use frisbee_go.Async.State.{Stream, Async}
use frisbee_go.Async.Close.{
  Received, waits, returns, fails, read, read_stale, read_stream, read_stale_stream,
}
use frisbee_go.Async.Sound.{IsSoundStream, Evolves, Evolves-refl}
use frisbee_go.Async.Sound.Parts.{pops_lem, pop_incoming-Evolves, pop_stale-Evolves}
use frisbee_go.Async.Sound.Calls.{state}

pub if-either :
    {A : Type 0} (P : A → Type 0) (b : Bool) (x y : A) → P x → P y → P (if b then x else y)
if-either P true x y f g = f
if-either P false x y f g = g

module _ {Buffer Queue : Type 0} ⦃ops : BufferOps Buffer⦄
    ⦃qs : QueueOps Queue (Packet Buffer)⦄ where
  read_stale-Evolves : {met : Bool} (c : Async Buffer Queue) → Evolves met c (state (read_stale c))
  unfolding read_stale
  read_stale-Evolves {met = met} c = stale c.stale refl
    where
      stale :
          (xs : List (Packet Buffer))
          → c.stale ≡ xs
          → Evolves met c (
              state (elim xs as (λ _. Received (Async Buffer Queue) (Packet Buffer)) [
                | [] ↦ fails c connection_closed
                | p ∷ rest ↦ returns (record c { stale = rest }) p
              ]))
      stale [] h = Evolves-refl c
      stale (p ∷ rest) h = pop_stale-Evolves c p rest h

  pub read-Evolves : {met : Bool} (c : Async Buffer Queue) → Evolves met c (state (read c c))
  unfolding read
  read-Evolves {met = met} c =
      if-either (λ x. Evolves met c (state x)) c.link.closed (read_stale c) _ (read_stale-Evolves c)
        (popped (qs.pop c.incoming) refl)
    where
      popped :
          (r : Popped Queue (Packet Buffer))
          → qs.pop c.incoming ≡ r
          → Evolves met c (
              state (elim r as (λ _. Received (Async Buffer Queue) (Packet Buffer)) [
                | pops rest p ↦ returns (record c { incoming = rest }) p
                | pop_waits ↦ waits c
                | pop_fails e ↦ if c.link.closed then read_stale c else fails c e
              ]))
      popped (pops rest p) h = pop_incoming-Evolves c rest p h
      popped pop_waits h = Evolves-refl c
      popped (pop_fails e) h =
          if-either (λ x. Evolves met c (state x)) c.link.closed (read_stale c) (fails c e)
            (read_stale-Evolves c) (Evolves-refl c)

  -- A stream that a change leaves sound, under its identifier, and closed if it was.
  abbrev pub Follows : Stream Buffer Queue → Stream Buffer Queue → Type 0
  Follows t u =
      (u.id ≡ t.id) × (t.closed ≡ true → u.closed ≡ true) × (IsSoundStream t → IsSoundStream u)

  read_stale_stream-Follows : (t : Stream Buffer Queue) → Follows t (state (read_stale_stream t))
  unfolding read_stale_stream
  read_stale_stream-Follows t = stale t.stale refl
    where
      stale :
          (xs : List (Packet Buffer))
          → t.stale ≡ xs
          → Follows t (
              state (elim xs as (λ _. Received (Stream Buffer Queue) (Packet Buffer)) [
                | [] ↦ fails t stream_closed
                | p ∷ rest ↦ returns (record t { stale = rest }) p
              ]))
      stale [] h = (refl, (λ z. z), (λ i. i))
      stale (p ∷ rest) h = (
        refl,
        (λ z. z),
        (λ i. record {
          while_open = λ o. absurd (ground (arith, (i.while_open o).0, h));
          when_closed = i.when_closed;
        }),
      )

  pub read_stream-Follows : (t : Stream Buffer Queue) → Follows t (state (read_stream t t))
  unfolding read_stream
  read_stream-Follows t =
      if-either (λ x. Follows t (state x)) t.closed (read_stale_stream t) _
        (read_stale_stream-Follows t) (popped (qs.pop t.queue) refl)
    where
      popped :
          (r : Popped Queue (Packet Buffer))
          → qs.pop t.queue ≡ r
          → Follows t (
              state (elim r as (λ _. Received (Stream Buffer Queue) (Packet Buffer)) [
                | pops rest p ↦ returns (record t { queue = rest }) p
                | pop_waits ↦ waits t
                | pop_fails e ↦ if t.closed then read_stale_stream t else fails t e
              ]))
      popped (pops rest p) h =
          let (was, is) = pops_lem t.queue rest p h in
          (
            refl,
            (λ z. z),
            (λ i. record {
              while_open = λ o. ((i.while_open o).0, is);
              when_closed = λ z. absurd (ground (arith, (i.when_closed z).0, was));
            }),
          )
      popped pop_waits h = (refl, (λ z. z), (λ i. i))
      popped (pop_fails e) h =
          if-either (λ x. Follows t (state x)) t.closed (read_stale_stream t) (fails t e)
            (read_stale_stream-Follows t) (refl, (λ z. z), (λ i. i))
