-- ===== src/Async/Receive/Loop.antt =====
-- The goroutine of the read loop of async.go, from the first byte to the last.
use frisbee_go.Prelude.{
  ℕ, suc, ◌<◌, ◌≡◌, refl, sym, ◌∙◌, ap, ◌⊎◌, inl, inr, Bool, some, List, length, arith,
}
use frisbee_go.Errors.{Error}
use frisbee_go.Packet.{BufferOps, Packet}
use frisbee_go.Queue.{QueueOps}
use frisbee_go.Bufio.{buffer_size}
use frisbee_go.Async.Framing.{Attempt, LoopEnd, waiting, closes, spins, beyond, out_of_fuel}
use frisbee_go.Async.Framing.Spec.{Ending, arriving, EndsBy, all_frames, map_end}
use frisbee_go.Async.Framing.Refinement.{read_loop-frames}
use frisbee_go.Async.Framing.Ends.{Ended, frames-Ended}
use frisbee_go.Async.State.{Async}
use frisbee_go.Async.Close.{close_with_error}
use frisbee_go.Async.Receive.{handlers, receive}
use frisbee_go.Async.Receive.Inbox.{frame_handlers}
use frisbee_go.Async.Receive.View.{view, pong, handlers-Implements}

-- The loop waits, or it stops with an error.
Ended-cases :
    {A : Type 0} (x : LoopEnd A)
    → Ended x
    → ((a : A) × (x ≡ waiting a)) ⊎ ((e : Error) × (a : A) × (x ≡ closes e a))
Ended-cases (waiting a) h = inl (a, refl)
Ended-cases (closes e a) h = inr (e, a, refl)
Ended-cases spins h = absurd h
Ended-cases beyond h = absurd h
Ended-cases out_of_fuel h = absurd h

module _ {Buffer Queue : Type 0} ⦃ops : BufferOps Buffer⦄
    ⦃qs : QueueOps Queue (Packet Buffer)⦄ where
  -- Whatever bytes arrive, in whatever pieces, and however the stream ends, with an error that comes
  -- with the last bytes or after them, or not at all, the goroutine of `readLoop` either waits for more
  -- in the state that the frames of the stream lead to, by the description of the frames as queues of
  -- streams and of the connection; or it stops where that description stops, with the same error and in
  -- the same state, and then calls `closeWithError` with that error. Nothing else happens; as many
  -- rounds as there are bytes, and two more, are enough. The reader is taken to return no more bytes,
  -- and the same error, once it has returned one, and `append` to make a buffer larger.
  pub receive_lem :
      (max : ℕ) (pooled : List ℕ) (observed : Bool) (append_cap : ℕ → ℕ) (k : Ending) (fuel : ℕ)
      (events : List Attempt) (c : Async Buffer Queue)
      → ((n : ℕ) → n < append_cap n)
      → EndsBy k events
      → length (arriving events) < fuel
      → ((d : Async Buffer Queue) × (receive max pooled observed append_cap (suc fuel) events c
            ≡ some d)
          × (all_frames
                (frame_handlers qs.shut_error (pong ops max pooled observed))
                max
                k
                fuel
                (view c)
                (arriving events)
              ≡ waiting (view d)))
        ⊎ ((e : Error) × (d : Async Buffer Queue) × (receive max pooled observed append_cap
                (suc fuel)
                events
                c
              ≡ some (close_with_error max pooled observed d e).0)
            × (all_frames
                  (frame_handlers qs.shut_error (pong ops max pooled observed))
                  max
                  k
                  fuel
                  (view c)
                  (arriving events)
                ≡ closes e (view d)))
  unfolding receive
  receive_lem max pooled observed append_cap k fuel events c grows ends f =
      let impl = handlers-Implements {Queue = Queue} max pooled observed in
      let looped =
        read_loop-frames view (handlers max pooled observed) _ impl max append_cap grows k fuel
          buffer_size events c ends (omega arith) f in
      elim (Ended-cases _ (
        frames-Ended view (handlers max pooled observed) _ max append_cap k fuel buffer_size events
          c impl grows ends (omega arith) f)) [
            | inl (d, e) ↦ inl (d, rw (e, receive) refl, sym looped ∙ ap (map_end view) e)
            | inr (x, d, e) ↦ inr (x, d, rw (e, receive) refl, sym looped ∙ ap (map_end view) e)
          ]
