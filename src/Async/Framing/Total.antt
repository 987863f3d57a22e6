-- ===== src/Async/Framing/Total.antt =====
-- The read loop of async.go never runs on without taking a byte, and never looks at bytes that an
-- earlier read left in the buffer, whatever its reads return.
use frisbee_go.Prelude.{
  ℕ, zero, suc, ◌+◌, ◌-◌, ◌≤◌, ◌<◌, not, ◌&&◌, List, [], length, take, drop, length-take,
  length-drop, ltb, ◌==◌, lt→ltb, arith,
}
use frisbee_go.Metadata.{size, packet_magic_header}
use frisbee_go.Metadata.Fields.{get_fields-some}
use frisbee_go.Packet.{BufferOps, Packet}
use frisbee_go.Async.Framing.{
  Attempt, Filled, filled, failed, blocked, fill, Step, next, stop, LoopEnd, Handlers, Reader, Turn,
  again, ends, after_fill, after_step, refill, finish_turn, grow_cap, deliver, short_content,
  long_content, read_content, read_body, read_frame, turn, run, read_loop,
}
use frisbee_go.Async.Framing.Ends.{Ended}
use frisbee_go.Async.Framing.Fill.{grow_cap-le, le-grow_cap}
use frisbee_go.Async.Framing.Reads.{readable, if-case, EndsWithin, fill-EndsWithin}

-- The index lies in the buffer, the buffer has room for a header, and there are at most `n` bytes
-- still to be handled.
record IsWithin (n : ℕ) (r : Reader) : Type 0 where
  index_held : r.index ≤ length r.held
  held_cap : length r.held ≤ r.cap
  size_cap : size ≤ r.cap
  few : length r.held - r.index + readable r.events ≤ n

-- A turn ends the loop, or goes on with a header in the buffer.
abbrev Goes : {St : Type 0} → ℕ → Turn St → Type 0
Goes n (again r st) = IsWithin n r × (r.index + size ≤ length r.held)
Goes n (ends x) = Ended x

refill-Goes :
    {St : Type 0} (n cap : ℕ) (acc : List ℕ) (events : List Attempt) (st : St)
    → length acc ≤ cap
    → size ≤ cap
    → length acc + readable events ≤ n
    → Goes n (refill cap acc events st)
unfolding refill
refill-Goes {St} n cap acc events st f s l =
    if-case (Goes n) (ltb cap (size - length acc)) _ _ (λ e. tt {0})
      (λ e. after (fill cap size acc events) (fill-EndsWithin cap size n acc events s f l))
  where
    after :
        (x : Filled)
        → EndsWithin cap size n x
        → Goes n (
            after_fill st x
              (λ bs later. again (record { cap = cap; held = bs; index = 0; events = later }) st))
    after (filled bs later) (enough, fits, few) = (
      record { index_held = omega arith; held_cap = fits; size_cap = s; few = omega (arith, few) },
      enough,
    )
    after (failed e) w = tt {0}
    after blocked w = tt {0}
    after Filled.spins w = w

finish_turn-Goes :
    {St : Type 0} (n : ℕ) (r : Reader) (st : St) → IsWithin n r → Goes n (finish_turn r st)
unfolding finish_turn
finish_turn-Goes n r st i =
    let left = length-drop r.index r.held in
    if-case (Goes n) (r.index == length r.held) _ _
      (λ e. refill-Goes n r.cap [] r.events st (omega arith) i.size_cap (omega (arith, i.few)))
      (λ e.
        if-case (Goes n) (ltb (length r.held - r.index) size) _ _
          (λ y.
            refill-Goes n r.cap (drop r.index r.held) r.events st (omega (arith, left, i.held_cap))
              i.size_cap (omega (arith, left, i.few)))
          (λ y. (i, ground (arith, i.index_held))))

module _ {St Found Buffer : Type 0} ⦃ops : BufferOps Buffer⦄ (h : Handlers St Found Buffer)
    (max : ℕ) (append_cap : ℕ → ℕ) (grows : (c : ℕ) → c < append_cap c) where
  after_step-Goes :
      (n : ℕ) (r : Reader) (s : Step St)
      → IsWithin n r
      → Goes n (after_step s (λ st. finish_turn r st))
  after_step-Goes n r (next st) i = finish_turn-Goes n r st i
  after_step-Goes n r (stop e st) i = tt {0}

  short_content-Goes :
      (n : ℕ) (r : Reader) (st : St) (found : Found) (p : Packet Buffer)
      → IsWithin n r
      → Goes n (short_content h max append_cap r st found p)
  unfolding short_content deliver
  short_content-Goes n r st found p i =
      let part = take p.metadata.content_length (drop r.index r.held) in
      let count = ops.count-write p.content part in
      let short = length-take p.metadata.content_length (drop r.index r.held) in
      let left = length-drop r.index r.held in
      after_step-Goes n (record r { index = r.index + (ops.write p.content part).1 }) _
        (record {
          index_held = omega (arith, count, short, left, i.index_held);
          held_cap = i.held_cap;
          size_cap = i.size_cap;
          few = omega (arith, i.few);
        })

  long_content-Goes :
      (n : ℕ) (r : Reader) (st : St) (found : Found) (p : Packet Buffer)
      → IsWithin n r
      → Goes n (long_content h max append_cap r st found p)
  unfolding long_content deliver
  long_content-Goes n r st found p i =
      let (content, count) = ops.write p.content (drop r.index r.held) in
      let min = p.metadata.content_length - count in
      let cap = grow_cap append_cap min r.cap min in
      after (fill cap min [] r.events) (
        fill-EndsWithin cap min n [] r.events
          (grow_cap-le append_cap min r.cap min grows (omega arith)) (omega arith)
          (omega (arith, i.few)))
    where
      after :
          (x : Filled)
          → (let (content, count) = ops.write p.content (drop r.index r.held) in
              let min = p.metadata.content_length - count in
              let cap = grow_cap append_cap min r.cap min in
              EndsWithin cap min n x
              → Goes n (
                  after_fill st x (λ bs later.
                    deliver h max append_cap
                      (record { cap = cap; held = bs; index = min; events = later })
                      st
                      found
                      (record p { content = (ops.write content (take min bs)).0 }))))
      after (filled bs later) (enough, fits, few) =
          let (content, count) = ops.write p.content (drop r.index r.held) in
          let min = p.metadata.content_length - count in
          after_step-Goes n _ _ (record {
            index_held = enough;
            held_cap = fits;
            size_cap = omega (arith, i.size_cap, le-grow_cap append_cap min r.cap min grows);
            few = omega (arith, few);
          })
      after (failed e) w = tt {0}
      after blocked w = tt {0}
      after Filled.spins w = w

  read_body-Goes :
      (n : ℕ) (r : Reader) (st : St) (p : Packet Buffer)
      → IsWithin n r
      → Goes n (read_body h max append_cap r st p)
  unfolding read_body read_content deliver
  read_body-Goes n r st p i =
      let found = h.look st p in
      if-case (Goes n) (not (p.metadata.magic == packet_magic_header)) _ _ (λ e. tt {0})
        λ e.
          if-case (Goes n) (ltb 0 max && ltb max p.metadata.content_length) _ _ (λ e. tt {0})
            λ e.
              if-case (Goes n) (h.is_control p.metadata.operation) _ _
                (λ y. after_step-Goes n r (h.control st p) i)
                λ y.
                  if-case (Goes n) (ltb 0 p.metadata.content_length) _ _
                    (λ z.
                      if-case (Goes n) (ltb (length r.held - r.index) p.metadata.content_length) _ _
                        (λ cut. long_content-Goes n r st found p i)
                        (λ whole. short_content-Goes n r st found p i))
                    (λ z. after_step-Goes n r (h.deliver st found p) i)

  -- A turn takes a header from what is to be handled.
  turn-Goes :
      (n : ℕ) (r : Reader) (st : St)
      → IsWithin (size + n) r
      → r.index + size ≤ length r.held
      → Goes n (turn h max append_cap r st)
  unfolding turn read_frame
  turn-Goes n r st i header =
      let (m, e, _) =
        get_fields-some (drop r.index r.held) []
          (omega (arith, length-drop r.index r.held, header)) in
      rw (lt→ltb r.index (length r.held) (omega (arith, header)), e, turn, read_frame)
        (read_body-Goes n (record r { index = r.index + size }) (h.get st).1
          (record ((h.get st).0) { metadata = m })
          (record {
            index_held = header;
            held_cap = i.held_cap;
            size_cap = i.size_cap;
            few = omega (arith, i.few, header);
          }))

  run-Ended :
      (fuel n : ℕ) (r : Reader) (st : St)
      → n < fuel
      → Goes n (again r st)
      → Ended (run h max append_cap fuel r st)
  unfolding run
  run-Ended zero n r st f g = absurd (omega arith)
  run-Ended (suc fuel) n r st f (i, header) =
      let more : size ≤ n = omega (arith, i.few, header) in
      after (λ r' st' g. run-Ended fuel (n - size) r' st' (omega (arith, more, f)) g)
        (turn h max append_cap r st)
        (turn-Goes (n - size) r st
          (record {
            index_held = i.index_held;
            held_cap = i.held_cap;
            size_cap = i.size_cap;
            few = omega (arith, i.few, more);
          })
          header)
    where
      after :
          ((r' : Reader) (st' : St)
            → Goes (n - size) (again r' st')
            → Ended (run h max append_cap fuel r' st'))
          → (t : Turn St) → Goes (n - size) t
          → Ended (elim t as (λ _. LoopEnd St) [
            | again r' st' ↦ run h max append_cap fuel r' st'
            | ends x ↦ x
          ])
      after go_on (again r' st') g = go_on r' st' g
      after go_on (ends x) e = e

  -- On a buffer with room for a header, which `append` makes larger, by any amount, whenever it is
  -- called, and whatever the reads return, bytes and errors in any order and together, the loop
  -- comes to wait for more bytes or ends in `closeWithError`: it never goes round without taking a
  -- byte, never reads into a full buffer, never looks at bytes behind those that it has read, and
  -- as many rounds as there are bytes that the reads can return, and two more, are enough.
  pub read_loop-Ended :
      (fuel cap : ℕ) (events : List Attempt) (st : St)
      → size ≤ cap
      → readable events < fuel
      → Ended (read_loop h max append_cap (suc fuel) cap events st)
  unfolding read_loop run turn
  read_loop-Ended fuel cap events st s f =
      after (refill cap [] events st)
        (refill-Goes (readable events) cap [] events st (omega arith) s (omega arith))
    where
      after :
          (t : Turn St)
          → Goes (readable events) t
          → Ended (elim t as (λ _. LoopEnd St) [
            | again r st' ↦ run h max append_cap fuel r st'
            | ends x ↦ x
          ])
      after (again r st') g = run-Ended fuel (readable events) r st' f g
      after (ends x) e = e
