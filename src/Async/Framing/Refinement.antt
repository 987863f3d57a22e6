-- ===== src/Async/Framing/Refinement.antt =====
-- The read loop of async.go does with its reads what the frames of the stream say.
use frisbee_go.Prelude.{
  ℕ, zero, suc, ◌+◌, ◌≤◌, ◌<◌, ◌≡◌, sym, ap, subst, ◌∙◌, List, [], ◌++◌, length, drop,
  length-append, length-drop, drop-append, drop-drop, lt→ltb, arith,
}
use frisbee_go.Metadata.{size}
use frisbee_go.Metadata.Fields.{get_fields-some}
use frisbee_go.Packet.{BufferOps, Packet}
use frisbee_go.Async.Framing.{Attempt, Handlers, Reader, read_body, read_frame, turn, read_loop}
use frisbee_go.Async.Framing.Spec.{
  Ending, arriving, EndsBy, FrameHandlers, one_frame, all_frames, map_end, Implements,
}
use frisbee_go.Async.Framing.Refill.{pending, IsSound, HasHeader, refill-Ready}
use frisbee_go.Async.Framing.Rounds.{resume, run-resume, frames, Agrees, Ready-frames, step-frames}
use frisbee_go.Async.Framing.Contents.{read_content-frames}

module _ {St ASt Found Buffer : Type 0} ⦃ops : BufferOps Buffer⦄ (view : St → ASt)
    (h : Handlers St Found Buffer) (g : FrameHandlers ASt Found) (impl : Implements ops view h g)
    (max : ℕ) (append_cap : ℕ → ℕ) (grows : (c : ℕ) → c < append_cap c) (k : Ending) where
  read_body-frames :
      (fuel : ℕ)
      → Agrees view h g impl max append_cap grows k fuel
      → (r : Reader) (st : St) (p : Packet Buffer) → IsSound k r
      → ops.bytes p.content ≡ []
      → length (pending r) < fuel
      → map_end view
          (resume view h g impl max append_cap grows k fuel (read_body h max append_cap r st p))
        ≡ one_frame g max k
            (λ st' rest. frames view h g impl max append_cap grows k fuel st' rest)
            (view st)
            p.metadata
            (pending r)
  unfolding read_body one_frame
  read_body-frames fuel ih r st p v z f = ground (
    arith,
    read_content-frames view h g impl max append_cap grows k fuel ih r st p v z f,
    impl.same_control p.metadata.operation,
    step-frames view h g impl max append_cap grows k fuel ih r (h.control st p) _ v f
        (impl.control_view st p),
  )

  read_frame-frames :
      (fuel : ℕ)
      → Agrees view h g impl max append_cap grows k fuel
      → (r : Reader) (st : St) → IsSound k r
      → HasHeader r
      → length (pending r) < suc fuel
      → map_end view
          (resume view h g impl max append_cap grows k fuel (read_frame h max append_cap r st))
        ≡ frames view h g impl max append_cap grows k (suc fuel) (view st) (pending r)
  unfolding read_frame all_frames
  read_frame-frames fuel ih r st v hh f =
      let here = drop r.index r.held in
      let (m, e, e') =
        get_fields-some here (arriving r.events) (omega (arith, length-drop r.index r.held)) in
      let st₁ = (h.get st).1 in
      let r₁ = record r { index = r.index + size } in
      let p = record ((h.get st).0) { metadata = m } in
      let behind : pending r₁ ≡ drop size (pending r) =
        ap (λ t. t ++ arriving r.events) (sym (drop-drop size r.index r.held))
        ∙ sym (
            drop-append size here (arriving r.events)
              (omega (arith, length-drop r.index r.held))) in
      rw (e, read_frame)
        (rw (e', all_frames)
          (read_body-frames fuel ih r₁ st₁ p
              (record {
                index_held = hh;
                held_cap = v.held_cap;
                size_cap = v.size_cap;
                still = v.still;
              })
              (impl.get_clean st)
              (subst (λ bs. length bs < fuel) (sym behind)
                (omega (
                  arith,
                  length-drop size (pending r),
                  f,
                  hh,
                  length-append here (arriving r.events),
                  length-drop r.index r.held,
                )))
            ∙ ap
                (λ bs.
                  one_frame g max k
                    (λ st' rest. frames view h g impl max append_cap grows k fuel st' rest)
                    (view st₁) m bs)
                behind
            ∙ ap
                (λ a.
                  one_frame g max k
                    (λ st' rest. frames view h g impl max append_cap grows k fuel st' rest) a m
                    (drop size (pending r)))
                (impl.get_view st)))

  turn-frames :
      (fuel : ℕ)
      → Agrees view h g impl max append_cap grows k fuel
      → (r : Reader) (st : St) → IsSound k r
      → HasHeader r
      → length (pending r) < suc fuel
      → map_end view (resume view h g impl max append_cap grows k fuel (turn h max append_cap r st))
        ≡ frames view h g impl max append_cap grows k (suc fuel) (view st) (pending r)
  unfolding turn
  turn-frames fuel ih r st v hh f =
      rw (lt→ltb r.index (length r.held) (omega arith), turn)
        (read_frame-frames fuel ih r st v hh f)

  all-Agrees : (fuel : ℕ) → Agrees view h g impl max append_cap grows k fuel
  all-Agrees zero r st v hh f = absurd (omega arith)
  all-Agrees (suc fuel) r st v hh f =
      ap (map_end view) (run-resume view h g impl max append_cap grows k fuel r st)
      ∙ turn-frames fuel (all-Agrees fuel) r st v hh f

  -- `readLoop`, on a buffer with room for a header, whatever pieces the bytes arrive in, by
  -- whatever amount `append` makes the buffer larger, and whether the error of the connection, if
  -- there is one, comes with the last bytes or after them, does what the frames of the stream of
  -- bytes say, and then waits or ends with that error: as many rounds as there are bytes, and two
  -- more, are enough. The reader is taken to return no more bytes, and the same error, once it has
  -- returned one.
  pub read_loop-frames :
      (fuel cap : ℕ) (events : List Attempt) (st : St)
      → EndsBy k events
      → size ≤ cap
      → length (arriving events) < fuel
      → map_end view (read_loop h max append_cap (suc fuel) cap events st)
        ≡ all_frames g max k fuel (view st) (arriving events)
  unfolding read_loop turn
  read_loop-frames fuel cap events st c s f =
      ap (map_end view) (
        run-resume view h g impl max append_cap grows k fuel
          (record { cap = cap; held = []; index = 0; events = events }) st)
      ∙ Ready-frames view h g impl max append_cap grows k fuel (all-Agrees fuel) (arriving events)
          st _ (refill-Ready k cap [] events st c (omega arith) s) f
