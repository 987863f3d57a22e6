-- ===== src/Async/Framing/Contents.antt =====
-- How the read loop of async.go reads the content of a packet, from what it holds and what comes.
use frisbee_go.Prelude.{
  ℕ, ◌+◌, ◌-◌, ◌≤◌, ◌<◌, ◌≡◌, refl, sym, ap, ◌∙◌, inl, inr, [], ◌++◌, leb, ltb, length, take, drop,
  length-append, length-drop, length-take, drop-append, take-append, take-append_long,
  drop-append_long, drop-drop, Bool-cases, arith,
}
use frisbee_go.Packet.{BufferOps, Packet}
use frisbee_go.Async.Framing.{Handlers, Reader, grow_cap, short_content, long_content, read_content}
use frisbee_go.Async.Framing.Spec.{
  Ending, arriving, FrameHandlers, follow, frame_content, map_end, Implements,
}
use frisbee_go.Async.Framing.Fill.{fill_enough, fill_short, grow_cap-le, le-grow_cap}
use frisbee_go.Async.Framing.Refill.{pending, IsSound, finish-ended}
use frisbee_go.Async.Framing.Rounds.{
  resume, map_end-finish, frames, Agrees, deliver-frames, frame_content-whole, frame_content-cut,
}

module _ {St ASt Found Buffer : Type 0} ⦃ops : BufferOps Buffer⦄ (view : St → ASt)
    (h : Handlers St Found Buffer) (g : FrameHandlers ASt Found) (impl : Implements ops view h g)
    (max : ℕ) (append_cap : ℕ → ℕ) (grows : (c : ℕ) → c < append_cap c) (k : Ending) where
  short_content-frames :
      (fuel : ℕ)
      → Agrees view h g impl max append_cap grows k fuel
      → (r : Reader) (st : St) (p : Packet Buffer) → IsSound k r
      → ops.bytes p.content ≡ []
      → p.metadata.content_length ≤ length r.held - r.index
      → length (pending r) < fuel
      → map_end view (
          resume view h g impl max append_cap grows k fuel
            (short_content h max append_cap r st (h.look st p) p))
        ≡ frame_content g max k
            (λ st' rest. frames view h g impl max append_cap grows k fuel st' rest)
            (view st)
            p.metadata
            (pending r)
  unfolding short_content
  short_content-frames fuel ih r st p v z l f =
      let n = p.metadata.content_length in
      let here = drop r.index r.held in
      let part = take n here in
      let roomy : n ≤ length here = omega (arith, length-drop r.index r.held) in
      let count : (ops.write p.content part).1 ≡ n =
        ops.count-write p.content part ∙ length-take n here ∙ omega arith in
      let all = length-append here (arriving r.events) in
      deliver-frames view h g impl max append_cap grows k fuel ih
        (record r { index = r.index + (ops.write p.content part).1 }) st p _ (take n (pending r))
        (drop n (pending r))
        (record {
          index_held = omega (arith, count, v.index_held);
          held_cap = v.held_cap;
          size_cap = v.size_cap;
          still = v.still;
        })
        refl
        (ops.bytes-write p.content part
          ∙ ap (λ t. t ++ part) z
          ∙ sym (take-append n here (arriving r.events) roomy))
        (ap (λ c. drop (r.index + c) r.held ++ arriving r.events) count
          ∙ ap (λ t. t ++ arriving r.events) (sym (drop-drop n r.index r.held))
          ∙ sym (drop-append n here (arriving r.events) roomy))
        (omega (arith, length-drop n (pending r)))
      ∙ sym (
          frame_content-whole view h g impl max append_cap grows k fuel (view st) p.metadata
            (pending r) (omega (arith, all)))

  long_content-frames :
      (fuel : ℕ)
      → Agrees view h g impl max append_cap grows k fuel
      → (r : Reader) (st : St) (p : Packet Buffer) → IsSound k r
      → ops.bytes p.content ≡ []
      → length r.held - r.index < p.metadata.content_length
      → length (pending r) < fuel
      → map_end view (
          resume view h g impl max append_cap grows k fuel
            (long_content h max append_cap r st (h.look st p) p))
        ≡ frame_content g max k
            (λ st' rest. frames view h g impl max append_cap grows k fuel st' rest)
            (view st)
            p.metadata
            (pending r)
  unfolding long_content
  long_content-frames fuel ih r st p v z l f =
      let n = p.metadata.content_length in
      let here = drop r.index r.held in
      let coming = arriving r.events in
      let (content, count) = ops.write p.content here in
      let min = n - count in
      let cap = grow_cap append_cap min r.cap min in
      let counted : count ≡ length here = ops.count-write p.content here in
      let few : length here ≤ n = omega (arith, length-drop r.index r.held) in
      let all = length-append here coming in
      let roomy : min ≤ cap = grow_cap-le append_cap min r.cap min grows (omega arith) in
      let wide : r.cap ≤ cap = le-grow_cap append_cap min r.cap min grows in
      elim (Bool-cases (leb min (length coming))) [
        | inr short ↦
            rw (fill_short cap min [] r.events k v.still roomy (omega arith) (ground arith)) (
              ap (λ t. map_end view (resume view h g impl max append_cap grows k fuel t))
                (finish-ended k st _)
              ∙ map_end-finish view h g impl max append_cap grows k st
              ∙ sym (
                  frame_content-cut view h g impl max append_cap grows k fuel (view st) p.metadata
                    (pending r) (ground (arith, all, counted))))
        | inl enough ↦
            let (bs, later, e, w) =
              fill_enough cap min [] r.events k v.still roomy (omega arith) (ground arith) in
            rw e (
              deliver-frames view h g impl max append_cap grows k fuel ih
                (record { cap = cap; held = bs; index = min; events = later }) st p _
                (take n (pending r)) (drop n (pending r))
                (record {
                  index_held = w.enough;
                  held_cap = w.fits;
                  size_cap = omega (arith, v.size_cap);
                  still = w.still;
                })
                refl
                (ops.bytes-write content (take min bs)
                  ∙ ap (λ t. t ++ take min bs) (ops.bytes-write p.content here)
                  ∙ ap (λ t. (t ++ here) ++ take min bs) z
                  ∙ ap (λ t. here ++ t)
                      (sym (take-append min bs (arriving later) w.enough)
                        ∙ ap (take min) w.stream
                        ∙ ap (λ c. take (n - c) coming) counted)
                  ∙ sym (take-append_long n here coming few))
                (sym (drop-append min bs (arriving later) w.enough)
                  ∙ ap (drop min) w.stream
                  ∙ ap (λ c. drop (n - c) coming) counted
                  ∙ sym (drop-append_long n here coming few))
                (omega (arith, length-drop n (pending r)))
              ∙ sym (
                  frame_content-whole view h g impl max append_cap grows k fuel (view st) p.metadata
                    (pending r) (ground (arith, all, counted))))
      ]

  pub read_content-frames :
      (fuel : ℕ)
      → Agrees view h g impl max append_cap grows k fuel
      → (r : Reader) (st : St) (p : Packet Buffer) → IsSound k r
      → ops.bytes p.content ≡ []
      → length (pending r) < fuel
      → map_end view
          (resume view h g impl max append_cap grows k fuel (read_content h max append_cap r st p))
        ≡ frame_content g max k
            (λ st' rest. frames view h g impl max append_cap grows k fuel st' rest)
            (view st)
            p.metadata
            (pending r)
  unfolding read_content
  read_content-frames fuel ih r st p v z f =
      let n = p.metadata.content_length in
      elim (Bool-cases (ltb 0 n)) [
        | inr empty ↦
            let none_left : n ≡ 0 = ground arith in
            rw (empty, read_content)
              (deliver-frames view h g impl max append_cap grows k fuel ih r st p p [] (pending r) v
                  refl z refl f
                ∙ ap
                    (λ c.
                      follow
                        (g.deliver (view st) (g.look (view st) p.metadata) p.metadata
                          (take c (pending r)))
                        (λ st'.
                          frames view h g impl max append_cap grows k fuel st'
                            (drop c (pending r))))
                    (sym none_left)
                ∙ sym (
                    frame_content-whole view h g impl max append_cap grows k fuel (view st)
                      p.metadata (pending r) (omega arith)))
        | inl some_left ↦ elim (Bool-cases (ltb (length r.held - r.index) n)) [
          | inl cut ↦
              rw (some_left, cut, read_content)
                (long_content-frames fuel ih r st p v z (ground arith) f)
          | inr whole ↦
              rw (some_left, whole, read_content)
                (short_content-frames fuel ih r st p v z (ground arith) f)
        ]
      ]
