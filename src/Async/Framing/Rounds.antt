-- ===== src/Async/Framing/Rounds.antt =====
-- The rounds of the read loop of async.go, and the delivery of a packet, as the frames say.
use frisbee_go.Prelude.{
  ℕ, zero, suc, ◌≤◌, ◌<◌, ◌≡◌, refl, sym, ap, subst, ◌∙◌, inl, inr, List, length, take, drop,
  le→ltb_false, lt→ltb, arith,
}
use frisbee_go.Metadata.{Metadata, size}
use frisbee_go.Metadata.Fields.{get_fields-none}
use frisbee_go.Packet.{BufferOps, Packet}
use frisbee_go.Async.Framing.{
  Step, next, stop, LoopEnd, Handlers, Reader, Turn, again, ends, after_step, finish_turn, deliver,
  turn, run,
}
use frisbee_go.Async.Framing.Spec.{
  Ending, stays_open, breaks, finish, FrameHandlers, follow, frame_content, all_frames, map_step,
  map_end, Implements,
}
use frisbee_go.Async.Framing.Refill.{pending, IsSound, HasHeader, Ready, finish_turn-Ready}

module _ {St ASt Found Buffer : Type 0} ⦃ops : BufferOps Buffer⦄ (view : St → ASt)
    (h : Handlers St Found Buffer) (g : FrameHandlers ASt Found) (impl : Implements ops view h g)
    (max : ℕ) (append_cap : ℕ → ℕ) (grows : (c : ℕ) → c < append_cap c) (k : Ending) where
  -- The rest of the loop after a turn.
  abbrev pub resume : ℕ → Turn St → LoopEnd St
  resume fuel (again r st) = run h max append_cap fuel r st
  resume fuel (ends x) = x

  pub run-resume :
      (fuel : ℕ) (r : Reader) (st : St)
      → run h max append_cap (suc fuel) r st ≡ resume fuel (turn h max append_cap r st)
  unfolding run
  run-resume fuel r st = by_turn (turn h max append_cap r st)
    where
      by_turn :
          (t : Turn St)
          → elim t [ again r' st' ↦ run h max append_cap fuel r' st' | ends x ↦ x ] ≡ resume fuel t
      by_turn (again r' st') = refl
      by_turn (ends x) = refl

  pub map_end-finish : (st : St) → map_end view (finish k st) ≡ finish k (view st)
  map_end-finish st = by_ending k
    where
      by_ending : (e : Ending) → map_end view (finish e st) ≡ finish e (view st)
      by_ending stays_open = refl
      by_ending (breaks e) = refl

  abbrev pub frames : ℕ → ASt → List ℕ → LoopEnd ASt
  frames fuel st bs = all_frames g max k fuel st bs

  -- From a buffer with a header on, `fuel` rounds do what the frames say.
  abbrev pub Agrees : ℕ → Type 0
  Agrees fuel =
      (r : Reader) (st : St)
      → IsSound k r
      → HasHeader r
      → length (pending r) < fuel
      → map_end view (run h max append_cap fuel r st) ≡ frames fuel (view st) (pending r)

  pub frames_short :
      (fuel : ℕ) (st : ASt) (bs : List ℕ)
      → length bs < size
      → length bs < fuel
      → frames fuel st bs ≡ finish k st
  unfolding all_frames
  frames_short zero st bs s f = absurd (omega arith)
  frames_short (suc fuel) st bs s f = rw (get_fields-none bs s, all_frames)

  pub Ready-frames :
      (fuel : ℕ)
      → Agrees fuel
      → (whole : List ℕ) (st : St) (t : Turn St) → Ready k whole st t
      → length whole < fuel
      → map_end view (resume fuel t) ≡ frames fuel (view st) whole
  Ready-frames fuel ih whole st t (inl (r, e, v, hh, p)) f = rw e (
      ih r st v hh (subst (λ bs. length bs < fuel) (sym p) f)
      ∙ ap (λ bs. frames fuel (view st) bs) p)
  Ready-frames fuel ih whole st t (inr (s, e)) f =
      rw e (map_end-finish st ∙ sym (frames_short fuel (view st) whole s f))

  pub step-frames :
      (fuel : ℕ)
      → Agrees fuel
      → (r : Reader) (s : Step St) (s' : Step ASt) → IsSound k r
      → length (pending r) < fuel
      → map_step view s ≡ s'
      → map_end view (resume fuel (after_step s (λ st. finish_turn r st)))
        ≡ follow s' (λ st. frames fuel st (pending r))
  step-frames fuel ih r (next st) s' v f e =
      rw (← e) (Ready-frames fuel ih (pending r) st _ (finish_turn-Ready k r st v) f)
  step-frames fuel ih r (stop x st) s' v f e = rw (← e)

  -- A packet with its content is delivered, when the buffer stands behind it.
  pub deliver-frames :
      (fuel : ℕ)
      → Agrees fuel
      → (r : Reader) (st : St) (p q : Packet Buffer) (content rest : List ℕ) → IsSound k r
      → q.metadata ≡ p.metadata
      → ops.bytes q.content ≡ content
      → pending r ≡ rest
      → length rest < fuel
      → map_end view (resume fuel (deliver h max append_cap r st (h.look st p) q))
        ≡ follow
            (g.deliver (view st) (g.look (view st) p.metadata) p.metadata content)
            (λ st'. frames fuel st' rest)
  unfolding deliver
  deliver-frames fuel ih r st p q content rest v e c w f =
      step-frames fuel ih r (h.deliver st (h.look st p) q) _ v
        (subst (λ bs. length bs < fuel) (sym w) f)
        (impl.deliver_view st (h.look st p) q
          ∙ ap (λ x. g.deliver (view st) x q.metadata (ops.bytes q.content)) (impl.look_view st p)
          ∙ ap (λ m. g.deliver (view st) (g.look (view st) p.metadata) m (ops.bytes q.content)) e
          ∙ ap (λ bs. g.deliver (view st) (g.look (view st) p.metadata) p.metadata bs) c)
      ∙ ap
          (λ bs.
            follow (g.deliver (view st) (g.look (view st) p.metadata) p.metadata content)
              (λ st'. frames fuel st' bs))
          w

  -- The spec's reading of a content that is all there.
  pub frame_content-whole :
      (fuel : ℕ) (st : ASt) (m : Metadata) (bs : List ℕ)
      → m.content_length ≤ length bs
      → frame_content g max k (λ st' rest. frames fuel st' rest) st m bs
        ≡ follow
            (g.deliver st (g.look st m) m (take m.content_length bs))
            (λ st'. frames fuel st' (drop m.content_length bs))
  unfolding frame_content
  frame_content-whole fuel st m bs l =
      rw (le→ltb_false (length bs) m.content_length l, frame_content)

  pub frame_content-cut :
      (fuel : ℕ) (st : ASt) (m : Metadata) (bs : List ℕ)
      → length bs < m.content_length
      → frame_content g max k (λ st' rest. frames fuel st' rest) st m bs ≡ finish k st
  unfolding frame_content
  frame_content-cut fuel st m bs l = rw (lt→ltb (length bs) m.content_length l, frame_content)
