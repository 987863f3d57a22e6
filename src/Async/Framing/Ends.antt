-- ===== src/Async/Framing/Ends.antt =====
-- The frames of a stream lead the read loop of async.go to wait or to close the connection.
use frisbee_go.Prelude.{
  ℕ, zero, suc, ◌≤◌, ◌<◌, sym, subst, inl, inr, List, length, drop, length-drop, Option-cases,
  Bool-cases, Bool, true, false, not, ◌&&◌, ◌==◌, ltb, ltb→lt, take, if◌then◌else◌, arith,
}
use frisbee_go.Metadata.{Metadata, size, packet_magic_header, get_fields}
use frisbee_go.Metadata.Fields.{get_fields-none}
use frisbee_go.Packet.{BufferOps}
use frisbee_go.Async.Framing.{
  Attempt, Step, next, stop, LoopEnd, waiting, closes, spins, beyond, out_of_fuel, Handlers,
  read_loop,
}
use frisbee_go.Async.Framing.Spec.{
  Ending, stays_open, breaks, arriving, EndsBy, finish, FrameHandlers, follow, frame_content,
  one_frame, all_frames, map_end, Implements,
}
use frisbee_go.Async.Framing.Refinement.{read_loop-frames}

-- The loop waits for more, or it has closed the connection.
abbrev pub Ended : {St : Type 0} → LoopEnd St → Type 0
Ended (waiting st) = Unit {0}
Ended (closes e st) = Unit {0}
Ended spins = ⊥
Ended beyond = ⊥
Ended out_of_fuel = ⊥

Ended-if :
    {St : Type 0} (b : Bool) (x y : LoopEnd St) → Ended x → Ended y → Ended (if b then x else y)
Ended-if true x y p q = p
Ended-if false x y p q = q

module _ {St Found : Type 0} (h : FrameHandlers St Found) (max : ℕ) (k : Ending) where
  finish-Ended : (e : Ending) (st : St) → Ended (finish e st)
  finish-Ended stays_open st = tt {0}
  finish-Ended (breaks e) st = tt {0}

  follow-Ended :
      (s : Step St) (go_on : St → LoopEnd St)
      → ((st : St) → Ended (go_on st))
      → Ended (follow s go_on)
  follow-Ended (next st) go_on c = c st
  follow-Ended (stop e st) go_on c = tt {0}

  one_frame-Ended :
      (rest : St → List ℕ → LoopEnd St) (st : St) (m : Metadata) (bs : List ℕ)
      → ((st' : St) (bs' : List ℕ) → length bs' ≤ length bs → Ended (rest st' bs'))
      → Ended (one_frame h max k rest st m bs)
  unfolding one_frame frame_content
  one_frame-Ended rest st m bs c = Ended-if (not (m.magic == packet_magic_header)) _ _ (tt {0}) (
      Ended-if (ltb 0 max && ltb max m.content_length) _ _ (tt {0}) (
        Ended-if (h.is_control m.operation) _ _
          (follow-Ended (h.control st m) _ (λ st'. c st' bs (omega arith)))
          (Ended-if (ltb (length bs) m.content_length) _ _ (finish-Ended k st) (
            follow-Ended (h.deliver st (h.look st m) m (take m.content_length bs)) _ (λ st'.
              c st' (drop m.content_length bs) (omega (arith, length-drop m.content_length bs)))))))

  all_frames-Ended :
      (fuel : ℕ) (st : St) (bs : List ℕ) → length bs < fuel → Ended (all_frames h max k fuel st bs)
  unfolding all_frames
  all_frames-Ended zero st bs f = absurd (omega arith)
  all_frames-Ended (suc fuel) st bs f = elim (Bool-cases (ltb (length bs) size)) [
    | inl short ↦
        rw (get_fields-none bs (ltb→lt (length bs) size short), all_frames) (finish-Ended k st)
    | inr long ↦ elim (Option-cases (get_fields bs)) [
      | inl e ↦ rw (e, all_frames) (finish-Ended k st)
      | inr (m, e) ↦
          rw (e, all_frames)
            (one_frame-Ended _ st m (drop size bs)
              λ st' bs' l. all_frames-Ended fuel st' bs' (ground (arith, length-drop size bs)))
    ]
  ]

pub frames-Ended :
    {St ASt Found Buffer : Type 0} ⦃ops : BufferOps Buffer⦄ (view : St → ASt)
    (h : Handlers St Found Buffer) (g : FrameHandlers ASt Found) (max : ℕ) (append_cap : ℕ → ℕ)
    (k : Ending) (fuel cap : ℕ) (events : List Attempt) (st : St)
    → Implements ops view h g
    → ((c : ℕ) → c < append_cap c)
    → EndsBy k events
    → size ≤ cap
    → length (arriving events) < fuel
    → Ended (read_loop h max append_cap (suc fuel) cap events st)
frames-Ended {St} view h g max append_cap k fuel cap events st impl grows c s f = from_view _ (
    subst Ended
      (sym (read_loop-frames view h g impl max append_cap grows k fuel cap events st c s f))
      (all_frames-Ended g max k fuel (view st) (arriving events) f))
  where
    from_view : (x : LoopEnd St) → Ended (map_end view x) → Ended x
    from_view (waiting a) e = e
    from_view (closes x a) e = e
    from_view spins e = e
    from_view beyond e = e
    from_view out_of_fuel e = e
