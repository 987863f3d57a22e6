-- ===== src/Async/Framing/Refill.antt =====
-- Between two packets the read loop of async.go makes sure that its buffer holds a header.
use frisbee_go.Prelude.{
  ℕ, ◌+◌, ◌-◌, ◌≤◌, ◌<◌, ◌≡◌, refl, ◌⊎◌, inl, inr, false, List, [], ◌++◌, leb, ltb, length, drop,
  length-append, length-drop, drop_all, Bool-cases, arith, ◌==◌,
}
use frisbee_go.Metadata.{size}
use frisbee_go.Async.Framing.{Attempt, Reader, Turn, again, ends, after_fill, refill, finish_turn}
use frisbee_go.Async.Framing.Spec.{Ending, stays_open, breaks, arriving, EndsBy, finish}
use frisbee_go.Async.Framing.Fill.{ended, fill_enough, fill_short}

-- The bytes that are still to be handled.
abbrev pub pending : Reader → List ℕ
pending r = drop r.index r.held ++ arriving r.events

-- The index lies in the buffer, and the buffer has room for a header.
pub record IsSound (k : Ending) (r : Reader) : Type 0 where
  pub index_held : r.index ≤ length r.held
  pub held_cap : length r.held ≤ r.cap
  pub size_cap : size ≤ r.cap
  pub still : EndsBy k r.events

-- The buffer holds the header of the next packet.
abbrev pub HasHeader : Reader → Type 0
HasHeader r = r.index + size ≤ length r.held

-- What a turn of the loop comes to, when the bytes `whole` are to be handled next.
abbrev pub Ready : {St : Type 0} → Ending → List ℕ → St → Turn St → Type 0
Ready k whole st t =
    ((r : Reader) × (t ≡ again r st) × IsSound k r × HasHeader r × (pending r ≡ whole))
    ⊎ ((length whole < size) × (t ≡ ends (finish k st)))

pub finish-ended :
    {St : Type 0} (k : Ending) (st : St) (go_on : List ℕ → List Attempt → Turn St)
    → after_fill st (ended k) go_on ≡ ends (finish k st)
finish-ended stays_open st go_on = refl
finish-ended (breaks e) st go_on = refl

pub refill-Ready :
    {St : Type 0} (k : Ending) (cap : ℕ) (acc : List ℕ) (events : List Attempt) (st : St)
    → EndsBy k events
    → length acc ≤ cap
    → size ≤ cap
    → Ready k (acc ++ arriving events) st (refill cap acc events st)
unfolding refill
refill-Ready k cap acc events st c f s =
    let roomy : ltb cap (size - length acc) ≡ false = ground arith in
    let joined = length-append acc (arriving events) in
    elim (Bool-cases (leb size (length acc + length (arriving events)))) [
      | inl e ↦
          let (bs, later, r, v) = fill_enough cap size acc events k c s f (ground arith) in
          inl (
            record { cap = cap; held = bs; index = 0; events = later },
            rw (roomy, r),
            record { index_held = omega arith; held_cap = v.fits; size_cap = s; still = v.still },
            omega (arith, v.enough),
            v.stream,
          )
      | inr e ↦ inr (
        ground (arith, joined),
        rw (roomy, fill_short cap size acc events k c s f (ground arith)) (finish-ended k st _),
      )
    ]

pub finish_turn-Ready :
    {St : Type 0} (k : Ending) (r : Reader) (st : St)
    → IsSound k r
    → Ready k (pending r) st (finish_turn r st)
unfolding finish_turn
finish_turn-Ready k r st v = elim (Bool-cases (r.index == length r.held)) [
  | inl used ↦
      rw (used, finish_turn)
        (rw (drop_all r.index r.held (ground arith))
          (refill-Ready k r.cap [] r.events st v.still (omega arith) v.size_cap))
  | inr some_left ↦ elim (Bool-cases (ltb (length r.held - r.index) size)) [
    | inl few ↦
        rw (some_left, few, finish_turn)
          (refill-Ready k r.cap (drop r.index r.held) r.events st v.still
            (omega (arith, length-drop r.index r.held, v.held_cap)) v.size_cap)
    | inr many ↦ inl (r, rw (some_left, many, finish_turn), v, ground arith, refl)
  ]
]
