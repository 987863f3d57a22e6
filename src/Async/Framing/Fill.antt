-- ===== src/Async/Framing/Fill.antt =====
-- The loops around `Read` in the read loop of async.go, against the stream that arrives.
use frisbee_go.Prelude.{
  ℕ, zero, suc, ◌+◌, ◌-◌, ◌≤◌, ◌<◌, ◌≡◌, refl, sym, ap, ◌∙◌, inl, inr, List, [], ◌∷◌, ◌++◌, leb,
  length, take, drop, length-append, length-take, take-append-drop, Bool-cases, arith,
}
use mathlib.Core.List.{append_assoc, append-nil}
use frisbee_go.Async.Framing.{
  Attempt, deadline_fails, chunk, failure, Filled, filled, failed, blocked, fill, grow_cap,
}
use frisbee_go.Async.Framing.Spec.{Ending, stays_open, breaks, arriving, EndsBy}

-- What a loop around `Read` meets when too few bytes arrive.
abbrev pub ended : Ending → Filled
ended stays_open = blocked
ended (breaks e) = failed e

-- The loop is done with `bs` in the buffer and `later` to come.
pub record Fills (cap min : ℕ) (whole : List ℕ) (k : Ending) (bs : List ℕ) (later : List Attempt)
    : Type 0 where
  pub enough : min ≤ length bs
  pub fits : length bs ≤ cap
  pub stream : bs ++ arriving later ≡ whole
  pub still : EndsBy k later

-- Where enough bytes arrive, the loop ends with them, and takes nothing from the stream but what it
-- puts into the buffer.
pub fill_enough :
    (cap min : ℕ) (acc : List ℕ) (events : List Attempt) (k : Ending)
    → EndsBy k events
    → min ≤ cap
    → length acc ≤ cap
    → min ≤ length acc + length (arriving events)
    → (bs : List ℕ) × (later : List Attempt) × (fill cap min acc events ≡ filled bs later)
      × Fills cap min (acc ++ arriving events) k bs later
unfolding fill
fill_enough cap min acc [] k c m f e =
    (acc, [], ground arith, record { enough = omega arith; fits = f; stream = refl; still = c })
fill_enough cap min acc (deadline_fails x ∷ later) k c m f e = (
  acc,
  deadline_fails x ∷ later,
  ground arith,
  record { enough = omega arith; fits = f; stream = refl; still = c },
)
fill_enough cap min acc (failure bs x ∷ later) k (c, stop) m f e =
    elim (Bool-cases (leb min (length acc))) [
      | inl full ↦ (
        acc,
        failure bs x ∷ later,
        rw full,
        record { enough = ground arith; fits = f; stream = refl; still = (c, stop) },
      )
      | inr short ↦ elim stop [
        | inl none_left ↦ absurd (ground (arith, ap length none_left))
        | inr (silent, still) ↦ elim (Bool-cases (leb (length bs) (cap - length acc))) [
          | inl room ↦
              let joined = length-append acc bs in
              (
                acc ++ bs,
                later,
                ground (arith, joined),
                record {
                  enough = omega (arith, joined);
                  fits = ground (arith, joined);
                  stream = ap (λ t. (acc ++ bs) ++ t) silent ∙ append-nil (acc ++ bs);
                  still = still;
                },
              )
          | inr long ↦
              let n = cap - length acc in
              let size : length (acc ++ take n bs) ≡ cap =
                ground (arith, length-append acc (take n bs), length-take n bs) in
              (
                acc ++ take n bs,
                failure (drop n bs) x ∷ later,
                ground arith,
                record {
                  enough = omega arith;
                  fits = omega arith;
                  stream =
                      append_assoc acc (take n bs) (drop n bs)
                      ∙ ap (λ t. acc ++ t) (take-append-drop n bs);
                  still = (c, inr (silent, still));
                },
              )
        ]
      ]
    ]
fill_enough cap min acc (chunk bs ∷ later) k c m f e = elim (Bool-cases (leb min (length acc))) [
  | inl full ↦ (
    acc,
    chunk bs ∷ later,
    rw full,
    record { enough = ground arith; fits = f; stream = refl; still = c },
  )
  | inr short ↦ elim (Bool-cases (leb (length bs) (cap - length acc))) [
    | inl room ↦
        let joined = length-append acc bs in
        let (got, rest, r, v) =
          fill_enough cap min (acc ++ bs) later k c m (ground (arith, joined))
            (omega (arith, joined, length-append bs (arriving later))) in
        (
          got,
          rest,
          rw (short, room) r,
          record {
            enough = v.enough;
            fits = v.fits;
            stream = v.stream ∙ append_assoc acc bs (arriving later);
            still = v.still;
          },
        )
    | inr long ↦
        let n = cap - length acc in
        let size : length (acc ++ take n bs) ≡ cap =
          ground (arith, length-append acc (take n bs), length-take n bs) in
        (
          acc ++ take n bs,
          chunk (drop n bs) ∷ later,
          ground arith,
          record {
            enough = omega arith;
            fits = omega arith;
            stream =
                append_assoc acc (take n bs) (drop n bs ++ arriving later)
                ∙ ap (λ t. acc ++ t)
                    (sym (append_assoc (take n bs) (drop n bs) (arriving later))
                      ∙ ap (λ t. t ++ arriving later) (take-append-drop n bs));
            still = c;
          },
        )
  ]
]

-- Where too few bytes arrive, the loop ends as the stream does.
pub fill_short :
    (cap min : ℕ) (acc : List ℕ) (events : List Attempt) (k : Ending)
    → EndsBy k events
    → min ≤ cap
    → length acc ≤ cap
    → length acc + length (arriving events) < min
    → fill cap min acc events ≡ ended k
unfolding fill
fill_short cap min acc [] k c m f e = rw c (ground arith)
fill_short cap min acc (deadline_fails x ∷ later) k c m f e = rw c (ground arith)
fill_short cap min acc (failure bs x ∷ later) k (c, stop) m f e =
    rw c (ground (arith, length-append acc bs))
fill_short cap min acc (chunk bs ∷ later) k c m f e =
    let joined = length-append acc bs in
    let split = length-append bs (arriving later) in
    let rest =
      fill_short cap min (acc ++ bs) later k c m (omega (arith, joined, split))
        (omega (arith, joined, split)) in
    ground (arith, rest, split)

-- The growing ends with room enough: every `append` to a full slice gives more.
pub grow_cap-le :
    (append_cap : ℕ → ℕ) (fuel cap min : ℕ)
    → ((c : ℕ) → c < append_cap c)
    → min ≤ cap + fuel
    → min ≤ grow_cap append_cap fuel cap min
unfolding grow_cap
grow_cap-le append_cap zero cap min more h = omega arith
grow_cap-le append_cap (suc fuel) cap min more h =
    ground (arith, more cap, grow_cap-le append_cap fuel (append_cap cap) min more)

pub le-grow_cap :
    (append_cap : ℕ → ℕ) (fuel cap min : ℕ)
    → ((c : ℕ) → c < append_cap c)
    → cap ≤ grow_cap append_cap fuel cap min
unfolding grow_cap
le-grow_cap append_cap zero cap min more = omega arith
le-grow_cap append_cap (suc fuel) cap min more =
    ground (arith, more cap, le-grow_cap append_cap fuel (append_cap cap) min more)
