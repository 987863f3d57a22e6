-- ===== src/Async/Framing/Reads.antt =====
-- A loop around Read of async.go's read loop, whatever its reads return: it comes to an end with the
-- bytes it wanted, in the buffer.
use frisbee_go.Prelude.{
  ℕ, ◌+◌, ◌-◌, ◌≤◌, ◌≡◌, refl, Bool, true, false, List, [], ◌∷◌, ◌++◌, length, take, drop,
  length-append, length-take, length-drop, leb, if◌then◌else◌, arith,
}
use frisbee_go.Async.Framing.{
  Attempt, deadline_fails, chunk, failure, Filled, filled, failed, blocked, fill,
}

-- The bytes that the reads can return; after a deadline that cannot be set there are none.
abbrev pub readable : List Attempt → ℕ
readable [] = 0
readable (deadline_fails e ∷ later) = 0
readable (chunk bs ∷ later) = length bs + readable later
readable (failure bs e ∷ later) = length bs + readable later

pub if-case :
    {A : Type 0} (P : A → Type 0) (b : Bool) (x y : A)
    → (b ≡ true → P x)
    → (b ≡ false → P y)
    → P (if b then x else y)
if-case P true x y f g = f refl
if-case P false x y f g = g refl

-- A loop around `Read` that comes to an end, with no more bytes than there were.
abbrev pub EndsWithin : ℕ → ℕ → ℕ → Filled → Type 0
EndsWithin cap min n (filled bs later) =
    (min ≤ length bs) × (length bs ≤ cap) × (length bs + readable later ≤ n)
EndsWithin cap min n (failed e) = Unit {0}
EndsWithin cap min n blocked = Unit {0}
EndsWithin cap min n Filled.spins = ⊥

-- A read that fills the buffer up.
cut-EndsWithin :
    (cap min n : ℕ) (acc bs : List ℕ) (rest : ℕ)
    → min ≤ cap
    → length acc ≤ cap
    → length acc + (length bs + rest) ≤ n
    → leb (length bs) (cap - length acc) ≡ false
    → (min ≤ length (acc ++ take (cap - length acc) bs))
      × (length (acc ++ take (cap - length acc) bs) ≤ cap)
      × (length (acc ++ take (cap - length acc) bs) + (length (drop (cap - length acc) bs) + rest)
          ≤ n)
cut-EndsWithin cap min n acc bs rest m f l long =
    let room = cap - length acc in
    let joined = length-append acc (take room bs) in
    let taken = length-take room bs in
    let dropped = length-drop room bs in
    let more : room ≤ length bs = ground arith in
    (
      omega (arith, joined, taken),
      omega (arith, joined, taken),
      omega (arith, joined, taken, dropped),
    )

pub fill-EndsWithin :
    (cap min n : ℕ) (acc : List ℕ) (events : List Attempt)
    → min ≤ cap
    → length acc ≤ cap
    → length acc + readable events ≤ n
    → EndsWithin cap min n (fill cap min acc events)
unfolding fill
fill-EndsWithin cap min n acc [] m f l =
    if-case (EndsWithin cap min n) (leb min (length acc)) _ _ (λ e. (ground arith, f, l))
      (λ e. tt {0})
fill-EndsWithin cap min n acc (deadline_fails x ∷ later) m f l =
    if-case (EndsWithin cap min n) (leb min (length acc)) _ _ (λ e. (ground arith, f, l))
      (λ e. tt {0})
fill-EndsWithin cap min n acc (chunk bs ∷ later) m f l =
    let room = cap - length acc in
    let joined = length-append acc bs in
    if-case (EndsWithin cap min n) (leb min (length acc)) _ _ (λ e. (ground arith, f, l))
      (λ e.
        if-case (EndsWithin cap min n) (leb (length bs) room) _ _
          (λ fits.
            fill-EndsWithin cap min n (acc ++ bs) later m (ground (arith, joined))
              (omega (arith, joined)))
          (λ long.
            if-case (EndsWithin cap min n) (leb min cap) _ _
              (λ y. cut-EndsWithin cap min n acc bs (readable later) m f l long)
              (λ no_room. ground arith)))
fill-EndsWithin cap min n acc (failure bs x ∷ later) m f l =
    let room = cap - length acc in
    let joined = length-append acc bs in
    if-case (EndsWithin cap min n) (leb min (length acc)) _ _ (λ e. (ground arith, f, l))
      (λ e.
        if-case (EndsWithin cap min n) (leb (length bs) room) _ _
          (λ fits.
            if-case (EndsWithin cap min n) (leb min (length (acc ++ bs))) _ _
              (λ y. (ground arith, ground (arith, joined), omega (arith, joined))) (λ y. tt {0}))
          (λ long.
            if-case (EndsWithin cap min n) (leb min cap) _ _
              (λ y. cut-EndsWithin cap min n acc bs (readable later) m f l long)
              (λ no_room. ground arith)))
