-- ===== src/Conn/Stream.antt =====
-- What arrives on a net.Conn, seen as one stream of bytes, however it is cut into reads.
use frisbee_go.Prelude.{
  ℕ, ◌+◌, ◌-◌, ◌≤◌, ◌≡◌, refl, sym, ap, ◌∙◌, List, [], ◌∷◌, ◌++◌, leb, length, take, drop,
  length-append, length-take, take-append-drop, Bool-cases, inl, inr, arith,
}
use mathlib.Core.List.{append_assoc}
use frisbee_go.Conn.{ReadEvent, chunk, failure, filled, read_at_least}

abbrev pub stream : List ReadEvent → List ℕ
stream [] = []
stream (chunk bs ∷ later) = bs ++ stream later
stream (failure bs e ∷ later) = bs ++ stream later

-- No read fails.
abbrev pub AllChunks : List ReadEvent → Type 0
AllChunks [] = Unit {0}
AllChunks (chunk bs ∷ later) = AllChunks later
AllChunks (failure bs e ∷ later) = ⊥

-- Where enough bytes arrive and no read fails, the loop takes exactly `min` of them.
pub read_at_least-filled :
    (min : ℕ) (acc : List ℕ) (events : List ReadEvent)
    → AllChunks events
    → length acc ≤ min
    → min ≤ length acc + length (stream events)
    → (bs : List ℕ) × (later : List ReadEvent) × (read_at_least min acc events ≡ filled bs later)
      × AllChunks later
      × (length bs ≡ min)
      × (bs ++ stream later ≡ acc ++ stream events)
unfolding read_at_least
read_at_least-filled min acc [] a l m = (acc, [], ground arith, tt, omega arith, refl)
read_at_least-filled min acc (failure bs e ∷ later) a l m = absurd a
read_at_least-filled min acc (chunk bs ∷ later) a l m = elim (Bool-cases (leb min (length acc))) [
  | inl full ↦ (acc, chunk bs ∷ later, rw full, a, ground arith, refl)
  | inr short ↦ elim (Bool-cases (leb (length bs) (min - length acc))) [
    | inl fits ↦
        let (got, rest, e, c, n, s) =
          read_at_least-filled min (acc ++ bs) later a (rw length-append (ground arith))
            (rw length-append (omega (arith, length-append bs (stream later)))) in
        (got, rest, rw (short, fits) e, c, n, s ∙ append_assoc acc bs (stream later))
    | inr long ↦
        let room = min - length acc in
        (
          acc ++ take room bs,
          chunk (drop room bs) ∷ later,
          rw (short, long),
          a,
          rw length-append (rw length-take (ground arith)),
          append_assoc acc (take room bs) (drop room bs ++ stream later)
              ∙ ap (λ t. acc ++ t)
                  (sym (append_assoc (take room bs) (drop room bs) (stream later))
                    ∙ ap (λ t. t ++ stream later) (take-append-drop room bs)),
        )
  ]
]
