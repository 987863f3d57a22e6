-- ===== src/Sync/Session.antt =====
-- Many calls of `WritePacket` on one sync.go connection, and `ReadPacket` at the other end.
use frisbee_go.Prelude.{
  ℕ, ◌≡◌, ◌≢◌, refl, sym, ap, ◌∙◌, ◌⊎◌, inl, inr, Bool, true, Option, none, some, List, [], ◌∷◌,
  ◌++◌, length, drop, All, arith,
}
use mathlib.Core.List.{append_assoc, append-nil}
use frisbee_go.Packet.{BufferOps, Packet}
use frisbee_go.Sync.{Sync, write_packet, returns, read_packet}
use frisbee_go.Sync.Frame.{wire_metadata, frame, IsSendable, write_packet-Wrote}

is_some {ℓ} : {A : Type ℓ} (o : Option A) → o ≢ none → (a : A) × (o ≡ some a)
is_some none h = absurd (h refl)
is_some (some a) h = (a, refl)

module _ {Buffer : Type 0} ⦃ops : BufferOps Buffer⦄ where
  -- `WritePacket` on each packet in turn, with the packets for which it reported no error.
  unfoldable pub write_all : ℕ → Sync → List (Bool × Packet Buffer) → Sync × List (Packet Buffer)
  write_all max c [] = (c, [])
  write_all max c ((observed, p) ∷ ps) =
      let (d, err) = write_packet max observed c p in
      let (last, accepted) = write_all max d ps in
      (last, elim err [ none ↦ p ∷ accepted | some e ↦ accepted ])

  unfoldable pub frames : List (Packet Buffer) → List ℕ
  frames [] = []
  frames (p ∷ ps) = frame p ++ frames ps

  -- A closed connection takes nothing.
  write_all-closed :
      (max : ℕ) (c : Sync) (ps : List (Bool × Packet Buffer))
      → c.closed ≡ true
      → ((write_all max c ps).0 ≡ c) × ((write_all max c ps).1 ≡ [])
  unfolding write_all write_packet
  write_all-closed max c [] h = (refl, refl)
  write_all-closed max c ((observed, p) ∷ ps) h = ground (arith, write_all-closed max c ps h)

  abbrev pub Sent : ℕ → Sync → Sync × List (Packet Buffer) → Type 0
  Sent max c r =
      ((tail : List ℕ) × (r.0.conn.sent ≡ c.conn.sent ++ (frames r.1 ++ tail))
        × ((tail ≡ []) ⊎ (r.0.closed ≡ true)))
      × All (IsSendable max) r.1

  pub write_all-Sent :
      (max : ℕ) (c : Sync) (ps : List (Bool × Packet Buffer)) → Sent max c (write_all max c ps)
  unfolding write_all frames
  write_all-Sent max c [] = (([], sym (append-nil c.conn.sent), inl refl), tt)
  write_all-Sent max c ((observed, p) ∷ ps) =
      let r = write_packet max observed c p in
      let rest = write_all max r.0 ps in
      let ((tail, sent, over), good) = write_all-Sent max r.0 ps in
      elim (write_packet-Wrote max observed c p) [
        | inl (e, s, k, x, v, o) ↦
            rw (e, write_all)
              (
                (
                  tail,
                  sent
                      ∙ ap (λ t. t ++ (frames rest.1 ++ tail)) s
                      ∙ append_assoc c.conn.sent (frame p) (frames rest.1 ++ tail)
                      ∙ ap (λ t. c.conn.sent ++ t)
                          (sym (append_assoc (frame p) (frames rest.1) tail)),
                  over,
                ),
                (v, good),
              )
        | inr (inl (e, same)) ↦
            let (x, h) = is_some r.1 e in
            rw (h, write_all)
              ((tail, sent ∙ ap (λ d. d.conn.sent ++ (frames rest.1 ++ tail)) same, over), good)
        | inr (inr (e, shut, more)) ↦
            let (x, h) = is_some r.1 e in
            let (stays, nothing) = write_all-closed max r.0 ps shut in
            rw (h, write_all)
              (rw nothing (
                (
                  drop (length c.conn.sent) r.0.conn.sent,
                  ap (λ d. d.conn.sent) stays ∙ more,
                  inr (ap (λ d. d.closed) stays ∙ shut),
                ),
                tt,
              ))
      ]

  -- `ReadPacket` returns these packets, one after the other.
  pub data Reads (max : ℕ) : Sync → List (Packet Buffer) → Sync → Type 0 where
    done : (c : Sync) → Reads max c [] c
    more :
        {c d e : Sync} {p : Packet Buffer} {ps : List (Packet Buffer)} (observed : Bool)
        (recycled : Option (Packet Buffer))
        → read_packet max observed recycled c ≡ returns d p
        → Reads max d ps e
        → Reads max c (p ∷ ps) e

  -- The packets that arrive are those that were sent: the fields, with the code's own magic number,
  -- and the bytes of the content.
  abbrev pub Arrived : List (Packet Buffer) → List (Packet Buffer) → Type 0
  Arrived [] [] = Unit {0}
  Arrived [] (q ∷ qs) = ⊥
  Arrived (p ∷ ps) [] = ⊥
  Arrived (p ∷ ps) (q ∷ qs) =
      (q.metadata ≡ wire_metadata p) × (ops.bytes q.content ≡ ops.bytes p.content) × Arrived ps qs
