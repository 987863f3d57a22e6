-- ===== src/Server/Ownership.antt =====
-- What the handling loop of server.go does with the pool of packets.
use frisbee_go.Prelude.{
  ℕ, ◌≡◌, refl, ap, sym, ◌∙◌, ◌⊎◌, inl, inr, Bool, true, false, not, ◌&&◌, Option, none, some, List,
  [], ◌∷◌, ◌++◌, Option-cases, Bool-cases, ◌==◌, if◌then◌else◌, arith,
}
use mathlib.Core.List.{append-nil}
use frisbee_go.Errors.{Error}
use frisbee_go.Packet.{BufferOps}
use frisbee_go.Server.{
  Action, action_none, action_close, Pointer, Handler, Effect, took, handled, pre_write, wrote, put,
  conn_closed, on_closed, Arrival, arrives, read_fails, find_handler, answer, put_both, act,
  respond, handle_packet, handle_single,
}

-- The addresses that are held.
abbrev pub holds : ℕ → List ℕ → Bool
holds a [] = false
holds a (b ∷ bs) = if a == b then true else holds a bs

abbrev pub release : ℕ → List ℕ → List ℕ
release a [] = []
release a (b ∷ bs) = if a == b then bs else b ∷ release a bs

module _ {Buffer : Type 0} where
  -- From what is held, each packet that is used is held, each that is put back is held until then
  -- and no longer, and at the end nothing is held.
  abbrev pub owns : List ℕ → List (Effect Buffer) → Bool
  owns [] [] = true
  owns (a ∷ held) [] = false
  owns held (took p ∷ es) = not (holds p.address held) && owns (p.address ∷ held) es
  owns held (handled p none ∷ es) = holds p.address held && owns held es
  owns held (handled p (some o) ∷ es) =
      holds p.address held && owns (if holds o.address held then held else o.address ∷ held) es
  owns held (pre_write ∷ es) = owns held es
  owns held (wrote o ∷ es) = holds o.address held && owns held es
  owns held (put a ∷ es) = holds a held && owns (release a held) es
  owns held (conn_closed ∷ es) = owns held es
  owns held (on_closed e ∷ es) = owns held es

module _ {Buffer : Type 0} ⦃ops : BufferOps Buffer⦄ where
  -- A handler answers with nothing, with the packet itself, or with a packet whose length is right.
  abbrev pub IsTidy : List (ℕ × Handler Buffer) → Type 0
  IsTidy table =
      (op : ℕ) (h : Handler Buffer)
      → find_handler op table ≡ some h
      → (p o : Pointer Buffer) → (h p).0 ≡ some o
      → (o.address ≡ p.address) ⊎ (answer (some o) ≡ some o)

  act-owns :
      (action : Action) (rest : List (Effect Buffer))
      → owns [] ((act action).0 ++ rest) ≡ owns [] rest
  unfolding act
  act-owns action_none rest = refl
  act-owns action_close rest = refl

  respond-owns :
      (p o : Pointer Buffer) (write : Option Error) (action : Action) (rest : List (Effect Buffer))
      → owns (p.address ∷ []) (handled p (some o) ∷ (respond p o write action).0 ++ rest)
        ≡ owns [] rest
  unfolding respond put_both act
  respond-owns p o write action rest = ground arith

  unanswered-owns :
      (p : Pointer Buffer) (outgoing : Option (Pointer Buffer)) (action : Action)
      (rest : List (Effect Buffer))
      → (outgoing ≡ none) ⊎ ((o : Pointer Buffer) × (outgoing ≡ some o) × (o.address ≡ p.address))
      → owns (p.address ∷ []) (handled p outgoing ∷ put p.address ∷ (act action).0 ++ rest)
        ≡ owns [] rest
  unanswered-owns p outgoing action rest (inl e) = ground (arith, e, act-owns action rest)
  unanswered-owns p outgoing action rest (inr (o, e, same)) =
      ground (arith, e, same, act-owns action rest)

  pub put-owns : (a : ℕ) (rest : List (Effect Buffer)) → owns (a ∷ []) (put a ∷ rest) ≡ owns [] rest
  put-owns a rest = elim (Bool-cases (a == a)) [
    | inl same ↦ rw same refl
    | inr other ↦ absurd (ground (arith, other))
  ]

  pub none_or_same :
      (outgoing : Option (Pointer Buffer)) (p : Pointer Buffer)
      → answer outgoing ≡ none
      → ((o : Pointer Buffer)
          → outgoing ≡ some o
          → (o.address ≡ p.address) ⊎ (answer (some o) ≡ some o))
      → (outgoing ≡ none) ⊎ ((o : Pointer Buffer) × (outgoing ≡ some o) × (o.address ≡ p.address))
  none_or_same none p h t = inl refl
  none_or_same (some o) p h t = elim (t o refl) [
    | inl same ↦ inr (o, refl, same)
    | inr written ↦ absurd (ground (arith, h, written))
  ]

  pub answer-some :
      (outgoing : Option (Pointer Buffer)) (o : Pointer Buffer)
      → answer outgoing ≡ some o
      → outgoing ≡ some o
  unfolding answer
  answer-some none o h = absurd (ground (arith, h))
  answer-some (some q) o h = ground (arith, h)

  handle_packet-owns :
      (table : List (ℕ × Handler Buffer)) (p : Pointer Buffer) (write : Option Error)
      (rest : List (Effect Buffer))
      → IsTidy table
      → owns [] (took p ∷ (handle_packet table p write).0 ++ rest) ≡ owns [] rest
  unfolding handle_packet
  handle_packet-owns table p write rest tidy =
      elim (Option-cases (find_handler p.packet.metadata.operation table)) [
        | inl e ↦ rw (e, handle_packet) (put-owns p.address rest)
        | inr (h, e) ↦ elim (Option-cases (answer (h p).0)) [
          | inl f ↦
              rw (e, handle_packet)
                (rw f (
                  unanswered-owns p (h p).0 (h p).1 rest (none_or_same (h p).0 p f (tidy _ h e p))))
          | inr (o, f) ↦
              rw (e, handle_packet)
                (rw f (
                  ap
                    (λ x.
                      owns (p.address ∷ []) (handled p x ∷ (respond p o write (h p).1).0 ++ rest))
                    (answer-some (h p).0 o f)
                  ∙ respond-owns p o write (h p).1 rest))
        ]
      ]

  -- With handlers that answer with nothing, with the packet itself or with a packet whose length
  -- is right, the loop never uses a packet that it has put back, puts back each packet that it
  -- took and each answer once and only once, and holds none when it waits for the next one or has
  -- returned.
  pub handle_single-owns :
      (table : List (ℕ × Handler Buffer)) (arrivals : List (Arrival Buffer))
      → IsTidy table
      → owns [] (handle_single table arrivals).0 ≡ true
  unfolding handle_single
  handle_single-owns table [] tidy = refl
  handle_single-owns table (read_fails e ∷ later) tidy = refl
  handle_single-owns table (arrives p write ∷ later) tidy =
      let (es, go_on) = handle_packet table p write in
      let rest = (handle_single table later).0 in
      elim (Bool-cases go_on) [
        | inl go ↦
            rw (go, handle_single)
              (handle_packet-owns table p write rest tidy ∙ handle_single-owns table later tidy)
        | inr stop ↦
            rw (stop, handle_single)
              (ap (λ t. owns [] (took p ∷ t)) (sym (append-nil es))
                ∙ handle_packet-owns table p write [] tidy)
      ]
