-- ===== src/Client/Ownership.antt =====
-- What the handling loop of client.go does with the pool of packets.
use frisbee_go.Prelude.{
  ℕ, ◌≡◌, refl, ap, sym, ◌∙◌, ◌⊎◌, inl, inr, true, Option, none, some, List, [], ◌∷◌, ◌++◌,
  Option-cases, Bool-cases, arith,
}
use mathlib.Core.List.{append-nil}
use frisbee_go.Errors.{Error}
use frisbee_go.Packet.{BufferOps}
use frisbee_go.Server.{
  Action, action_none, action_close, Pointer, Handler, Effect, took, handled, put, arrives,
  read_fails, find_handler, answer, put_both,
}
use frisbee_go.Server.Ownership.{owns, IsTidy, none_or_same, answer-some, put-owns}
use frisbee_go.Client.{
  Round, found_closed, meets, client_act, client_respond, client_packet, handle_conn,
}

module _ {Buffer : Type 0} ⦃ops : BufferOps Buffer⦄ where
  client_act-owns :
      (action : Action) (rest : List (Effect Buffer))
      → owns [] ((client_act action).0 ++ rest) ≡ owns [] rest
  unfolding client_act
  client_act-owns action_none rest = refl
  client_act-owns action_close rest = refl

  client_respond-owns :
      (p o : Pointer Buffer) (write : Option Error) (action : Action) (rest : List (Effect Buffer))
      → owns (p.address ∷ []) (handled p (some o) ∷ (client_respond p o write action).0 ++ rest)
        ≡ owns [] rest
  unfolding client_respond put_both client_act
  client_respond-owns p o write action rest = ground arith

  client_quiet-owns :
      (p : Pointer Buffer) (outgoing : Option (Pointer Buffer)) (action : Action)
      (rest : List (Effect Buffer))
      → (outgoing ≡ none) ⊎ ((o : Pointer Buffer) × (outgoing ≡ some o) × (o.address ≡ p.address))
      → owns (p.address ∷ []) (handled p outgoing ∷ put p.address ∷ (client_act action).0 ++ rest)
        ≡ owns [] rest
  client_quiet-owns p outgoing action rest (inl e) = ground (arith, e, client_act-owns action rest)
  client_quiet-owns p outgoing action rest (inr (o, e, same)) =
      ground (arith, e, same, client_act-owns action rest)

  client_packet-owns :
      (table : List (ℕ × Handler Buffer)) (p : Pointer Buffer) (write : Option Error)
      (rest : List (Effect Buffer))
      → IsTidy table
      → owns [] (took p ∷ (client_packet table p write).0 ++ rest) ≡ owns [] rest
  unfolding client_packet
  client_packet-owns table p write rest tidy =
      elim (Option-cases (find_handler p.packet.metadata.operation table)) [
        | inl e ↦ rw (e, client_packet) (put-owns p.address rest)
        | inr (h, e) ↦ elim (Option-cases (answer (h p).0)) [
          | inl f ↦
              rw (e, client_packet)
                (rw f (
                  client_quiet-owns p (h p).0 (h p).1 rest
                    (none_or_same (h p).0 p f (tidy _ h e p))))
          | inr (o, f) ↦
              rw (e, client_packet)
                (rw f (
                  ap
                    (λ x.
                      owns (p.address ∷ [])
                        (handled p x ∷ (client_respond p o write (h p).1).0 ++ rest))
                    (answer-some (h p).0 o f)
                  ∙ client_respond-owns p o write (h p).1 rest))
        ]
      ]

  -- With handlers that answer with nothing, with the packet itself or with a packet whose length
  -- is right, the client's loop never uses a packet that it has put back, puts back each packet
  -- that it took and each answer once and only once, and holds none when it waits for the next one
  -- or has returned.
  pub handle_conn-owns :
      (table : List (ℕ × Handler Buffer)) (rounds : List (Round Buffer))
      → IsTidy table
      → owns [] (handle_conn table rounds).0 ≡ true
  unfolding handle_conn
  handle_conn-owns table [] tidy = refl
  handle_conn-owns table (found_closed ∷ later) tidy = refl
  handle_conn-owns table (meets (read_fails e) ∷ later) tidy = refl
  handle_conn-owns table (meets (arrives p write) ∷ later) tidy =
      let (es, go_on) = client_packet table p write in
      let rest = (handle_conn table later).0 in
      elim (Bool-cases go_on) [
        | inl go ↦
            rw (go, handle_conn)
              (client_packet-owns table p write rest tidy ∙ handle_conn-owns table later tidy)
        | inr stop ↦
            rw (stop, handle_conn)
              (ap (λ t. owns [] (took p ∷ t)) (sym (append-nil es))
                ∙ client_packet-owns table p write [] tidy)
      ]
