-- ===== src/Server/Single.antt =====
-- How the loop of server.go that handles packets one at a time comes to its end.
use frisbee_go.Prelude.{
  ℕ, ◌≡◌, refl, ap, sym, ◌∙◌, ◌⊎◌, inl, inr, Bool, true, false, Option, none, some, List, [], ◌∷◌,
  ◌++◌, Option-cases, ◌==◌, if◌then◌else◌,
}
use mathlib.Core.List.{append_assoc}
use frisbee_go.Errors.{Error}
use frisbee_go.Packet.{BufferOps}
use frisbee_go.Server.{
  Action, action_none, action_close, Pointer, Handler, Effect, took, handled, pre_write, wrote, put,
  conn_closed, on_closed, Arrival, arrives, read_fails, find_handler, answer, put_both, act,
  respond, handle_packet, handle_single,
}

module _ {Buffer : Type 0} where
  -- The connection is not closed, and nothing is told.
  abbrev pub Quiet : List (Effect Buffer) → Type 0
  Quiet [] = Unit {0}
  Quiet (took p ∷ es) = Quiet es
  Quiet (handled p o ∷ es) = Quiet es
  Quiet (pre_write ∷ es) = Quiet es
  Quiet (wrote p ∷ es) = Quiet es
  Quiet (put a ∷ es) = Quiet es
  Quiet (conn_closed ∷ es) = ⊥
  Quiet (on_closed e ∷ es) = ⊥

  -- The loop goes on, quietly; or the last that it does is to close the connection and to call
  -- `onClosed`.
  abbrev pub Ends : List (Effect Buffer) → Bool → Type 0
  Ends es go_on =
      ((go_on ≡ true) × Quiet es)
      ⊎ ((go_on ≡ false)
          × (front : List (Effect Buffer)) × (reason : Option Error) × (es
              ≡ front ++ conn_closed ∷ on_closed reason ∷ [])
          × Quiet front)

  Quiet-append : (es fs : List (Effect Buffer)) → Quiet es → Quiet fs → Quiet (es ++ fs)
  Quiet-append [] fs q r = r
  Quiet-append (took p ∷ es) fs q r = Quiet-append es fs q r
  Quiet-append (handled p o ∷ es) fs q r = Quiet-append es fs q r
  Quiet-append (pre_write ∷ es) fs q r = Quiet-append es fs q r
  Quiet-append (wrote p ∷ es) fs q r = Quiet-append es fs q r
  Quiet-append (put a ∷ es) fs q r = Quiet-append es fs q r
  Quiet-append (conn_closed ∷ es) fs q r = absurd q
  Quiet-append (on_closed e ∷ es) fs q r = absurd q

  Ends-append :
      (es fs : List (Effect Buffer)) (go_on : Bool)
      → Quiet es
      → Ends fs go_on
      → Ends (es ++ fs) go_on
  Ends-append es fs go_on q (inl (e, r)) = inl (e, Quiet-append es fs q r)
  Ends-append es fs go_on q (inr (e, front, reason, same, r)) = inr (
    e,
    es ++ front,
    reason,
    ap (λ t. es ++ t) same ∙ sym (append_assoc es front (conn_closed ∷ on_closed reason ∷ [])),
    Quiet-append es front q r,
  )

  act-Ends :
      (action : Action) → Ends (act {Buffer = Buffer} action).0 (act {Buffer = Buffer} action).1
  unfolding act
  act-Ends action_none = inl (refl, tt {0})
  act-Ends action_close = inr (refl, [], none, refl, tt {0})

  put_both-Quiet : (p o : Pointer Buffer) → Quiet (put_both p o)
  unfolding put_both
  put_both-Quiet p o = by_address (o.address == p.address)
    where
      by_address :
          (b : Bool) → Quiet (if b then put p.address ∷ [] else put o.address ∷ put p.address ∷ [])
      by_address true = tt {0}
      by_address false = tt {0}

  respond-Ends :
      (p o : Pointer Buffer) (write : Option Error) (action : Action)
      → Ends (respond p o write action).0 (respond p o write action).1
  unfolding respond
  respond-Ends p o none action =
      Ends-append (pre_write ∷ wrote o ∷ put_both p o) (act action).0 _ (put_both-Quiet p o)
        (act-Ends action)
  respond-Ends p o (some e) action =
      inr (refl, pre_write ∷ wrote o ∷ put_both p o, some e, refl, put_both-Quiet p o)

module _ {Buffer : Type 0} ⦃ops : BufferOps Buffer⦄ (table : List (ℕ × Handler Buffer)) where
  handle_packet-Ends :
      (p : Pointer Buffer) (write : Option Error)
      → Ends (handle_packet table p write).0 (handle_packet table p write).1
  unfolding handle_packet
  handle_packet-Ends p write =
      elim (Option-cases (find_handler p.packet.metadata.operation table)) [
        | inl e ↦ rw (e, handle_packet) (inl (refl, tt {0}))
        | inr (h, e) ↦ elim (Option-cases (answer (h p).0)) [
          | inl f ↦
              rw (e, handle_packet)
                (rw f (
                  Ends-append (handled p (h p).0 ∷ put p.address ∷ []) (act (h p).1).0 _ (tt {0})
                    (act-Ends (h p).1)))
          | inr (o, f) ↦
              rw (e, handle_packet)
                (rw f (
                  Ends-append (handled p (h p).0 ∷ []) (respond p o write (h p).1).0 _ (tt {0})
                    (respond-Ends p o write (h p).1)))
        ]
      ]

  -- Whatever packets arrive, whatever the handlers answer and whatever becomes of the writes, as
  -- long as the loop goes on it neither closes the connection nor calls `onClosed`; and when it has
  -- returned, the last that it did was to close the connection and then to call `onClosed`, each
  -- for the first and only time.
  pub handle_single-Ends :
      (arrivals : List (Arrival Buffer))
      → (((handle_single table arrivals).1 ≡ false) × Quiet (handle_single table arrivals).0)
        ⊎ (((handle_single table arrivals).1 ≡ true)
            × (front : List (Effect Buffer)) × (reason : Option Error) × ((handle_single table
                  arrivals).0
                ≡ front ++ conn_closed ∷ on_closed reason ∷ [])
            × Quiet front)
  unfolding handle_single
  handle_single-Ends [] = inl (refl, tt {0})
  handle_single-Ends (read_fails e ∷ later) = inr (refl, [], some e, refl, tt {0})
  handle_single-Ends (arrives p write ∷ later) =
      let (es, go_on) = handle_packet table p write in
      elim (handle_packet-Ends p write) [
        | inr (stop, front, reason, same, q) ↦
            rw (stop, handle_single)
              (inr (refl, took p ∷ front, reason, ap (λ t. took p ∷ t) same, q))
        | inl (go, q) ↦ elim (handle_single-Ends later) [
          | inl (open_, r) ↦ rw (go, handle_single) (inl (open_, Quiet-append es _ q r))
          | inr (over, front, reason, same, r) ↦
              rw (go, handle_single)
                (inr (
                  over,
                  took p ∷ es ++ front,
                  reason,
                  ap (λ t. took p ∷ es ++ t) same
                      ∙ sym
                          (append_assoc (took p ∷ es) front (conn_closed ∷ on_closed reason ∷ [])),
                  Quiet-append es front q r,
                ))
        ]
      ]
