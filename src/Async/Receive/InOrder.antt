-- ===== src/Async/Receive/InOrder.antt =====
-- The packets of async.go that arrive for the program go to the incoming queue, in order.
use frisbee_go.Prelude.{ℕ, ◌≡◌, ◌<◌, refl, ap, ◌∙◌, false, List, [], ◌∷◌, ◌++◌, map, All, arith}
use mathlib.Core.List.{append_assoc, append-nil}
use frisbee_go.Metadata.{IsInRange}
use frisbee_go.Errors.{Error}
use frisbee_go.Packet.{BufferOps, Packet}
use frisbee_go.Sync.Frame.{IsSendable}
use frisbee_go.Async.Framing.{next}
use frisbee_go.Async.Write.{op_stream}
use frisbee_go.Async.Receive.{is_control, look_up}
use frisbee_go.Async.Receive.Inbox.{Inbox, box_incoming, box_deliver}
use frisbee_go.Async.Receive.Taken.{arrived, IsDelivered, and_next, taken, taken_all}

module _ {Buffer : Type 0} ⦃ops : BufferOps Buffer⦄ where
  -- A packet that the code will send, for the program at the other end.
  pub record IsForProgram (max : ℕ) (p : Packet Buffer) : Type 0 where
    pub sendable : IsSendable max p
    pub in_range : IsInRange p.metadata
    pub ordinary : op_stream < p.metadata.operation

  abbrev pub receives : List (Packet Buffer) → Inbox → Inbox
  receives ps c = record c {
    incoming = record { frames = c.incoming.frames ++ map arrived ps; is_shut = false };
  }

  IsForProgram-IsDelivered : (max : ℕ) (p : Packet Buffer) → IsForProgram max p → IsDelivered max p
  unfolding is_control
  IsForProgram-IsDelivered max p v = record {
    sendable = v.sendable;
    in_range = v.in_range;
    no_control = ground (arith, v.ordinary);
  }

  pub All-IsForProgram :
      (max : ℕ) (ps : List (Packet Buffer)) → All (IsForProgram max) ps → All (IsDelivered max) ps
  All-IsForProgram max [] v = tt
  All-IsForProgram max (p ∷ ps) (v, vs) =
      (IsForProgram-IsDelivered max p v, All-IsForProgram max ps vs)

  taken-receives :
      (max : ℕ) (shut_error : Error) (c : Inbox) (p : Packet Buffer)
      → IsForProgram max p
      → c.incoming.is_shut ≡ false
      → taken shut_error c p ≡ next (receives (p ∷ []) c)
  unfolding look_up box_deliver box_incoming
  taken-receives max shut_error c p v o = ground (arith, v.ordinary)

  pub taken_all-receives :
      (max : ℕ) (shut_error : Error) (c : Inbox) (ps : List (Packet Buffer))
      → All (IsForProgram max) ps
      → c.incoming.is_shut ≡ false
      → taken_all shut_error c ps ≡ next (receives ps c)
  taken_all-receives max shut_error c [] v o =
      ap (λ m. next (record c { incoming = m })) (ground (arith, append-nil c.incoming.frames))
  taken_all-receives max shut_error c (p ∷ ps) v o =
      ap (λ s. and_next s (λ d. taken_all shut_error d ps))
        (taken-receives max shut_error c p v.0 o)
      ∙ taken_all-receives max shut_error (receives (p ∷ []) c) ps v.1 refl
      ∙ ap (λ fs. next (record c { incoming = record { frames = fs; is_shut = false } }))
          (append_assoc c.incoming.frames (arrived p ∷ []) (map arrived ps))
