-- ===== src/Client/Examples.antt =====
-- Tests of the model of client.go, and its theorem at concrete inputs.
use frisbee_go.Prelude.{
  ℕ, ◌≡◌, refl, subst, ◌⊎◌, inl, Bool, true, false, Option, none, some, List, [], ◌∷◌,
  if◌then◌else◌, ◌==◌, arith,
}
use frisbee_go.Concrete.{list_buffer, packet}
use frisbee_go.Server.{
  action_none, Pointer, Handler, took, handled, wrote, put, arrives, find_handler, answer, put_both,
}
use frisbee_go.Server.Ownership.{owns, IsTidy}
use frisbee_go.Client.{
  Round, found_closed, meets, client_act, client_respond, client_packet, handle_conn,
}
use frisbee_go.Client.Ownership.{handle_conn-owns}

-- A handler that sends the packet back.
abbrev echo : Handler (List ℕ)
echo p = (some p, action_none)

abbrev table : List (ℕ × Handler (List ℕ))
table = (10, echo) ∷ []

abbrev ping : Pointer (List ℕ)
ping = record { address = 1; packet = packet 7 10 (104 ∷ 105 ∷ []) }

abbrev rounds : List (Round (List ℕ))
rounds = meets (arrives ping none) ∷ found_closed ∷ []

echoes :
    handle_conn table rounds
    ≡ (took ping ∷ handled ping (some ping) ∷ wrote ping ∷ put 1 ∷ [], true)
unfolding handle_conn client_packet find_handler answer client_respond put_both client_act
echoes = refl

abbrev Echoes : Option (Handler (List ℕ)) → Type 0
Echoes none = Unit {0}
Echoes (some h) =
    (p o : Pointer (List ℕ))
    → (h p).0 ≡ some o
    → (o.address ≡ p.address) ⊎ (answer (some o) ≡ some o)

table-Echoes : (b : Bool) → Echoes (if b then some echo else none)
table-Echoes true = λ p o e. inl (ground (arith, e))
table-Echoes false = tt {0}

table-IsTidy : IsTidy table
unfolding find_handler
table-IsTidy op h found = subst Echoes found (table-Echoes (10 == op))

handle_conn-owns_example : owns [] (handle_conn table rounds).0 ≡ true
handle_conn-owns_example = handle_conn-owns table rounds table-IsTidy
