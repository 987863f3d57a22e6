-- ===== src/Server/Examples.antt =====
-- Tests of the model of server.go, and its theorems at concrete inputs.
use frisbee_go.Prelude.{
  ℕ, ◌<◌, ◌≡◌, refl, subst, ◌⊎◌, inr, Bool, true, false, Option, none, some, List, [], ◌∷◌, ◌++◌,
  All, ◌==◌, if◌then◌else◌, arith,
}
use frisbee_go.Errors.{Error, eof, external, invalid_handler_table}
use frisbee_go.Concrete.{list_buffer}
use frisbee_go.Server.{
  Pointer, Handler, Effect, took, handled, pre_write, wrote, put, conn_closed, on_closed, Arrival,
  arrives, read_fails, find_handler, has_handler_below, next_backoff, set_handler_table, answer,
  put_both, act, respond, handle_packet, handle_single, Accepted, accepted, accept_fails, served,
  slept, listening, handle_listener,
}
use frisbee_go.Server.Samples.{question, reply, farewell, replying, leaving, table}
use frisbee_go.Server.Single.{Quiet, handle_single-Ends}
use frisbee_go.Server.Ownership.{owns, IsTidy, handle_single-owns}
use frisbee_go.Server.Handlers.{set_handler_table_lem}
use frisbee_go.Server.Workers.{Serving, finished, has_returned}
use frisbee_go.Server.Backoff.{wait, listen, handle_listener-listen}

abbrev arrivals : List (Arrival (List ℕ))
arrivals = arrives question none ∷ arrives farewell none ∷ read_fails eof ∷ []

answers_and_closes : handle_single table arrivals ≡ (
  took question
      ∷ handled question (some reply)
      ∷ pre_write
      ∷ wrote reply
      ∷ put 2
      ∷ put 1
      ∷ took farewell
      ∷ handled farewell none
      ∷ put 3
      ∷ conn_closed
      ∷ on_closed none
      ∷ [],
  true,
)
unfolding handle_single handle_packet find_handler answer respond put_both act
answers_and_closes = refl

handle_single-Ends_example :
    (((handle_single table arrivals).1 ≡ false) × Quiet (handle_single table arrivals).0)
    ⊎ (((handle_single table arrivals).1 ≡ true)
        × (front : List (Effect (List ℕ))) × (reason : Option Error) × ((handle_single table
              arrivals).0
            ≡ front ++ conn_closed ∷ on_closed reason ∷ [])
        × Quiet front)
handle_single-Ends_example = handle_single-Ends table arrivals

-- What IsTidy asks of one entry.
abbrev AnswersWell : Option (Handler (List ℕ)) → Type 0
AnswersWell none = Unit {0}
AnswersWell (some h) =
    (p o : Pointer (List ℕ))
    → (h p).0 ≡ some o
    → (o.address ≡ p.address) ⊎ (answer (some o) ≡ some o)

table-AnswersWell :
    (b c : Bool) → AnswersWell (if b then some replying else if c then some leaving else none)
unfolding answer
table-AnswersWell true c = λ p o e. inr (subst (λ x. answer x ≡ x) e refl)
table-AnswersWell false true = λ p o e. absurd (ground (arith, e))
table-AnswersWell false false = tt {0}

table-IsTidy : IsTidy table
unfolding find_handler
table-IsTidy op h found = subst AnswersWell found (table-AnswersWell (10 == op) (12 == op))

handle_single-owns_example : owns [] (handle_single table arrivals).0 ≡ true
handle_single-owns_example = handle_single-owns table arrivals table-IsTidy

set_handler_table_lem_example :
    ((set_handler_table [] table ≡ (table, none))
      × All (λ op. find_handler op table ≡ none) (0 ∷ 1 ∷ 2 ∷ 3 ∷ 4 ∷ 5 ∷ 6 ∷ 7 ∷ 8 ∷ []))
    ⊎ ((set_handler_table [] table ≡ ([], some invalid_handler_table))
        × (op : ℕ) × (h : Handler (List ℕ)) × (op < 9)
        × (find_handler op table ≡ some h))
set_handler_table_lem_example = set_handler_table_lem [] table

-- A handler for the reserved operation 9 is taken.
takes_nine : set_handler_table [] ((9, leaving) ∷ []) ≡ ((9, leaving) ∷ [], none)
unfolding set_handler_table has_handler_below find_handler
takes_nine = refl

abbrev accepts : List Accepted
accepts =
    accept_fails (external 1) true false false
    ∷ accept_fails (external 1) true false false
    ∷ accepted 4
    ∷ accept_fails (external 1) true false false
    ∷ []

listens : handle_listener 0 accepts ≡ (slept 5 ∷ slept 10 ∷ served 4 ∷ slept 5 ∷ [], listening)
unfolding handle_listener next_backoff
listens = refl

handle_listener-listen_example : handle_listener (wait 8) accepts ≡ listen 8 accepts
handle_listener-listen_example = handle_listener-listen 8 accepts

abbrev served_once : Serving (List ℕ)
served_once = record {
  workers = finished ∷ [];
  closed = true;
  told = some eof ∷ [];
  loop = has_returned;
}
