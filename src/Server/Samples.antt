-- ===== src/Server/Samples.antt =====
-- Packets and handlers for the tests of the model of server.go.
use frisbee_go.Prelude.{ℕ, none, some, List, [], ◌∷◌}
use frisbee_go.Concrete.{packet}
use frisbee_go.Server.{action_none, action_close, Pointer, Handler}

abbrev pub question : Pointer (List ℕ)
question = record { address = 1; packet = packet 7 10 (104 ∷ 105 ∷ []) }

abbrev pub reply : Pointer (List ℕ)
reply = record { address = 2; packet = packet 7 11 (106 ∷ []) }

abbrev pub farewell : Pointer (List ℕ)
farewell = record { address = 3; packet = packet 8 12 [] }

abbrev pub replying : Handler (List ℕ)
replying p = (some reply, action_none)

abbrev pub leaving : Handler (List ℕ)
leaving p = (none, action_close)

abbrev pub table : List (ℕ × Handler (List ℕ))
table = (10, replying) ∷ (12, leaving) ∷ []
