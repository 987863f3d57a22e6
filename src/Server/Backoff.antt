-- ===== src/Server/Backoff.antt =====
-- How long the listener of server.go waits between failed calls of `Accept`.
use frisbee_go.Prelude.{
  ℕ, zero, suc, ◌*◌, ◌≤◌, ◌≡◌, refl, ap, ◌∙◌, true, false, none, some, List, [], ◌∷◌, ltb,
  if◌then◌else◌, arith,
}
use frisbee_go.Server.{
  Accepted, accepted, accept_fails, Listened, served, slept, ListenEnd, listening, returned,
  and_then, next_backoff, handle_listener,
}

abbrev pub doubled : ℕ → ℕ
doubled zero = 5
doubled (suc k) = 2 * doubled k

-- The wait after `k` temporary errors on end.
abbrev pub wait : ℕ → ℕ
wait zero = 0
wait (suc k) = if ltb 1000 (doubled k) then 1000 else doubled k

-- The listener, told with the number of temporary errors since the last connection.
abbrev pub listen : ℕ → List Accepted → List Listened × ListenEnd
listen k [] = ([], listening)
listen k (accepted c ∷ later) = and_then (served c) (listen 0 later)
listen k (accept_fails e temporary true down_later ∷ later) = ([], returned none)
listen k (accept_fails e false false down_later ∷ later) = ([], returned (some e))
listen k (accept_fails e true false true ∷ later) = (slept (wait (suc k)) ∷ [], returned none)
listen k (accept_fails e true false false ∷ later) =
    and_then (slept (wait (suc k))) (listen (suc k) later)

le-doubled : (k : ℕ) → 5 ≤ doubled k
le-doubled zero = omega arith
le-doubled (suc k) = omega (arith, le-doubled k)

next_backoff-wait : (k : ℕ) → next_backoff (wait k) ≡ wait (suc k)
unfolding next_backoff
next_backoff-wait zero = refl
next_backoff-wait (suc k) = ground (arith, le-doubled k)

-- The wait grows from 5 milliseconds to twice as long with each temporary error after another, up
-- to a second, and starts anew with each connection that is accepted; an error that is not
-- temporary is returned, and a server that is shut down returns without an error, before it waits
-- or after.
pub handle_listener-listen :
    (k : ℕ) (events : List Accepted) → handle_listener (wait k) events ≡ listen k events
unfolding handle_listener
handle_listener-listen k [] = refl
handle_listener-listen k (accepted c ∷ later) =
    ap (and_then (served c)) (handle_listener-listen 0 later)
handle_listener-listen k (accept_fails e temporary true down_later ∷ later) = refl
handle_listener-listen k (accept_fails e false false down_later ∷ later) = refl
handle_listener-listen k (accept_fails e true false true ∷ later) =
    ap (λ b. (slept b ∷ [], returned none)) (next_backoff-wait k)
handle_listener-listen k (accept_fails e true false false ∷ later) =
    ap (λ b. and_then (slept b) (handle_listener b later)) (next_backoff-wait k)
    ∙ ap (and_then (slept (wait (suc k)))) (handle_listener-listen (suc k) later)
