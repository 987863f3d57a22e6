-- ===== src/Connect/Examples.antt =====
-- Tests of the model of connecting, and its theorem at a concrete input.
use frisbee_go.Prelude.{
  ℕ, List, ◌<◌, ◌≡◌, refl, ◌⊎◌, false, none, some, [], ◌∷◌, All, ltb, if◌then◌else◌,
}
use frisbee_go.Errors.{Error, external}
use frisbee_go.Packet.{Packet}
use frisbee_go.Conn.{Conn}
use frisbee_go.Concrete.{ListQueue, list_queue}
use frisbee_go.Sync.{new_sync}
use frisbee_go.Async.State.{Async}
use frisbee_go.Async.Start.{new_async}
use frisbee_go.Options.{default_keep_alive}
use frisbee_go.Dialer.{
  Dialled, connects, dial_fails, dial, dial_tls, dial_loop, as_result, Fails, from,
}
use frisbee_go.Connect.{
  Socket, Connected, connected, failed, dial_socket, connect_async, connect_sync,
}
use frisbee_go.Connect.Made.{socket, AnswersTls, connect_lem}

-- The first three attempts of each dialler fail.
abbrev flaky : ℕ → Dialled
flaky i = if ltb i 3 then dial_fails (external i) else connects i

abbrev refused : ℕ → Dialled
refused i = dial_fails (external i)

abbrev silent : Socket → Conn
silent s = record { reads = []; writes = []; sent = []; is_closed = false }

connects_third :
    connect_sync flaky (λ config. refused) silent none default_keep_alive
    ≡ connected
        (socket none default_keep_alive 3)
        (new_sync (silent (socket none default_keep_alive 3)))
unfolding connect_sync dial_socket dial dial_loop as_result
connects_third = refl

gives_up :
    connect_sync flaky (λ config. refused) silent (some 4) default_keep_alive ≡ failed (external 9)
unfolding connect_sync dial_socket dial_tls dial_loop as_result
gives_up = refl

connect_lem_example :
    let s = socket none default_keep_alive in
    let made : Connected (Async (List ℕ) (ListQueue (Packet (List ℕ)))) =
      connect_async flaky (λ config. refused) silent none default_keep_alive (some 6 ∷ []) in
    ((before : ℕ) × (c : ℕ) × (before < 10)
      × All (λ j. Fails (flaky j)) (from before 0)
      × (flaky before ≡ connects c)
      × (made ≡ connected (s c) (new_async (silent (s c)) (some 6 ∷ [])))
      × (connect_sync flaky (λ config. refused) silent none default_keep_alive
          ≡ connected (s c) (new_sync (silent (s c))))
      × AnswersTls (λ n. n) 0 (λ n. none) none c (s c))
    ⊎ ((e : Error) × (flaky 9 ≡ dial_fails e)
        × All (λ j. Fails (flaky j)) (from 10 0)
        × (made ≡ failed e)
        × (connect_sync flaky (λ config. refused) silent none default_keep_alive ≡ failed e))
connect_lem_example =
    connect_lem flaky (λ config. refused) (λ n. n) 0 (λ n. none) silent none default_keep_alive
      (some 6 ∷ [])
