-- ===== src/Server/Setup/Examples.antt =====
-- Tests of how a server is set up, and the theorem on it at concrete calls.
use frisbee_go.Prelude.{ℕ, ◌≡◌, refl, Bool, true, false, none, some, List, [], ◌∷◌}
use frisbee_go.Errors.{external, on_closed_nil}
use frisbee_go.Server.Samples.{table}
use frisbee_go.Server.Setup.{
  default, calls, new_server, set_on_closed, limited, left_open, turned_away, handled_by,
  keep_alive_error, serve_conn,
}
use frisbee_go.Server.Setup.Ready.{
  Setup, sets_on_closed, sets_streams, sets_concurrency, configure, HasNoReserved, StartsOnce,
  configure_lem,
}

abbrev calls_made : List (Setup (List ℕ))
calls_made =
    sets_concurrency 4
    ∷ sets_on_closed (some 8)
    ∷ sets_streams none
    ∷ sets_on_closed none
    ∷ sets_concurrency 2
    ∷ []

refuses_nil :
    (set_on_closed none (configure calls_made (new_server 7 table []).0)).1 ≡ some on_closed_nil
unfolding set_on_closed
refuses_nil = refl

leaves_open : serve_conn true none none true (new_server 7 table []).0 ≡ left_open
unfolding serve_conn keep_alive_error
leaves_open = refl

turns_away : serve_conn true none (some (external 1)) false (new_server 7 table []).0 ≡ turned_away
unfolding serve_conn keep_alive_error
turns_away = refl

configure_lem_example :
    let s = configure calls_made (new_server 7 table []).0 in
    ((is_tcp : Bool) → serve_conn is_tcp none none false s ≡ handled_by (limited (some 2)))
    × (s.on_closed ≡ calls 8)
    × (s.pre_write ≡ default)
    × HasNoReserved s.handler_table
    × StartsOnce s
configure_lem_example = configure_lem 7 table [] calls_made
