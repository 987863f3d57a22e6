-- ===== src/Dialer/Examples.antt =====
-- Tests of the model of internal/dialer/dialer.go, and its theorem at concrete inputs.
use frisbee_go.Prelude.{ℕ, ◌<◌, ◌≡◌, refl, ◌⊎◌, none, some, All, ltb, if◌then◌else◌}
use frisbee_go.Errors.{Error, external}
use frisbee_go.Dialer.{
  Dialled, connects, dial_fails, as_result, dial_loop, dial, Fails, from, dial_lem,
}

-- The first two attempts fail.
abbrev attempts : ℕ → Dialled
attempts i = if ltb i 2 then dial_fails (external i) else connects i

dials : dial attempts 10 ≡ (some 2, none)
unfolding dial dial_loop as_result
dials = refl

-- Without an attempt there is neither a connection nor an error.
dials_nothing : dial attempts 0 ≡ (none, none)
unfolding dial dial_loop
dials_nothing = refl

dial_lem_example :
    ((before : ℕ) × (c : ℕ) × (before < 10)
      × All (λ j. Fails (attempts j)) (from before 0)
      × (attempts before ≡ connects c)
      × (dial attempts 10 ≡ (some c, none)))
    ⊎ ((e : Error) × (attempts 9 ≡ dial_fails e)
        × All (λ j. Fails (attempts j)) (from 10 0)
        × (dial attempts 10 ≡ (none, some e)))
dial_lem_example = dial_lem attempts 9
