-- ===== src/Dialer.antt =====
-- internal/dialer/dialer.go: dialling again after a failure. The dialler of the Go library is a
-- parameter: what each attempt, by its number, comes to.
mod Examples
use frisbee_go.Prelude.{
  ℕ, zero, suc, ◌+◌, ◌<◌, ◌≡◌, refl, ap, ◌∙◌, ◌⊎◌, inl, inr, Option, none, some, List, [], ◌∷◌, All,
  arith,
}
use frisbee_go.Errors.{Error}

pub data Dialled : Type 0 where
  connects : ℕ → Dialled
  dial_fails : Error → Dialled

-- The result of a call of the library, and of `Dial`: a connection and an error, either of which may
-- be nil.
unfoldable pub as_result : Dialled → Option ℕ × Option Error
as_result (connects c) = (some c, none)
as_result (dial_fails e) = (none, some e)

-- The loop of `Dial` with `left` rounds to go, from attempt `i` on; `last` is the result so far.
unfoldable pub dial_loop : (ℕ → Dialled) → ℕ → ℕ → Option ℕ × Option Error → Option ℕ × Option Error
dial_loop attempt zero i last = last
dial_loop attempt (suc left) i last =
    let rest = dial_loop attempt left (i + 1) (as_result (attempt i)) in
    elim (as_result (attempt i)).1 [ none ↦ as_result (attempt i) | some e ↦ rest ]

-- `(*Retry).Dial`.
unfoldable pub dial : (ℕ → Dialled) → ℕ → Option ℕ × Option Error
dial attempt retries = dial_loop attempt retries 0 (none, none)

-- `(*Retry).DialTLS`, with the TLS dialler of the Go library for each configuration.
unfoldable pub dial_tls : (ℕ → ℕ → Dialled) → ℕ → ℕ → Option ℕ × Option Error
dial_tls attempt config retries = dial_loop (attempt config) retries 0 (none, none)

-- The field `NumRetries` of `NewRetry`.
abbrev pub num_retries : ℕ
num_retries = 10

abbrev pub Fails : Dialled → Type 0
Fails d = (e : Error) × (d ≡ dial_fails e)

abbrev pub from : ℕ → ℕ → List ℕ
from zero i = []
from (suc count) i = i ∷ from count (i + 1)

dialled-cases : (d : Dialled) → ((c : ℕ) × (d ≡ connects c)) ⊎ Fails d
dialled-cases (connects c) = inl (c, refl)
dialled-cases (dial_fails e) = inr (e, refl)

at_attempt : (attempt : ℕ → Dialled) (i j : ℕ) {d : Dialled} → j ≡ i → attempt i ≡ d → attempt j ≡ d
at_attempt attempt i j e h = ap attempt e ∙ h

dial_loop_lem :
    (attempt : ℕ → Dialled) (left i : ℕ) (last : Option ℕ × Option Error)
    → ((before : ℕ) × (c : ℕ) × (before < left)
        × All (λ j. Fails (attempt j)) (from before i)
        × (attempt (i + before) ≡ connects c)
        × (dial_loop attempt left i last ≡ (some c, none)))
      ⊎ (All (λ j. Fails (attempt j)) (from left i)
          × (((left ≡ 0) × (dial_loop attempt left i last ≡ last))
              ⊎ ((e : Error) × (before : ℕ) × (left ≡ suc before)
                  × (attempt (i + before) ≡ dial_fails e)
                  × (dial_loop attempt left i last ≡ (none, some e)))))
unfolding dial_loop as_result
dial_loop_lem attempt zero i last = inr (tt {0}, inl (refl, refl))
dial_loop_lem attempt (suc left) i last =
    let again : (e : Error)
        → attempt i ≡ dial_fails e
        → dial_loop attempt (suc left) i last ≡ dial_loop attempt left (i + 1) (none, some e) =
      λ e h. rw (h, dial_loop) (ap (λ d. dial_loop attempt left (i + 1) (as_result d)) h) in
    elim (dialled-cases (attempt i)) [
      | inl (c, h) ↦ inl (
        0,
        c,
        omega arith,
        tt {0},
        at_attempt attempt i (i + 0) (omega arith) h,
        rw (h, dial_loop) (ap as_result h),
      )
      | inr (e, h) ↦ elim (dial_loop_lem attempt left (i + 1) (none, some e)) [
        | inl (before, c, l, all, f, same) ↦ inl (
          suc before,
          c,
          omega arith,
          ((e, h), all),
          at_attempt attempt (i + 1 + before) (i + suc before) (omega arith) f,
          again e h ∙ same,
        )
        | inr (all, inl (z, same)) ↦ inr (
          ((e, h), all),
          inr (e, 0, ap suc z, at_attempt attempt i (i + 0) (omega arith) h, again e h ∙ same),
        )
        | inr (all, inr (e', before, z, f, same)) ↦ inr (
          ((e, h), all),
          inr (
            e',
            suc before,
            ap suc z,
            at_attempt attempt (i + 1 + before) (i + suc before) (omega arith) f,
            again e h ∙ same,
          ),
        )
      ]
    ]

-- With at least one attempt allowed, `Dial` returns the connection of the first attempt that
-- succeeds, if that is among the allowed ones, and otherwise the error of the last allowed attempt,
-- with no connection; all attempts before have failed.
pub dial_lem :
    (attempt : ℕ → Dialled) (retries : ℕ)
    → ((before : ℕ) × (c : ℕ) × (before < suc retries)
        × All (λ j. Fails (attempt j)) (from before 0)
        × (attempt before ≡ connects c)
        × (dial attempt (suc retries) ≡ (some c, none)))
      ⊎ ((e : Error) × (attempt retries ≡ dial_fails e)
          × All (λ j. Fails (attempt j)) (from (suc retries) 0)
          × (dial attempt (suc retries) ≡ (none, some e)))
unfolding dial
dial_lem attempt retries = elim (dial_loop_lem attempt (suc retries) 0 (none, none)) [
  | inl (before, c, l, all, f, same) ↦
      inl (before, c, l, all, at_attempt attempt (0 + before) before (omega arith) f, same)
  | inr (all, inl (z, same)) ↦ absurd (omega arith)
  | inr (all, inr (e, before, z, f, same)) ↦
      inr (e, at_attempt attempt (0 + before) retries (omega arith) f, all, same)
]
