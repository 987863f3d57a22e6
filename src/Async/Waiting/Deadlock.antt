-- ===== src/Async/Waiting/Deadlock.antt =====
-- When `close` of async.go comes to its end, and when it waits for ever.
use frisbee_go.Prelude.{ℕ, zero, suc, ◌≡◌, ◌≢◌, ◌⊎◌, refl, inl, inr, Bool, true, false, arith}
use frisbee_go.Async.Waiting.{
  Holder, nobody, by_close, by_read_loop, CloseCall, before, locked, in_wait, at_end, ReadLoop,
  at_work, at_lock, with_lock, gone, Goroutines, WaitStep, close_locks, close_shuts, close_goes_on,
  meets_stream, read_loop_locks, read_loop_unlocks, read_fails, flush_loop_ends, ping_loop_ends,
  Waits, stays, moves, at_start,
}

abbrev pub close_holds : CloseCall → Bool
close_holds before = false
close_holds locked = true
close_holds in_wait = true
close_holds at_end = false

abbrev pub read_loop_holds : ReadLoop → Bool
read_loop_holds at_work = false
read_loop_holds at_lock = false
read_loop_holds with_lock = true
read_loop_holds gone = false

abbrev pub holder : Bool → Bool → Holder
holder true reads = by_close
holder false true = by_read_loop
holder false false = nobody

-- The mutex is held by who is between its lock and its unlock, and by one of them at most; the flag
-- is set from the compare-and-swap on.
pub record IsExclusive (s : Goroutines) : Type 0 where
  pub held : s.streams_mu ≡ holder (close_holds s.close_call) (read_loop_holds s.read_loop)
  pub one : (close_holds s.close_call ≡ false) ⊎ (read_loop_holds s.read_loop ≡ false)
  pub flag : (s.close_call ≡ in_wait) ⊎ (s.close_call ≡ at_end) ⊎ (s.closed ≡ false)
  pub flag_set : (s.close_call ≡ before) ⊎ (s.close_call ≡ locked) ⊎ (s.closed ≡ true)

WaitStep-IsExclusive : {s t : Goroutines} → WaitStep s t → IsExclusive s → IsExclusive t
WaitStep-IsExclusive (close_locks s c m) i = ground arith
WaitStep-IsExclusive (close_shuts s c o) i = ground arith
WaitStep-IsExclusive (close_goes_on s c r f p) i = ground arith
WaitStep-IsExclusive (meets_stream s r) i = ground arith
WaitStep-IsExclusive (read_loop_locks s r m) i = ground arith
WaitStep-IsExclusive (read_loop_unlocks s r) i = ground arith
WaitStep-IsExclusive (read_fails s r c) i = ground arith
WaitStep-IsExclusive (flush_loop_ends s c) i = ground arith
WaitStep-IsExclusive (ping_loop_ends s c) i = ground arith

Waits-IsExclusive : {s t : Goroutines} → Waits s t → IsExclusive s → IsExclusive t
Waits-IsExclusive (stays s) i = i
Waits-IsExclusive (moves step r) i = Waits-IsExclusive r (WaitStep-IsExclusive step i)

at_start-IsExclusive : IsExclusive at_start
at_start-IsExclusive = ground arith

-- `close` waits for a read loop that waits for `close`.
abbrev pub Deadlocked : Goroutines → Type 0
Deadlocked s = (s.close_call ≡ in_wait) × (s.read_loop ≡ at_lock)

WaitStep-Deadlocked :
    {s t : Goroutines} → WaitStep s t → IsExclusive s → Deadlocked s → Deadlocked t
WaitStep-Deadlocked (close_locks s c m) i d = ground arith
WaitStep-Deadlocked (close_shuts s c o) i d = ground arith
WaitStep-Deadlocked (close_goes_on s c r f p) i d = ground arith
WaitStep-Deadlocked (meets_stream s r) i d = ground arith
WaitStep-Deadlocked (read_loop_locks s r m) i d = ground arith
WaitStep-Deadlocked (read_loop_unlocks s r) i d = ground arith
WaitStep-Deadlocked (read_fails s r c) i d = ground arith
WaitStep-Deadlocked (flush_loop_ends s c) i d = d
WaitStep-Deadlocked (ping_loop_ends s c) i d = d

Waits-Deadlocked : {s t : Goroutines} → Waits s t → IsExclusive s → Deadlocked s → Deadlocked t
Waits-Deadlocked (stays s) i d = d
Waits-Deadlocked (moves step r) i d =
    Waits-Deadlocked r (WaitStep-IsExclusive step i) (WaitStep-Deadlocked step i d)

-- Once the read loop of a connection has come to its lock of `streamsMu` for a STREAM packet while
-- `close` is in `wg.Wait()`, it is so for ever, whatever the goroutines do: `close` never returns.
pub Deadlocked-for_ever :
    (s t : Goroutines) → Waits at_start s → Deadlocked s → Waits s t → Deadlocked t
Deadlocked-for_ever s t r d later =
    Waits-Deadlocked later (Waits-IsExclusive r at_start-IsExclusive) d

-- The steps by which the goroutines of a closed connection end, and `close` with them.
abbrev pub IsEnd : {s t : Goroutines} → WaitStep s t → Type 0
IsEnd (close_goes_on s c r f p) = Unit
IsEnd (read_fails s r c) = Unit
IsEnd (flush_loop_ends s c) = Unit
IsEnd (ping_loop_ends s c) = Unit
IsEnd _ = ⊥

-- A run of at most so many such steps.
abbrev pub OnlyEnds : {s t : Goroutines} → ℕ → Waits s t → Type 0
OnlyEnds n (stays s) = Unit
OnlyEnds zero (moves step r) = ⊥
OnlyEnds (suc n) (moves step r) = IsEnd step × OnlyEnds n r

OnlyEnds-suc : {s t : Goroutines} (n : ℕ) (run : Waits s t) → OnlyEnds n run → OnlyEnds (suc n) run
OnlyEnds-suc n (stays s) h = tt
OnlyEnds-suc zero (moves step r) h = absurd h
OnlyEnds-suc (suc n) (moves step r) (e, h) = (e, OnlyEnds-suc n r h)

-- No STREAM packet is met on the way.
abbrev pub MeetsNoStream : {s t : Goroutines} → Waits s t → Type 0
MeetsNoStream (stays s) = Unit
MeetsNoStream (moves (meets_stream s r) later) = ⊥
MeetsNoStream (moves step later) = MeetsNoStream later

-- `close` comes to its end with no more than the ends of the goroutines.
abbrev pub CanEnd : ℕ → Goroutines → Type 0
CanEnd n s =
    (t : Goroutines) × (run : Waits s t) × OnlyEnds n run
    × (t.close_call ≡ at_end)
    × (t.closed ≡ true)

gone-CanEnd :
    (s : Goroutines) → s.close_call ≡ in_wait → s.closed ≡ true → s.read_loop ≡ gone → CanEnd 3 s
gone-CanEnd s w c g =
    let t = record s { flush_loop_gone = true } in
    let u = record t { ping_loop_gone = true } in
    let v = record u { close_call = at_end; streams_mu = nobody } in
    (
      v,
      moves (flush_loop_ends s c)
          (moves (ping_loop_ends t c) (moves (close_goes_on u w g refl refl) (stays v))),
      (tt, (tt, (tt, tt))),
      refl,
      c,
    )

-- `close` has come to its wait, and the read loop is not at its lock.
abbrev IsCalm : Goroutines → Type 0
IsCalm s = (s.close_call ≡ at_end) ⊎ ((s.close_call ≡ in_wait) × (s.read_loop ≢ at_lock))

ReadLoop-cases : (r : ReadLoop) → (r ≡ at_work) ⊎ (r ≡ at_lock) ⊎ (r ≡ with_lock) ⊎ (r ≡ gone)
ReadLoop-cases at_work = inl refl
ReadLoop-cases at_lock = inr (inl refl)
ReadLoop-cases with_lock = inr (inr (inl refl))
ReadLoop-cases gone = inr (inr (inr refl))

calm-CanEnd : (s : Goroutines) → IsExclusive s → IsCalm s → CanEnd 4 s
calm-CanEnd s i (inl e) = (s, stays s, tt, e, ground (arith, i.flag_set, e))
calm-CanEnd s i (inr (w, calm)) =
    let c : s.closed ≡ true = ground (arith, i.flag_set, w) in
    elim (ReadLoop-cases s.read_loop) [
      | inl working ↦
          let u = record s { read_loop = gone } in
          let (t, run, few, end, flag) = gone-CanEnd u w c refl in
          (t, moves (read_fails s working c) run, (tt, few), end, flag)
      | inr (inl h) ↦ absurd (calm h)
      | inr (inr (inl h)) ↦ absurd (ground (arith, i.one, h, w))
      | inr (inr (inr g)) ↦
          let (t, run, few, end, flag) = gone-CanEnd s w c g in
          (t, run, OnlyEnds-suc 3 run few, end, flag)
    ]

WaitStep-IsCalm :
    {s t u : Goroutines} (step : WaitStep s t) (later : Waits t u)
    → MeetsNoStream (moves step later)
    → IsCalm s
    → IsCalm t × MeetsNoStream later
WaitStep-IsCalm (close_locks s c m) later q i = (ground arith, q)
WaitStep-IsCalm (close_shuts s c o) later q i = (ground arith, q)
WaitStep-IsCalm (close_goes_on s c r f p) later q i = (inl refl, q)
WaitStep-IsCalm (meets_stream s r) later q i = absurd q
WaitStep-IsCalm (read_loop_locks s r m) later q i = (ground arith, q)
WaitStep-IsCalm (read_loop_unlocks s r) later q i = (ground arith, q)
WaitStep-IsCalm (read_fails s r c) later q i = (ground arith, q)
WaitStep-IsCalm (flush_loop_ends s c) later q i = (i, q)
WaitStep-IsCalm (ping_loop_ends s c) later q i = (i, q)

Waits-IsCalm : {s u : Goroutines} (later : Waits s u) → MeetsNoStream later → IsCalm s → IsCalm u
Waits-IsCalm (stays s) q i = i
Waits-IsCalm (moves step later) q i =
    let (j, r) = WaitStep-IsCalm step later q i in Waits-IsCalm later r j

-- If the read loop is not at that lock when `close` waits, then, whatever the goroutines do from there
-- on without meeting a STREAM packet, `close` has come to its end, or can still come to it by at most
-- four steps, each of which is the end of one of the three goroutines or of the wait.
pub close_ends :
    (s u : Goroutines)
    → Waits at_start s
    → s.close_call ≡ in_wait
    → s.read_loop ≢ at_lock
    → (later : Waits s u) → MeetsNoStream later
    → CanEnd 4 u
close_ends s u r w calm later quiet =
    calm-CanEnd u (Waits-IsExclusive later (Waits-IsExclusive r at_start-IsExclusive))
      (Waits-IsCalm later quiet (inr (w, calm)))
