-- ===== src/Server/Limited/Bounds.antt =====
-- How many goroutines `handleLimitedPacket` of server.go has at work, and how often it calls
-- `onClosed`.
use frisbee_go.Prelude.{
  ℕ, ◌+◌, ◌≤◌, ◌≡◌, refl, sym, Option, none, some, List, [], ◌∷◌, ◌++◌, subst, arith,
}
use frisbee_go.Errors.{Error}
use frisbee_go.Packet.{BufferOps}
use frisbee_go.Server.{Handler}
use frisbee_go.Server.Workers.{Worker, ready, closing, finished, in_wait, Serving, tell}
use frisbee_go.Server.Workers.Invariant.{closing≢finished, ready≢finished}
use frisbee_go.Server.Limited.{
  Limited, busy, through, LimitedStep, reads_one, starts, sees_cancel, read_fails, handles_one,
  tells_one, releases, others_take, others_release, is_cancelled, goes_home, Runs, rests, moves,
  new_limited,
}

busy_and_through :
    {Buffer : Type 0} (before after : List (Worker Buffer)) (w : Worker Buffer)
    → (busy (before ++ w ∷ after) ≡ busy before + busy (w ∷ after))
      × (through (before ++ w ∷ after) ≡ through before + through (w ∷ after))
busy_and_through [] after w = omega arith
busy_and_through (ready p x ∷ before) after w = omega (arith, busy_and_through before after w)
busy_and_through (closing r ∷ before) after w = omega (arith, busy_and_through before after w)
busy_and_through (finished ∷ before) after w = omega (arith, busy_and_through before after w)

-- One place for each goroutine that has not given its own back.
pub record HasPlaces {Buffer : Type 0} (concurrency places elsewhere released : ℕ)
    (workers : List (Worker Buffer)) : Type 0 where
  pub counted : places + released ≡ elsewhere + busy workers + through workers
  pub given_back : released ≤ through workers
  pub within : places ≤ concurrency

abbrev pub PlacesFit : {Buffer : Type 0} → ℕ → Limited Buffer → Type 0
PlacesFit concurrency s = HasPlaces concurrency s.places s.elsewhere s.released s.serving.workers

tell-workers :
    {Buffer : Type 0} (reason : Option Error) (s : Serving Buffer)
    → (tell reason s).workers ≡ s.workers
unfolding tell
tell-workers reason s = ground arith

-- A goroutine that was at work is still, or is through.
one_worker :
    {Buffer : Type 0} (c places elsewhere released : ℕ) (before after : List (Worker Buffer))
    (v w : Worker Buffer)
    → (v ≡ finished → ⊥)
    → HasPlaces c places elsewhere released (before ++ v ∷ after)
    → HasPlaces c places elsewhere released (before ++ w ∷ after)
one_worker c places elsewhere released before after finished w at_work i = absurd (at_work refl)
one_worker c places elsewhere released before after v finished at_work i = omega (
  arith,
  i.counted,
  i.given_back,
  i.within,
  busy_and_through before after v,
  busy_and_through before after finished,
)
one_worker c places elsewhere released before after v (ready q y) at_work i = omega (
  arith,
  i.counted,
  i.given_back,
  i.within,
  busy_and_through before after v,
  busy_and_through before after (ready q y),
)
one_worker c places elsewhere released before after v (closing r) at_work i = omega (
  arith,
  i.counted,
  i.given_back,
  i.within,
  busy_and_through before after v,
  busy_and_through before after (closing r),
)

module _ {Buffer : Type 0} ⦃ops : BufferOps Buffer⦄ (table : List (ℕ × Handler Buffer))
    (concurrency : ℕ) where
  LimitedStep-PlacesFit :
      {s t : Limited Buffer}
      → LimitedStep table concurrency s t
      → PlacesFit concurrency s
      → PlacesFit concurrency t
  LimitedStep-PlacesFit (reads_one s p write l h) i = i
  LimitedStep-PlacesFit (starts s p write l h room) i = record {
    counted = omega (arith, i.counted);
    given_back = i.given_back;
    within = omega arith;
  }
  LimitedStep-PlacesFit (sees_cancel s p write l h c) i =
      subst (HasPlaces concurrency s.places s.elsewhere s.released)
        (sym (tell-workers none (record (s.serving) { loop = in_wait }))) i
  LimitedStep-PlacesFit (read_fails s e l h) i =
      subst (HasPlaces concurrency s.places s.elsewhere s.released)
        (sym (tell-workers (some e) (record (s.serving) { loop = in_wait }))) i
  LimitedStep-PlacesFit (handles_one s before after p write e) i =
      one_worker concurrency s.places s.elsewhere s.released before after (ready p write) _
        (ready≢finished p write) (subst (HasPlaces concurrency s.places s.elsewhere s.released) e i)
  LimitedStep-PlacesFit (tells_one s before after reason e) i =
      subst (HasPlaces concurrency s.places s.elsewhere s.released)
        (sym (tell-workers reason (record (s.serving) { workers = before ++ finished ∷ after })))
        (one_worker concurrency s.places s.elsewhere s.released before after (closing reason)
          finished (closing≢finished reason (closing reason) refl)
          (subst (HasPlaces concurrency s.places s.elsewhere s.released) e i))
  LimitedStep-PlacesFit (releases s h) i = omega (arith, i.counted, i.given_back, i.within)
  LimitedStep-PlacesFit (others_take s h) i = omega (arith, i.counted, i.given_back, i.within)
  LimitedStep-PlacesFit (others_release s h) i = omega (arith, i.counted, i.given_back, i.within)
  LimitedStep-PlacesFit (is_cancelled s) i = i
  LimitedStep-PlacesFit (goes_home s l all) i = i

  Runs-PlacesFit :
      {s t : Limited Buffer}
      → Runs table concurrency s t
      → PlacesFit concurrency s
      → PlacesFit concurrency t
  Runs-PlacesFit (rests s) i = i
  Runs-PlacesFit (moves r step) i = LimitedStep-PlacesFit step (Runs-PlacesFit r i)

  -- On a server whose `limiter` has `concurrency` places, some of them taken by other connections:
  -- whatever the interleaving, the goroutines that a connection has at work on its packets and the
  -- places that the others have are never more than `concurrency` together.
  pub busy-le-concurrency :
      (elsewhere : ℕ) (t : Limited Buffer)
      → elsewhere ≤ concurrency
      → Runs table concurrency (new_limited elsewhere) t
      → t.elsewhere + busy t.serving.workers ≤ concurrency
  busy-le-concurrency elsewhere t few r =
      let i =
        Runs-PlacesFit r
          (record { counted = omega arith; given_back = omega arith; within = few }) in
      omega (arith, i.counted, i.given_back, i.within)
