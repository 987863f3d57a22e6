-- ===== src/Server/Workers/Invariant.antt =====
-- How often `onClosed` is called by the goroutines of one connection of server.go.
use frisbee_go.Prelude.{
  ◌≡◌, refl, ap, sym, ◌∙◌, inl, inr, true, Option, List, [], ◌∷◌, ◌++◌, All, subst, arith,
}
use frisbee_go.Errors.{Error}
use frisbee_go.Server.{Pointer}
use frisbee_go.Server.Workers.{
  Worker, ready, closing, finished, Loop, reading, in_wait, has_returned, Serving, tell, ToldOnce,
  LoopFits,
}

tell-ToldOnce :
    {Buffer : Type 0} (reason : Option Error) (s : Serving Buffer)
    → ToldOnce s
    → ToldOnce (tell reason s)
      × ((tell reason s).closed ≡ true)
      × ((tell reason s).loop ≡ s.loop)
      × ((tell reason s).workers ≡ s.workers)
unfolding tell
tell-ToldOnce reason s (inl (o, e)) =
    rw (o, tell) (inr (refl, reason, ap (λ t. t ++ reason ∷ []) e), refl, refl, refl)
tell-ToldOnce reason s (inr (c, r, e)) = rw (c, tell) (inr (refl, r, e), refl, refl, refl)

in_middle :
    {Buffer : Type 0} (before after : List (Worker Buffer)) (w : Worker Buffer)
    → All (λ v. v ≡ finished) (before ++ w ∷ after)
    → w ≡ finished
in_middle [] after w (e, rest) = e
in_middle (v ∷ before) after w (e, rest) = in_middle before after w rest

module _ {Buffer : Type 0} where
  abbrev pub Holds : Serving Buffer → Type 0
  Holds s = ToldOnce s × LoopFits s.loop s

  -- A goroutine that goes on keeps it: the loop cannot have returned.
  pub working-Holds :
      (s : Serving Buffer) (before after : List (Worker Buffer)) (v w : Worker Buffer)
      → (v ≡ finished → ⊥)
      → s.workers ≡ before ++ v ∷ after
      → Holds s
      → Holds (record s { workers = before ++ w ∷ after })
  working-Holds s before after v w busy e (told, fits) = (told, by_loop s.loop fits)
    where
      by_loop : (l : Loop) → LoopFits l s → LoopFits l (record s { workers = before ++ w ∷ after })
      by_loop reading f = tt {0}
      by_loop in_wait f = f
      by_loop has_returned (c, all) =
          absurd (busy (in_middle before after v (subst (All (λ v. v ≡ finished)) e all)))

  closed-LoopFits :
      (l : Loop) (s : Serving Buffer)
      → s.closed ≡ true
      → (l ≡ has_returned → All (λ v. v ≡ finished) s.workers)
      → LoopFits l s
  closed-LoopFits reading s c all = tt {0}
  closed-LoopFits in_wait s c all = c
  closed-LoopFits has_returned s c all = (c, all refl)

  pub LoopFits-in_wait :
      (l : Loop) (s : Serving Buffer) → l ≡ in_wait → LoopFits l s → s.closed ≡ true
  LoopFits-in_wait reading s e f = absurd (ground (arith, e))
  LoopFits-in_wait in_wait s e f = f
  LoopFits-in_wait has_returned s e f = f.0

  pub LoopFits-returned :
      (l : Loop) (s : Serving Buffer)
      → l ≡ has_returned
      → LoopFits l s
      → All (λ v. v ≡ finished) s.workers
  LoopFits-returned reading s e f = absurd (ground (arith, e))
  LoopFits-returned in_wait s e f = absurd (ground (arith, e))
  LoopFits-returned has_returned s e f = f.1

  pub reading-LoopFits : (l : Loop) (s : Serving Buffer) → l ≡ reading → LoopFits l s
  reading-LoopFits l s e = subst (λ k. LoopFits k s) (sym e) (tt {0})

  pub closing≢finished :
      (reason : Option Error) (w : Worker Buffer) → w ≡ closing reason → w ≡ finished → ⊥
  closing≢finished reason w c e = absurd (ground (arith, c, e))

  pub ready≢finished : (p : Pointer Buffer) (write : Option Error) → ready p write ≡ finished → ⊥
  ready≢finished p write e = absurd (ground (arith, e))

  pub tell-Holds :
      (reason : Option Error) (s : Serving Buffer)
      → ToldOnce s
      → (s.loop ≡ has_returned → All (λ v. v ≡ finished) s.workers)
      → Holds (tell reason s)
  tell-Holds reason s told all =
      let (once, closed, same, workers) = tell-ToldOnce reason s told in
      (
        once,
        closed-LoopFits (tell reason s).loop (tell reason s) closed
            (λ e. subst (All (λ v. v ≡ finished)) (sym workers) (all (sym same ∙ e))),
      )
