-- ===== src/Async/Sound/Parts.antt =====
-- The changes that the calls of async.go and stream.go make to the state, each on its own.
use frisbee_go.Prelude.{
  ℕ, ◌≡◌, refl, sym, ap, ◌∙◌, inl, inr, Bool, true, false, some, List, [], ◌∷◌, Bool-cases, arith,
}
use frisbee_go.Packet.{BufferOps, Packet}
use frisbee_go.Queue.{QueueOps, pops}
use frisbee_go.Async.State.{Link, Async, find_stream, delete_stream, at}
use frisbee_go.Async.Sound.{IsSteady, IsTight, Keeps, Evolves}
use frisbee_go.Async.Sound.Places.{find_stream-delete_stream}

module _ {Buffer Queue : Type 0} ⦃ops : BufferOps Buffer⦄
    ⦃qs : QueueOps Queue (Packet Buffer)⦄ where
  -- The heap stays as it is.
  pub same_heap :
      (c d : Async Buffer Queue)
      → d.heap ≡ c.heap
      → (c.link.closed ≡ true → d.link.closed ≡ true)
      → Keeps c d
  same_heap c d h z = record {
    streams = λ s t e. (t, ap (at s) h ∙ e, refl, λ y. y);
    connection = z;
  }

  -- The streams stay as they are, but for entries that are taken out of the table.
  pub same_streams :
      {met : Bool} (c d : Async Buffer Queue)
      → d.heap ≡ c.heap
      → ((id s : ℕ) → find_stream id d.streams ≡ some s → find_stream id c.streams ≡ some s)
      → (c.link.closed ≡ true → d.link.closed ≡ true)
      → (met ≡ false → IsTight c → IsTight d)
      → (IsSteady c
          → (d.channels_closed ≡ true → d.link.closed ≡ true)
            × (d.channels_closed ≡ false → (d.stale ≡ []) × (qs.is_shut d.incoming ≡ false))
            × (d.channels_closed ≡ true
                → (qs.is_shut d.incoming ≡ true) × (qs.contents d.incoming ≡ [])))
      → Evolves met c d
  same_streams c d h less z tight rest = record {
    keeps = same_heap c d h z;
    steady = λ i. record {
      table = λ id s e.
          let (t, at_t, same) = i.table id s (less id s e) in (t, ap (at s) h ∙ at_t, same);
      sound_streams = λ s t e. i.sound_streams s t (ap (at s) (sym h) ∙ e);
      flag_first = (rest i).0;
      while_open = (rest i).1;
      when_closed = (rest i).2;
    };
    tight = tight;
  }

  -- A link that has been closed stays closed, and only a step that meets another goroutine finds it
  -- closed.
  pub set_link :
      {met : Bool} (c : Async Buffer Queue) (l : Link)
      → (c.link.closed ≡ true → l.closed ≡ true)
      → (met ≡ false → l.closed ≡ c.link.closed)
      → Evolves met c (record c { link = l })
  set_link c l z same =
      same_streams c (record c { link = l }) refl (λ id s e. e) z (λ n t y. t (sym (same n) ∙ y))
        (λ i. ((λ o. z (i.flag_first o)), i.while_open, i.when_closed))

  pub push_incoming-Evolves :
      {met : Bool} (c : Async Buffer Queue) (p : Packet Buffer)
      → Evolves met c (record c { incoming = (qs.push c.incoming p).0 })
  push_incoming-Evolves c p =
      same_streams c (record c { incoming = (qs.push c.incoming p).0 }) refl (λ id s e. e) (λ z. z)
        (λ n t. t)
        (λ i. (
          i.flag_first,
          (λ o. let (x, w) = i.while_open o in (x, (qs.push_open c.incoming p w).2)),
          (λ o.
              let (w, n) = i.when_closed o in
              let (err, same, shut) = qs.push_shut c.incoming p w in (shut, same ∙ n)),
        ))

  -- A `Pop` that succeeds comes from a queue that is open, and leaves it open.
  pub pops_lem :
      (q r : Queue) (p : Packet Buffer)
      → qs.pop q ≡ pops r p
      → (qs.is_shut q ≡ false) × (qs.is_shut r ≡ false)
  pops_lem q r p h = elim (Bool-cases (qs.is_shut q)) [
    | inl e ↦ absurd (ground (arith, qs.pop_shut q e, h))
    | inr e ↦ (e, opened (qs.contents q) refl e)
  ]
    where
      opened :
          (xs : List (Packet Buffer))
          → qs.contents q ≡ xs
          → qs.is_shut q ≡ false
          → qs.is_shut r ≡ false
      opened [] k e = absurd (ground (arith, qs.pop_empty q e k, h))
      opened (x ∷ xs) k e =
          let (r', pop, rest, open_) = qs.pop_next q x xs e k in ground (arith, pop, open_, h)

  pub pop_incoming-Evolves :
      {met : Bool} (c : Async Buffer Queue) (r : Queue) (p : Packet Buffer)
      → qs.pop c.incoming ≡ pops r p
      → Evolves met c (record c { incoming = r })
  pop_incoming-Evolves c r p h =
      let (was, is) = pops_lem c.incoming r p h in
      same_streams c (record c { incoming = r }) refl (λ id s e. e) (λ z. z) (λ n t. t)
        (λ i. (
          i.flag_first,
          (λ o. let (x, w) = i.while_open o in (x, is)),
          (λ o. absurd (ground (arith, (i.when_closed o).0, was))),
        ))

  pub pop_stale-Evolves :
      {met : Bool} (c : Async Buffer Queue) (p : Packet Buffer) (rest : List (Packet Buffer))
      → c.stale ≡ p ∷ rest
      → Evolves met c (record c { stale = rest })
  pop_stale-Evolves c p rest h =
      same_streams c (record c { stale = rest }) refl (λ id s e. e) (λ z. z) (λ n t. t)
        (λ i. (i.flag_first, (λ o. absurd (ground (arith, (i.while_open o).0, h))), i.when_closed))

  -- The part of `close` that closes the channels and empties the queue.
  pub close-Evolves :
      {met : Bool} (c : Async Buffer Queue) (stale : List (Packet Buffer))
      → Evolves met c (record c {
        link = record (c.link) { closed = true };
        incoming = (qs.drain (qs.shut c.incoming)).0;
        stale = stale;
        channels_closed = true;
      })
  close-Evolves c stale =
      same_streams c _ refl (λ id s e. e) (λ z. refl) (λ n t z. refl)
        (λ i. (
          (λ o. refl),
          (λ o. absurd (ground (arith, o))),
          (λ o. (
            qs.is_shut-drain (qs.shut c.incoming) ∙ qs.is_shut-shut c.incoming,
            qs.contents-drain (qs.shut c.incoming),
          )),
        ))

  pub delete-Evolves :
      {met : Bool} (c : Async Buffer Queue) (id : ℕ)
      → Evolves met c (record c { streams = delete_stream id c.streams })
  delete-Evolves c id =
      same_streams c (record c { streams = delete_stream id c.streams }) refl
        (λ j s e. find_stream-delete_stream j id s c.streams e) (λ z. z) (λ n t. t)
        (λ i. (i.flag_first, i.while_open, i.when_closed))
