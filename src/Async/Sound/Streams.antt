-- ===== src/Async/Sound/Streams.antt =====
-- The changes that the calls of async.go and stream.go make to streams and to their table.
use frisbee_go.Prelude.{
  ℕ, ◌≡◌, refl, sym, ap, subst, ◌∙◌, inl, inr, Bool, true, some, [], ◌∷◌, ◌++◌, length, Bool-cases,
  Option-cases, arith,
}
use mathlib.Core.Option.{map, get_or}
use frisbee_go.Packet.{BufferOps, Packet}
use frisbee_go.Queue.{QueueOps}
use frisbee_go.Async.State.{Stream, Async, insert_stream, modify, at}
use frisbee_go.Async.Close.{new_stream, shut_stream}
use frisbee_go.Async.Sound.{IsSoundStream, IsSteady, Evolves}
use frisbee_go.Async.Sound.Places.{
  modify_cases, at-append, snoc_cases, at-last, find_stream-insert_stream,
}

of_some : {A : Type 0} {a b : A} → some a ≡ some b → a ≡ b
of_some {a = a} h = ap (λ o. get_or o a) h

module _ {Buffer Queue : Type 0} ⦃ops : BufferOps Buffer⦄
    ⦃qs : QueueOps Queue (Packet Buffer)⦄ where
  -- A change to one stream.
  pub modify-Evolves :
      {met : Bool} (c : Async Buffer Queue) (s : ℕ) (f : Stream Buffer Queue → Stream Buffer Queue)
      → ((t : Stream Buffer Queue) → (f t).id ≡ t.id)
      → ((t : Stream Buffer Queue) → t.closed ≡ true → (f t).closed ≡ true)
      → ((t : Stream Buffer Queue) → IsSoundStream t → IsSoundStream (f t))
      → Evolves met c (record c { heap = modify s f c.heap })
  modify-Evolves c s f same shut sound = record {
    keeps = record { streams = kept; connection = λ z. z };
    steady = λ i. record {
      table = λ id r e.
          let (t, at_t, is) = i.table id r e in
          let (u, at_u, is_u, z) = kept r t at_t in (u, at_u, is_u ∙ is);
      sound_streams = still i;
      flag_first = i.flag_first;
      while_open = i.while_open;
      when_closed = i.when_closed;
    };
    tight = λ n t. t;
  }
    where
      kept :
          (r : ℕ) (t : Stream Buffer Queue)
          → at r c.heap ≡ some t
          → (u : Stream Buffer Queue) × (at r (modify s f c.heap) ≡ some u)
            × (u.id ≡ t.id)
            × (t.closed ≡ true → u.closed ≡ true)
      kept r t e = elim (modify_cases r s f c.heap) [
        | inl h ↦ (f t, h ∙ ap (map f) e, same t, shut t)
        | inr h ↦ (t, h ∙ e, refl, λ z. z)
      ]

      still :
          IsSteady c
          → (r : ℕ) (u : Stream Buffer Queue) → at r (modify s f c.heap) ≡ some u
          → IsSoundStream u
      still i r u e = elim (modify_cases r s f c.heap) [
        | inr h ↦ i.sound_streams r u (sym h ∙ e)
        | inl h ↦ elim (Option-cases (at r c.heap)) [
          | inl n ↦ absurd (ground (arith, ap (map f) n, h, e))
          | inr (t, k) ↦
              subst IsSoundStream (of_some (sym (h ∙ ap (map f) k) ∙ e))
                (sound t (i.sound_streams r t k))
        ]
      ]

  abbrev fresh : ℕ → Stream Buffer Queue
  fresh id = new_stream id

  new_stream-IsSound : (id : ℕ) → IsSoundStream (fresh id)
  unfolding new_stream
  new_stream-IsSound id = record {
    while_open = λ o. (refl, qs.is_shut-new_queue);
    when_closed = λ z. absurd (ground (arith, z));
  }

  pub shut_stream-IsSound :
      (t : Stream Buffer Queue) → IsSoundStream t → IsSoundStream (shut_stream t)
  unfolding shut_stream
  shut_stream-IsSound t i = record {
    while_open = λ o. absurd (ground (arith, o));
    when_closed = λ z. elim (Bool-cases t.closed) [
      | inl e ↦ let (a, b) = i.when_closed e in (ground (arith, e, a), ground (arith, e, b))
      | inr e ↦ (
        ground (arith, e, qs.is_shut-drain (qs.shut t.queue), qs.is_shut-shut t.queue),
        ground (arith, e, qs.contents-drain (qs.shut t.queue)),
      )
    ];
  }

  -- A new stream, with its place in the table.
  pub append-Evolves :
      {met : Bool} (c : Async Buffer Queue) (id : ℕ)
      → Evolves met c (record c {
        heap = c.heap ++ new_stream id ∷ [];
        streams = insert_stream id (length c.heap) c.streams;
      })
  unfolding new_stream
  append-Evolves c id = record {
    keeps = record {
      streams = λ s t e. (t, at-append s c.heap (new_stream id ∷ []) e, refl, λ z. z);
      connection = λ z. z;
    };
    steady = λ i. record {
      table = λ j s e. elim (find_stream-insert_stream j id (length c.heap) s c.streams e) [
        | inl (k, h) ↦ (
          new_stream id,
          ap (λ r. at r (c.heap ++ new_stream id ∷ [])) h ∙ at-last c.heap (new_stream id),
          sym k,
        )
        | inr h ↦
            let (t, at_t, same) = i.table j s h in
            (t, at-append s c.heap (new_stream id ∷ []) at_t, same)
      ];
      sound_streams = λ s t e. elim (snoc_cases s c.heap (new_stream id) e) [
        | inl h ↦ i.sound_streams s t h
        | inr h ↦ subst IsSoundStream (sym h) (new_stream-IsSound id)
      ];
      flag_first = i.flag_first;
      while_open = i.while_open;
      when_closed = i.when_closed;
    };
    tight = λ n t. t;
  }
