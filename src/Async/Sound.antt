-- ===== src/Async/Sound.antt =====
-- The state of async.go and stream.go, and what every call keeps of it.
pub mod Places
pub mod Parts
pub mod Streams
pub mod Steps
pub mod Calls
pub mod Reads
pub mod Deliver
pub mod Kept
mod Examples
use frisbee_go.Prelude.{
  ℕ, ◌≡◌, ◌∙◌, refl, inl, inr, Bool-cases, arith, Bool, true, false, Option, none, some, List, [],
}
use frisbee_go.Packet.{Packet}
use frisbee_go.Queue.{QueueOps}
use frisbee_go.Async.State.{Stream, Async, find_stream, at}

module _ {Buffer Queue : Type 0} ⦃qs : QueueOps Queue (Packet Buffer)⦄ where
  -- A stream that is open has nothing left over, and its queue takes packets; the queue of one that
  -- is closed is shut and empty.
  pub record IsSoundStream (t : Stream Buffer Queue) : Type 0 where
    pub while_open : t.closed ≡ false → (t.stale ≡ []) × (qs.is_shut t.queue ≡ false)
    pub when_closed : t.closed ≡ true → (qs.is_shut t.queue ≡ true) × (qs.contents t.queue ≡ [])

  -- The table points to streams, by their identifiers; the streams are sound; and a connection that
  -- is open has nothing left over, its channels are open and its queue takes packets, while the
  -- channels of one that is closed are closed, and its queue is shut and empty.
  pub record IsSound (c : Async Buffer Queue) : Type 0 where
    pub table :
        (id s : ℕ)
        → find_stream id c.streams ≡ some s
        → (t : Stream Buffer Queue) × (at s c.heap ≡ some t) × (t.id ≡ id)
    pub sound_streams : (s : ℕ) (t : Stream Buffer Queue) → at s c.heap ≡ some t → IsSoundStream t
    pub while_open :
        c.link.closed ≡ false
        → (c.channels_closed ≡ false) × (c.stale ≡ []) × (qs.is_shut c.incoming ≡ false)
    pub when_closed :
        c.link.closed ≡ true
        → (c.channels_closed ≡ true)
          × (qs.is_shut c.incoming ≡ true)
          × (qs.contents c.incoming ≡ [])

  -- The same, but for a `close` that may have set the flag and not yet closed the channels: what
  -- holds before its compare-and-swap holds until it closes them.
  pub record IsSteady (c : Async Buffer Queue) : Type 0 where
    pub table :
        (id s : ℕ)
        → find_stream id c.streams ≡ some s
        → (t : Stream Buffer Queue) × (at s c.heap ≡ some t) × (t.id ≡ id)
    pub sound_streams : (s : ℕ) (t : Stream Buffer Queue) → at s c.heap ≡ some t → IsSoundStream t
    pub flag_first : c.channels_closed ≡ true → c.link.closed ≡ true
    pub while_open : c.channels_closed ≡ false → (c.stale ≡ []) × (qs.is_shut c.incoming ≡ false)
    pub when_closed :
        c.channels_closed ≡ true → (qs.is_shut c.incoming ≡ true) × (qs.contents c.incoming ≡ [])

  -- No `close` is under way.
  abbrev pub IsTight : Async Buffer Queue → Type 0
  IsTight c = c.link.closed ≡ true → c.channels_closed ≡ true

  pub tight-IsSound : (c : Async Buffer Queue) → IsSteady c → IsTight c → IsSound c
  tight-IsSound c i tight = record {
    table = i.table;
    sound_streams = i.sound_streams;
    while_open = λ o. elim (Bool-cases c.channels_closed) [
      | inl e ↦ absurd (ground (arith, i.flag_first e, o))
      | inr e ↦ let (x, y) = i.while_open e in (e, x, y)
    ];
    when_closed = λ z. let (x, y) = i.when_closed (tight z) in (tight z, x, y);
  }

  -- Pointers to streams stay valid, streams keep their identifiers, and what is closed stays closed.
  pub record Keeps (c d : Async Buffer Queue) : Type 0 where
    pub streams :
        (s : ℕ) (t : Stream Buffer Queue)
        → at s c.heap ≡ some t
        → (u : Stream Buffer Queue) × (at s d.heap ≡ some u)
          × (u.id ≡ t.id)
          × (t.closed ≡ true → u.closed ≡ true)
    pub connection : c.link.closed ≡ true → d.link.closed ≡ true

  -- What a step keeps; `met` says whether it may find that another goroutine is about to close the
  -- connection.
  pub record Evolves (met : Bool) (c d : Async Buffer Queue) : Type 0 where
    pub keeps : Keeps c d
    pub steady : IsSteady c → IsSteady d
    pub tight : met ≡ false → IsTight c → IsTight d

  pub Evolves-refl : {met : Bool} (c : Async Buffer Queue) → Evolves met c c
  Evolves-refl c = record {
    keeps = record { streams = λ s t h. (t, h, refl, λ z. z); connection = λ z. z };
    steady = λ i. i;
    tight = λ n t. t;
  }

  pub Evolves-trans :
      {met : Bool} {c d e : Async Buffer Queue}
      → Evolves met c d
      → Evolves met d e
      → Evolves met c e
  Evolves-trans x y = record {
    keeps = record {
      streams = λ s t h.
          let (u, at_u, same, shut) = x.keeps.streams s t h in
          let (v, at_v, same', shut') = y.keeps.streams s u at_u in
          (v, at_v, same' ∙ same, λ z. shut' (shut z));
      connection = λ z. y.keeps.connection (x.keeps.connection z);
    };
    steady = λ i. y.steady (x.steady i);
    tight = λ n t. y.tight n (x.tight n t);
  }

  pub Evolves-met : {met : Bool} {c d : Async Buffer Queue} → Evolves met c d → Evolves true c d
  Evolves-met x = record {
    keeps = x.keeps;
    steady = x.steady;
    tight = λ n. absurd (ground (arith, n));
  }
