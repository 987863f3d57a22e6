-- ===== src/Concrete.antt =====
-- A concrete packet buffer, for the tests: a list of bytes, which meets the laws of the interface.
use frisbee_go.Prelude.{
  ℕ, ◌+◌, ◌≡◌, refl, Bool, true, false, if◌then◌else◌, Option, none, some, List, [], ◌∷◌, ◌++◌,
  length, drop, replicate, length-append, length-replicate, arith,
}
use frisbee_go.Errors.{Error, external}
use frisbee_go.Packet.{BufferOps, Packet}
use frisbee_go.Queue.{QueueOps, Popped, pops, pop_waits, pop_fails}

pub length-extended : (b : List ℕ) (n : ℕ) → length (b ++ replicate n 0) ≡ length b + n
length-extended b n = omega (arith, length-append b (replicate n 0), length-replicate {A = ℕ} n 0)

instance abbrev pub list_buffer : BufferOps (List ℕ)
list_buffer = record {
  new_buffer = [];
  reset = λ b. [];
  bytes = λ b. b;
  len = λ b. length b;
  write = λ b bs. (b ++ bs, length bs);
  grow = λ b n. b;
  move_offset = λ b n. b ++ replicate n 0;
  fill = λ b bs. bs ++ drop (length bs) b;
  bytes-new_buffer = refl;
  bytes-reset = λ b. refl;
  len-bytes = λ b. refl;
  bytes-write = λ b bs. refl;
  count-write = λ b bs. refl;
  bytes-grow = λ b n. refl;
  length-move_offset = length-extended;
  bytes-fill = λ b bs h. refl;
}

-- A packet with a given operation and content.
abbrev pub packet : ℕ → ℕ → List ℕ → Packet (List ℕ)
packet id operation content = record {
  metadata = record { magic = 0; id = id; operation = operation; content_length = length content };
  content = content;
}

abbrev pub queue_closed : Error
queue_closed = external 1

-- A concrete queue: the list of what it holds, and whether it is closed.
pub record ListQueue (A : Type 0) : Type 0 where
  pub items : List A
  pub shut : Bool

module _ {A : Type 0} where
  abbrev pub push_item : ListQueue A → A → ListQueue A × Option Error
  push_item q a =
      if q.shut then (q, some queue_closed) else (record q { items = q.items ++ a ∷ [] }, none)

  abbrev pub pop_item : ListQueue A → Popped (ListQueue A) A
  pop_item q =
      if q.shut
      then pop_fails queue_closed
      else elim q.items [ [] ↦ pop_waits | a ∷ rest ↦ pops (record q { items = rest }) a ]

  pub push_item-open :
      (q : ListQueue A) (a : A)
      → q.shut ≡ false
      → ((push_item q a).1 ≡ none)
        × ((push_item q a).0.items ≡ q.items ++ a ∷ [])
        × ((push_item q a).0.shut ≡ false)
  push_item-open q a h = ground (arith, h)

  pub push_item-shut :
      (q : ListQueue A) (a : A)
      → q.shut ≡ true
      → ((push_item q a).1 ≡ some queue_closed)
        × ((push_item q a).0.items ≡ q.items)
        × ((push_item q a).0.shut ≡ true)
  push_item-shut q a h = ground (arith, h)

  pub pop_item-shut : (q : ListQueue A) → q.shut ≡ true → pop_item q ≡ pop_fails queue_closed
  pop_item-shut q h = ground (arith, h)

  pub pop_item-empty : (q : ListQueue A) → q.shut ≡ false → q.items ≡ [] → pop_item q ≡ pop_waits
  pop_item-empty q h e = ground (arith, h, e)

  pub pop_item-next :
      (q : ListQueue A) (a : A) (rest : List A)
      → q.shut ≡ false
      → q.items ≡ a ∷ rest
      → (r : ListQueue A) × (pop_item q ≡ pops r a) × (r.items ≡ rest) × (r.shut ≡ false)
  pop_item-next q a rest h e = (record q { items = rest }, ground (arith, h, e), refl, h)

  instance abbrev pub list_queue : QueueOps (ListQueue A) A
  list_queue = record {
    new_queue = record { items = []; shut = false };
    push = push_item;
    pop = pop_item;
    shut = λ q. record q { shut = true };
    drain = λ q. (record q { items = [] }, q.items);
    contents = λ q. q.items;
    is_shut = λ q. q.shut;
    shut_error = queue_closed;
    contents-new_queue = refl;
    is_shut-new_queue = refl;
    push_open = push_item-open;
    push_shut = push_item-shut;
    pop_shut = pop_item-shut;
    pop_empty = pop_item-empty;
    pop_next = pop_item-next;
    contents-shut = λ q. refl;
    is_shut-shut = λ q. refl;
    drain_all = λ q. refl;
    is_shut-drain = λ q. refl;
    contents-drain = λ q. refl;
  }
