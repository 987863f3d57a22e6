-- ===== src/Queue.antt =====
-- The queue of github.com/loopholelabs/common, which is not part of the repository: an interface,
-- with what the code relies on as laws. A queue holds its packets in order until it is closed;
-- then `Push` and `Pop` fail, and `Drain` still hands out what it holds. Each call is taken at the
-- moment when it does not have to wait.
use frisbee_go.Prelude.{◌≡◌, Bool, true, false, Option, none, some, List, [], ◌∷◌, ◌++◌}
use frisbee_go.Errors.{Error}

pub data Popped (Queue A : Type 0) : Type 0 where
  pops : Queue → A → Popped Queue A
  pop_waits : Popped Queue A
  pop_fails : Error → Popped Queue A

pub record QueueOps (Queue A : Type 0) : Type 0 where
  pub new_queue : Queue
  pub push : Queue → A → Queue × Option Error
  pub pop : Queue → Popped Queue A
  pub shut : Queue → Queue
  pub drain : Queue → Queue × List A
  pub contents : Queue → List A
  pub is_shut : Queue → Bool
  pub shut_error : Error
  pub contents-new_queue : contents new_queue ≡ []
  pub is_shut-new_queue : is_shut new_queue ≡ false
  pub push_open :
      (q : Queue) (a : A)
      → is_shut q ≡ false
      → ((push q a).1 ≡ none)
        × (contents (push q a).0 ≡ contents q ++ a ∷ [])
        × (is_shut (push q a).0 ≡ false)
  pub push_shut :
      (q : Queue) (a : A)
      → is_shut q ≡ true
      → ((push q a).1 ≡ some shut_error)
        × (contents (push q a).0 ≡ contents q)
        × (is_shut (push q a).0 ≡ true)
  pub pop_shut : (q : Queue) → is_shut q ≡ true → pop q ≡ pop_fails shut_error
  pub pop_empty : (q : Queue) → is_shut q ≡ false → contents q ≡ [] → pop q ≡ pop_waits
  pub pop_next :
      (q : Queue) (a : A) (rest : List A)
      → is_shut q ≡ false
      → contents q ≡ a ∷ rest
      → (r : Queue) × (pop q ≡ pops r a) × (contents r ≡ rest) × (is_shut r ≡ false)
  pub contents-shut : (q : Queue) → contents (shut q) ≡ contents q
  pub is_shut-shut : (q : Queue) → is_shut (shut q) ≡ true
  pub drain_all : (q : Queue) → (drain q).1 ≡ contents q
  pub is_shut-drain : (q : Queue) → is_shut (drain q).0 ≡ is_shut q
  pub contents-drain : (q : Queue) → contents (drain q).0 ≡ []
