-- ===== src/Async/State.antt =====
-- The state of the asynchronous connection of async.go and of the streams of stream.go. Streams are
-- shared: the connection's table, the read loop and the program hold pointers to them, which are
-- their places in `heap`. Handlers of new streams are numbered.
use frisbee_go.Prelude.{ℕ, zero, suc, Bool, Option, none, some, List, [], ◌∷◌, ◌==◌, if◌then◌else◌}
use frisbee_go.Errors.{Error}
use frisbee_go.Packet.{Packet}
use frisbee_go.Bufio.{Writer}

-- What the write path needs: the buffered writer over the net.Conn, what `SetWriteDeadline` will
-- return (nil when nothing is left), and the number of tokens in `flushCh`.
pub record Link : Type 0 where
  pub writer : Writer
  pub deadlines : List (Option Error)
  pub closed : Bool
  pub flush_tokens : ℕ

pub record Stream (Buffer Queue : Type 0) : Type 0 where
  pub id : ℕ
  pub closed : Bool
  pub queue : Queue
  pub stale : List (Packet Buffer)

pub record Async (Buffer Queue : Type 0) : Type 0 where
  pub link : Link
  pub incoming : Queue
  pub stale : List (Packet Buffer)
  pub error : Option Error
  pub channels_closed : Bool
  pub heap : List (Stream Buffer Queue)
  pub streams : List (ℕ × ℕ)
  pub new_stream_handler : Option ℕ
  -- The goroutines that were started for new streams: which handler, on which stream.
  pub started : List (ℕ × ℕ)
  -- What the next calls of `packet.Get` find in the pool; nothing, when the list is empty.
  pub pool : List (Option (Packet Buffer))

-- A Go map from identifiers to streams.
unfoldable pub find_stream : ℕ → List (ℕ × ℕ) → Option ℕ
find_stream id [] = none
find_stream id ((i, s) ∷ rest) = if i == id then some s else find_stream id rest

unfoldable pub delete_stream : ℕ → List (ℕ × ℕ) → List (ℕ × ℕ)
delete_stream id [] = []
delete_stream id ((i, s) ∷ rest) =
    if i == id then delete_stream id rest else (i, s) ∷ delete_stream id rest

unfoldable pub insert_stream : ℕ → ℕ → List (ℕ × ℕ) → List (ℕ × ℕ)
unfolding delete_stream
insert_stream id s table = (id, s) ∷ delete_stream id table

module _ {ℓ} {A : Type ℓ} where
  -- A change to the object that a pointer stands for.
  unfoldable pub modify : ℕ → (A → A) → List A → List A
  modify i f [] = []
  modify zero f (x ∷ xs) = f x ∷ xs
  modify (suc i) f (x ∷ xs) = x ∷ modify i f xs

  unfoldable pub at : ℕ → List A → Option A
  at i [] = none
  at zero (x ∷ xs) = some x
  at (suc i) (x ∷ xs) = at i xs
