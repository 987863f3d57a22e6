-- ===== src/Conn.antt =====
-- net.Conn, as what the network does to the calls of `Read` and `Write`: the reads that will
-- succeed or fail, in order, and the writes that will fail. When no read is left, `Read` blocks;
-- when no outcome of a write is left, `Write` succeeds.
pub mod Stream
use frisbee_go.Prelude.{
  ℕ, ◌-◌, Bool, true, Option, none, some, List, [], ◌∷◌, ◌++◌, leb, if◌then◌else◌, length, take,
  drop,
}
use frisbee_go.Errors.{Error, eof, unexpected_eof}

-- What has arrived for one `Read`: bytes, or bytes together with an error. A `Read` into a slice
-- that is too short takes the front and leaves the rest to the next `Read`.
pub data ReadEvent : Type 0 where
  chunk : List ℕ → ReadEvent
  failure : List ℕ → Error → ReadEvent

pub record Conn : Type 0 where
  pub reads : List ReadEvent
  -- `none`: the whole slice is taken. `some (n, e)`: `n` bytes are taken, and the error is `e`.
  pub writes : List (Option (ℕ × Error))
  pub sent : List ℕ
  pub is_closed : Bool

-- `conn.Write(bs)`.
unfoldable pub conn_write : Conn → List ℕ → Conn × Option Error
conn_write c bs = elim c.writes [
  | [] ↦ (record c { sent = c.sent ++ bs }, none)
  | none ∷ later ↦ (record c { sent = c.sent ++ bs; writes = later }, none)
  | some (n, e) ∷ later ↦ (record c { sent = c.sent ++ take n bs; writes = later }, some e)
]

-- `conn.Close()`.
unfoldable pub conn_close : Conn → Conn
conn_close c = record c { is_closed = true }

-- How a loop around `Read` ends: with enough bytes, with an error, or never.
pub data Filled : Type 0 where
  filled : List ℕ → List ReadEvent → Filled
  failed : List ℕ → Error → List ReadEvent → Filled
  blocked : List ℕ → Filled

-- `io.ReadAtLeast(conn, buf, min)` for a slice of length `min`, of which `acc` is filled.
abbrev pub at_end : List ℕ → Error → Error
at_end [] e = e
at_end (b ∷ bs) eof = unexpected_eof
at_end (b ∷ bs) e = e

unfoldable pub read_at_least : ℕ → List ℕ → List ReadEvent → Filled
read_at_least min acc [] = if leb min (length acc) then filled acc [] else blocked acc
read_at_least min acc (chunk bs ∷ later) =
    let room = min - length acc in
    let more = read_at_least min (acc ++ bs) later in
    if leb min (length acc)
    then filled acc (chunk bs ∷ later)
    else if leb (length bs) room
    then more
    else filled (acc ++ take room bs) (chunk (drop room bs) ∷ later)
read_at_least min acc (failure bs e ∷ later) =
    let room = min - length acc in
    if leb min (length acc)
    then filled acc (failure bs e ∷ later)
    else if leb (length bs) room
    then if leb min (length (acc ++ bs))
      then filled (acc ++ bs) later
      else failed (acc ++ bs) (at_end (acc ++ bs) e) later
    else filled (acc ++ take room bs) (failure (drop room bs) e ∷ later)
