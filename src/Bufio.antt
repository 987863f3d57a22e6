-- ===== src/Bufio.antt =====
-- bufio.Writer of the Go library, over a net.Conn, as far as the code uses it: bytes are gathered
-- up to `buffer_size`, an error sticks, and what a failed flush did not send stays in the buffer.
pub mod Account
pub mod Bounds
use frisbee_go.Prelude.{
  ℕ, ◌-◌, ◌^◌, Option, none, some, List, [], ◌∷◌, ◌++◌, leb, if◌then◌else◌, length, take, drop,
}
use frisbee_go.Errors.{Error}
use frisbee_go.Conn.{Conn, conn_write}

-- `DefaultBufferSize`.
abbrev pub buffer_size : ℕ
buffer_size = 2 ^ 16

pub record Writer : Type 0 where
  pub conn : Conn
  pub buffered : List ℕ
  pub failed : Option Error

-- `Flush`.
unfoldable pub flush_writer : Writer → Writer × Option Error
flush_writer w = elim w.failed [
  | some e ↦ (w, some e)
  | none ↦ elim w.buffered [
    | [] ↦ (w, none)
    | b ∷ bs ↦
        let (c, err) = conn_write w.conn w.buffered in
        let n = length c.sent - length w.conn.sent in
        elim err [
          | none ↦ (record w { conn = c; buffered = [] }, none)
          | some e ↦ (record w { conn = c; buffered = drop n w.buffered; failed = some e }, some e)
        ]
  ]
]

-- A write past the buffer, which is empty: it goes to the connection at once.
unfoldable pub write_direct : Writer → List ℕ → Writer × Option Error
write_direct w p = let (c, err) = conn_write w.conn p in (record w { conn = c; failed = err }, err)

abbrev pub gather : Writer → List ℕ → Writer × Option Error
gather w p = (record w { buffered = w.buffered ++ p }, none)

-- What is left to write once the buffer is empty.
unfoldable pub write_rest : Writer → List ℕ → Writer × Option Error
write_rest w p = if leb (length p) buffer_size then gather w p else write_direct w p

-- The buffer is filled up and flushed, and then comes the rest.
unfoldable pub write_over : Writer → List ℕ → Writer × Option Error
write_over w p =
    let room = buffer_size - length w.buffered in
    let (v, err) = flush_writer (record w { buffered = w.buffered ++ take room p }) in
    elim err [ some e ↦ (v, some e) | none ↦ write_rest v (drop room p) ]

-- `Write`. Its loop goes round at most twice: it fills the buffer up and flushes it, and then
-- writes the rest past the buffer if it does not fit.
unfoldable pub write_writer : Writer → List ℕ → Writer × Option Error
write_writer w p = elim w.failed [
  | some e ↦ (w, some e)
  | none ↦
      if leb (length p) (buffer_size - length w.buffered)
      then gather w p
      else elim w.buffered [ [] ↦ write_direct w p | b ∷ bs ↦ write_over w p ]
]
