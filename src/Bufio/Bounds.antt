-- ===== src/Bufio/Bounds.antt =====
-- A bufio.Writer never holds more than its buffer has room for, whether a call succeeds or fails.
use frisbee_go.Prelude.{
  ℕ, ◌-◌, ◌≤◌, ◌≡◌, inl, inr, List, [], ◌++◌, length, take, drop, length-append, length-take,
  length-drop, Option-cases, arith,
}
use frisbee_go.Conn.{conn_write}
use frisbee_go.Bufio.{
  Writer, buffer_size, flush_writer, write_direct, write_rest, write_over, write_writer,
}
use frisbee_go.Bufio.Account.{flush_writer_ok}

pub flush_writer-le : (w : Writer) → length (flush_writer w).0.buffered ≤ length w.buffered
unfolding flush_writer
flush_writer-le w =
    let n = length (conn_write w.conn w.buffered).0.sent - length w.conn.sent in
    ground (arith, length-drop n w.buffered)

write_rest-le :
    (w : Writer) (p : List ℕ) → w.buffered ≡ [] → length (write_rest w p).0.buffered ≤ buffer_size
unfolding write_rest write_direct
write_rest-le w p e = ground (arith, e)

write_over-le :
    (w : Writer) (p : List ℕ)
    → length w.buffered ≤ buffer_size
    → length (write_over w p).0.buffered ≤ buffer_size
unfolding write_over
write_over-le w p l =
    let room = buffer_size - length w.buffered in
    let full = record w { buffered = w.buffered ++ take room p } in
    let v = (flush_writer full).0 in
    let fits : length full.buffered ≤ buffer_size =
      omega (arith, length-append w.buffered (take room p), length-take room p, l) in
    elim (Option-cases (flush_writer full).1) [
      | inr (e, bad) ↦ rw (bad, write_over) (omega (arith, flush_writer-le full, fits))
      | inl fine ↦
          let (empty, sent, ok, was_ok) = flush_writer_ok full fine in
          rw (fine, write_over) (write_rest-le v (drop room p) empty)
    ]

pub write_writer-le :
    (w : Writer) (p : List ℕ)
    → length w.buffered ≤ buffer_size
    → length (write_writer w p).0.buffered ≤ buffer_size
unfolding write_writer write_direct
write_writer-le w p l = ground (arith, length-append w.buffered p, write_over-le w p l)
