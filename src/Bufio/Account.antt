-- ===== src/Bufio/Account.antt =====
-- What a bufio.Writer has sent and what it holds make up all that was written to it.
use frisbee_go.Prelude.{
  ℕ, ◌-◌, ◌≤◌, ◌≡◌, sym, ap, ◌∙◌, inl, inr, Option, none, List, [], ◌++◌, length, take, drop,
  length-append, take-append-drop, Option-cases, arith,
}
use mathlib.Core.List.{append_assoc, append-nil}
use frisbee_go.Errors.{Error}
use frisbee_go.Sync.Frame.{conn_write_cases}
use frisbee_go.Bufio.{
  Writer, buffer_size, flush_writer, write_direct, write_rest, write_over, write_writer,
}

-- All that was written, in order.
abbrev pub written : Writer → List ℕ
written w = w.conn.sent ++ w.buffered

-- Without an error a flush empties the buffer onto the connection.
pub flush_writer_ok :
    (w : Writer)
    → (flush_writer w).1 ≡ none
    → ((flush_writer w).0.buffered ≡ [])
      × ((flush_writer w).0.conn.sent ≡ written w)
      × ((flush_writer w).0.failed ≡ none)
      × (w.failed ≡ none)
unfolding flush_writer
flush_writer_ok w h = ground (arith, conn_write_cases w.conn w.buffered, append-nil w.conn.sent)

write_direct_ok :
    (w : Writer) (p : List ℕ)
    → w.buffered ≡ []
    → (write_direct w p).1 ≡ none
    → (written (write_direct w p).0 ≡ written w ++ p)
      × ((write_direct w p).0.failed ≡ none)
      × ((write_direct w p).0.buffered ≡ [])
unfolding write_direct
write_direct_ok w p e h =
    ground (arith, conn_write_cases w.conn p, append-nil w.conn.sent, append-nil (w.conn.sent ++ p))

-- Without an error the bytes are added behind all that was written, and the buffer stays within
-- its size.
abbrev pub Adds : Writer → List ℕ → Writer × Option Error → Type 0
Adds w p r =
    r.1 ≡ none
    → (written r.0 ≡ written w ++ p) × (r.0.failed ≡ none) × (length r.0.buffered ≤ buffer_size)

write_rest-Adds :
    (w : Writer) (p : List ℕ) → w.buffered ≡ [] → w.failed ≡ none → Adds w p (write_rest w p)
unfolding write_rest
write_rest-Adds w p e f h =
    ground (arith, write_direct_ok w p, append-nil w.conn.sent, length-append w.buffered p)

write_over-Adds : (w : Writer) (p : List ℕ) → Adds w p (write_over w p)
unfolding write_over
write_over-Adds w p h =
    let room = buffer_size - length w.buffered in
    let full = record w { buffered = w.buffered ++ take room p } in
    let v = (flush_writer full).0 in
    elim (Option-cases (flush_writer full).1) [
      | inr (e, bad) ↦ ground (arith, bad)
      | inl fine ↦
          let (empty, sent, ok, was_ok) = flush_writer_ok full fine in
          let done = rw (fine, write_over) at h in
          let (all, good, small) = write_rest-Adds v (drop room p) empty ok done in
          let joined : written v ≡ written w ++ take room p =
            ap (λ b. v.conn.sent ++ b) empty
            ∙ append-nil v.conn.sent
            ∙ sent
            ∙ sym (append_assoc w.conn.sent w.buffered (take room p)) in
          rw (fine, write_over)
            (
              all
                  ∙ ap (λ t. t ++ drop room p) joined
                  ∙ append_assoc (written w) (take room p) (drop room p)
                  ∙ ap (λ t. written w ++ t) (take-append-drop room p),
              good,
              small,
            )
    ]

pub write_writer-Adds :
    (w : Writer) (p : List ℕ) → length w.buffered ≤ buffer_size → Adds w p (write_writer w p)
unfolding write_writer
write_writer-Adds w p l h = ground (
  arith,
  length-append w.buffered p,
  append_assoc w.conn.sent w.buffered p,
  write_direct_ok w p,
  write_over-Adds w p,
)
