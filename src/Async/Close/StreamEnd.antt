-- ===== src/Async/Close/StreamEnd.antt =====
-- `Close` of stream.go: what it writes, what it leaves to be read, and what it is to call it again.
use frisbee_go.Prelude.{
  ℕ, zero, suc, ◌≤◌, ◌≡◌, refl, sym, ap, ◌∙◌, Bool, true, false, none, some, List, [], ◌∷◌, ◌++◌,
  length, arith,
}
use frisbee_go.Errors.{Error, stream_closed}
use frisbee_go.Metadata.{size}
use frisbee_go.Packet.{BufferOps, Packet, get_packet, reset_packet, new_packet}
use frisbee_go.Queue.{QueueOps}
use frisbee_go.Bufio.{buffer_size}
use frisbee_go.Bufio.Account.{written}
use frisbee_go.Sync.Frame.{frame}
use frisbee_go.Async.State.{Link, Stream, Async, find_stream, delete_stream, modify, at}
use frisbee_go.Async.Write.{Outcome, queued, refused, broken, op_stream, write_packet}
use frisbee_go.Async.Accounting.{write_packet-Took}
use frisbee_go.Async.Close.{
  take_packet, shut_stream, settle, send_close, close_send, close_with_error, close_stream,
}

pub find-deleted : (id : ℕ) (table : List (ℕ × ℕ)) → find_stream id (delete_stream id table) ≡ none
unfolding find_stream delete_stream
find-deleted id [] = refl
find-deleted id ((i, s) ∷ rest) = ground (arith, find-deleted id rest)

module _ {A : Type 0} where
  at-modify_same :
      (s : ℕ) (f : A → A) (xs : List A) (x : A)
      → at s xs ≡ some x
      → at s (modify s f xs) ≡ some (f x)
  unfolding at modify
  at-modify_same s f [] x h = absurd (ground (arith, h))
  at-modify_same zero f (y ∷ ys) x h = ground (arith, h)
  at-modify_same (suc s) f (y ∷ ys) x h = at-modify_same s f ys x h

module _ {Buffer : Type 0} ⦃ops : BufferOps Buffer⦄ where
  -- The packet that tells the other end that a stream is closed.
  abbrev pub IsEndOf : ℕ → Packet Buffer → Type 0
  IsEndOf id p =
      (p.metadata.id ≡ id)
      × (p.metadata.operation ≡ op_stream)
      × (p.metadata.content_length ≡ 0)
      × (ops.bytes p.content ≡ [])

module _ {Buffer Queue : Type 0} ⦃ops : BufferOps Buffer⦄
    ⦃qs : QueueOps Queue (Packet Buffer)⦄ where
  sent_well :
      (fail : Async Buffer Queue → Error → Async Buffer Queue × Error) (c : Async Buffer Queue)
      (l : Link) (o : Outcome)
      → (settle fail c (l, o)).1 ≡ none
      → (o ≡ queued) × ((settle fail c (l, o)).0 ≡ record c { link = l })
  unfolding settle
  sent_well fail c l queued h = (refl, refl)
  sent_well fail c l (refused e) h = absurd (ground (arith, h))
  sent_well fail c l (broken e) h = absurd (ground (arith, h))

  take_packet-clean :
      (c : Async Buffer Queue)
      → ((take_packet c).0.metadata.content_length ≡ 0)
        × (ops.bytes (take_packet c).0.content ≡ [])
        × ((take_packet c).1.link ≡ c.link)
        × ((take_packet c).1.heap ≡ c.heap)
        × ((take_packet c).1.streams ≡ c.streams)
  unfolding take_packet get_packet reset_packet new_packet
  take_packet-clean c =
      elim c.pool
        as (λ pool.
          let (got, d) = elim pool as (λ _. Packet Buffer × Async Buffer Queue) [
            | [] ↦ (get_packet none, c)
            | found ∷ later ↦ (get_packet found, record c { pool = later })
          ] in
          (got.metadata.content_length ≡ 0)
          × (ops.bytes got.content ≡ [])
          × (d.link ≡ c.link)
          × (d.heap ≡ c.heap)
          × (d.streams ≡ c.streams)) [
            | [] ↦ (refl, ops.bytes-new_buffer, refl, refl, refl)
            | none ∷ later ↦ (refl, ops.bytes-new_buffer, refl, refl, refl)
            | some p ∷ later ↦ (refl, ops.bytes-reset p.content, refl, refl, refl)
          ]

  shut_stream_lem :
      (t : Stream Buffer Queue)
      → t.closed ≡ false
      → ((shut_stream t).closed ≡ true) × ((shut_stream t).stale ≡ qs.contents t.queue)
  unfolding shut_stream
  shut_stream_lem t o = ground (arith, o, qs.drain_all (qs.shut t.queue), qs.contents-shut t.queue)

  -- A packet that was sent without an error.
  send_close_lem :
      (max : ℕ) (pooled : List ℕ) (observed : Bool)
      (fail : Async Buffer Queue → Error → Async Buffer Queue × Error) (id : ℕ)
      (c : Async Buffer Queue)
      → length pooled ≡ size
      → length c.link.writer.buffered ≤ buffer_size
      → (send_close max pooled observed fail id c).1 ≡ none
      → let d = (send_close max pooled observed fail id c).0 in
        (p : Packet Buffer) × IsEndOf id p
        × (written d.link.writer ≡ written c.link.writer ++ frame p)
        × (d.heap ≡ c.heap)
        × (d.streams ≡ c.streams)
  unfolding send_close
  send_close_lem max pooled observed fail id c z s h =
      let (got, d) = take_packet c in
      let (empty, no_content, same_link, same_heap, same_streams) = take_packet-clean c in
      let p = record got { metadata = record (got.metadata) { id = id; operation = op_stream } } in
      let (l, o) = write_packet max pooled observed p d.link in
      let (q, e) = sent_well fail d l o h in
      let ((whole, _, _, _), _, _) =
        write_packet-Took max pooled observed p d.link z
          (ground (arith, s, ap (λ k. length k.writer.buffered) same_link)) q in
      (
        p,
        (refl, refl, empty, no_content),
        ap (λ k. written k.link.writer) e ∙ whole ∙ ap (λ k. written k.writer ++ frame p) same_link,
        ap (λ k. k.heap) e ∙ same_heap,
        ap (λ k. k.streams) e ∙ same_streams,
      )

  module _ (max : ℕ) (pooled : List ℕ) (observed : Bool) (s : ℕ) (t : Stream Buffer Queue) where
    close_stream-again :
        (c : Async Buffer Queue)
        → at s c.heap ≡ some t
        → t.closed ≡ true
        → close_stream max pooled observed s c ≡ (c, some stream_closed)
    unfolding close_stream close_send
    close_stream-again c h o = rw (h, o, close_stream, close_send) refl

    close_stream-open :
        (c : Async Buffer Queue)
        → at s c.heap ≡ some t
        → t.closed ≡ false
        → close_stream max pooled observed s c ≡ (
            let (e, err) =
              send_close max pooled observed
                (close_with_error max pooled observed)
                t.id
                (record c { heap = modify s shut_stream c.heap }) in
            (record e { streams = delete_stream t.id e.streams }, err))
    unfolding close_stream close_send
    close_stream-open c h o = rw (h, o, close_stream, close_send) refl

  -- When `Close` of an open stream reports no error, an empty STREAM packet with its identifier has
  -- been written, whole, behind all that was written before; the stream is closed and no longer in the
  -- table, what was delivered to it and not read yet is left over for `ReadPacket`, each packet once
  -- and in order, and to close it again changes nothing and returns `StreamClosed`.
  pub close_stream_lem :
      (max : ℕ) (pooled : List ℕ) (observed : Bool) (s : ℕ) (t : Stream Buffer Queue)
      (c : Async Buffer Queue)
      → length pooled ≡ size
      → length c.link.writer.buffered ≤ buffer_size
      → at s c.heap ≡ some t
      → t.closed ≡ false
      → (close_stream max pooled observed s c).1 ≡ none
      → let d = (close_stream max pooled observed s c).0 in
        (p : Packet Buffer) × (u : Stream Buffer Queue) × IsEndOf t.id p
        × (written d.link.writer ≡ written c.link.writer ++ frame p)
        × (at s d.heap ≡ some u)
        × (u.closed ≡ true)
        × (u.stale ≡ qs.contents t.queue)
        × (find_stream t.id d.streams ≡ none)
        × (close_stream max pooled observed s d ≡ (d, some stream_closed))
  close_stream_lem max pooled observed s t c z l h o ok =
      let b = record c { heap = modify s shut_stream c.heap } in
      let fail = close_with_error max pooled observed in
      let e = (send_close max pooled observed fail t.id b).0 in
      let d = record e { streams = delete_stream t.id e.streams } in
      let closing = close_stream-open max pooled observed s t c h o in
      let (p, is_end, whole, same_heap, _) =
        send_close_lem max pooled observed fail t.id b z l (sym (ap (λ r. r.1) closing) ∙ ok) in
      let (shut, left) = shut_stream_lem t o in
      let there : at s e.heap ≡ some (shut_stream t) =
        ap (at s) same_heap ∙ at-modify_same s shut_stream c.heap t h in
      rw closing (
        p,
        shut_stream t,
        is_end,
        whole,
        there,
        shut,
        left,
        find-deleted t.id e.streams,
        close_stream-again max pooled observed s (shut_stream t) d there shut,
      )
