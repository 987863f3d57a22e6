-- ===== src/Async/Receive/Streams.antt =====
-- The packets of a stream go to its queue, in order; the first one for an unknown stream makes it.
use frisbee_go.Prelude.{
  ℕ, zero, suc, ◌<◌, ◌≡◌, refl, sym, ap, ◌∙◌, false, none, some, List, [], ◌∷◌, ◌++◌, map, length,
  All, arith,
}
use mathlib.Core.List.{append_assoc, append-nil}
use frisbee_go.Errors.{Error}
use frisbee_go.Packet.{BufferOps, Packet}
use frisbee_go.Async.Framing.{next}
use frisbee_go.Async.Sound.Places.{modify-at}
use frisbee_go.Async.State.{find_stream, insert_stream, modify, at}
use frisbee_go.Async.Write.{op_stream}
use frisbee_go.Async.Receive.{look_up}
use frisbee_go.Async.Receive.Inbox.{
  Frame, StreamBox, Inbox, post, new_box, box_ensure, box_push, box_stream, box_deliver,
}
use frisbee_go.Async.Receive.Taken.{arrived, and_next, taken, taken_all}

module _ {ℓ} {A : Type ℓ} where
  at-modify :
      (i : ℕ) (f : A → A) (xs : List A) (x : A)
      → at i xs ≡ some x
      → at i (modify i f xs) ≡ some (f x)
  unfolding modify at
  at-modify i f [] x e = absurd (ground (arith, e))
  at-modify zero f (y ∷ ys) x e = ground (arith, e)
  at-modify (suc i) f (y ∷ ys) x e = at-modify i f ys x e

  modify-modify :
      (i : ℕ) (f g h : A → A) (xs : List A)
      → ((x : A) → f (g x) ≡ h x)
      → modify i f (modify i g xs) ≡ modify i h xs
  unfolding modify
  modify-modify i f g h [] e = refl
  modify-modify zero f g h (y ∷ ys) e = ap (λ z. z ∷ ys) (e y)
  modify-modify (suc i) f g h (y ∷ ys) e = ap (λ zs. y ∷ zs) (modify-modify i f g h ys e)

  modify-same : (i : ℕ) (f : A → A) (xs : List A) → ((x : A) → f x ≡ x) → modify i f xs ≡ xs
  unfolding modify
  modify-same i f [] e = refl
  modify-same zero f (y ∷ ys) e = ap (λ z. z ∷ ys) (e y)
  modify-same (suc i) f (y ∷ ys) e = ap (λ zs. y ∷ zs) (modify-same i f ys e)

  at-length : (xs : List A) (x : A) → at (length xs) (xs ++ x ∷ []) ≡ some x
  unfolding at
  at-length [] x = refl
  at-length (y ∷ ys) x = at-length ys x

abbrev pub into_box : List Frame → StreamBox → StreamBox
into_box fs u = record u { mailbox = record (u.mailbox) { frames = u.mailbox.frames ++ fs } }

into_box-nil : (u : StreamBox) → into_box [] u ≡ u
into_box-nil u =
    ap (λ fs. record u { mailbox = record (u.mailbox) { frames = fs } })
      (append-nil u.mailbox.frames)

into_box-into_box :
    (fs gs : List Frame) (u : StreamBox) → into_box gs (into_box fs u) ≡ into_box (fs ++ gs) u
into_box-into_box fs gs u =
    ap (λ hs. record u { mailbox = record (u.mailbox) { frames = hs } })
      (append_assoc u.mailbox.frames fs gs)

-- The frames are in the queue of the stream at `s`, behind those that were there.
abbrev pub into_stream : ℕ → List Frame → Inbox → Inbox
into_stream s fs c = record c { heap = modify s (into_box fs) c.heap }

-- The handler `h` has been started on a new stream.
abbrev pub with_new_stream : ℕ → ℕ → Inbox → Inbox
with_new_stream h id c = record c {
  heap = c.heap ++ new_box id ∷ [];
  streams = insert_stream id (length c.heap) c.streams;
  started = c.started ++ (h, length c.heap) ∷ [];
}

-- The stream `id` is open, and stands at `s`.
pub record IsOpenAt (id s h : ℕ) (t : StreamBox) (c : Inbox) : Type 0 where
  pub has_handler : c.new_stream_handler ≡ some h
  pub is_found : find_stream id c.streams ≡ some s
  pub stands : at s c.heap ≡ some t
  pub is_open : t.mailbox.is_shut ≡ false

into_stream-IsOpenAt :
    (id s h : ℕ) (t : StreamBox) (c : Inbox) (fs : List Frame)
    → IsOpenAt id s h t c
    → IsOpenAt id s h (into_box fs t) (into_stream s fs c)
into_stream-IsOpenAt id s h t c fs o = record {
  has_handler = o.has_handler;
  is_found = o.is_found;
  stands = at-modify s (into_box fs) c.heap t o.stands;
  is_open = o.is_open;
}

with_new_stream-IsOpenAt :
    (id h : ℕ) (c : Inbox)
    → c.new_stream_handler ≡ some h
    → IsOpenAt id (length c.heap) h (new_box id) (with_new_stream h id c)
unfolding insert_stream find_stream
with_new_stream-IsOpenAt id h c o = record {
  has_handler = o;
  is_found = ground arith;
  stands = at-length c.heap (new_box id);
  is_open = refl;
}

module _ {Buffer : Type 0} ⦃ops : BufferOps Buffer⦄ where
  -- A packet of the stream `id` that does not close it.
  pub record IsOnStream (id : ℕ) (p : Packet Buffer) : Type 0 where
    pub is_stream : p.metadata.operation ≡ op_stream
    pub same_id : p.metadata.id ≡ id
    pub some_content : 0 < p.metadata.content_length

  taken-stream :
      (shut_error : Error) (id s h : ℕ) (t : StreamBox) (c : Inbox) (p : Packet Buffer)
      → IsOnStream id p
      → IsOpenAt id s h t c
      → taken shut_error c p ≡ next (into_stream s (arrived p ∷ []) c)
  unfolding look_up box_deliver box_stream box_ensure box_push
  taken-stream shut_error id s h t c p v o = ground (
    arith,
    v.is_stream,
    v.some_content,
    o.has_handler,
    o.is_found,
    o.stands,
    o.is_open,
    modify-at s (λ u. record u { mailbox = post t.mailbox (arrived p) }) (into_box (arrived p ∷ []))
        c.heap t o.stands,
  )

  -- Packets of an open stream are added to its queue.
  pub taken_all-stream :
      (shut_error : Error) (id s h : ℕ) (t : StreamBox) (c : Inbox) (ps : List (Packet Buffer))
      → All (IsOnStream id) ps
      → IsOpenAt id s h t c
      → taken_all shut_error c ps ≡ next (into_stream s (map arrived ps) c)
  taken_all-stream shut_error id s h t c [] v o =
      ap (λ x. next (record c { heap = x })) (sym (modify-same s (into_box []) c.heap into_box-nil))
  taken_all-stream shut_error id s h t c (p ∷ ps) (v, vs) o =
      ap (λ x. and_next x (λ d. taken_all shut_error d ps))
        (taken-stream shut_error id s h t c p v o)
      ∙ taken_all-stream shut_error id s h (into_box (arrived p ∷ []) t)
          (into_stream s (arrived p ∷ []) c) ps vs
          (into_stream-IsOpenAt id s h t c (arrived p ∷ []) o)
      ∙ ap (λ x. next (record c { heap = x }))
          (modify-modify s (into_box (map arrived ps)) (into_box (arrived p ∷ []))
            (into_box (arrived p ∷ map arrived ps)) c.heap
            (λ u. into_box-into_box (arrived p ∷ []) (map arrived ps) u))

  -- A packet of a stream that is not known is treated like one of a stream that has just been made
  -- for its handler.
  taken-new :
      (shut_error : Error) (id h : ℕ) (c : Inbox) (p : Packet Buffer)
      → IsOnStream id p
      → c.new_stream_handler ≡ some h
      → find_stream id c.streams ≡ none
      → taken shut_error c p ≡ taken shut_error (with_new_stream h id c) p
  unfolding look_up box_deliver box_stream box_ensure insert_stream find_stream
  taken-new shut_error id h c p v o e = ground (arith, v.is_stream, v.same_id, v.some_content, o, e)

  -- The first packet for an unknown stream makes it and starts its handler; it and those that
  -- follow are in its queue.
  pub taken_all-new_stream :
      (shut_error : Error) (id h : ℕ) (c : Inbox) (p : Packet Buffer) (ps : List (Packet Buffer))
      → All (IsOnStream id) (p ∷ ps)
      → c.new_stream_handler ≡ some h
      → find_stream id c.streams ≡ none
      → taken_all shut_error c (p ∷ ps)
        ≡ next (into_stream (length c.heap) (map arrived (p ∷ ps)) (with_new_stream h id c))
  taken_all-new_stream shut_error id h c p ps v o e =
      ap (λ x. and_next x (λ d. taken_all shut_error d ps)) (taken-new shut_error id h c p v.0 o e)
      ∙ taken_all-stream shut_error id (length c.heap) h (new_box id) (with_new_stream h id c)
          (p ∷ ps) v (with_new_stream-IsOpenAt id h c o)
