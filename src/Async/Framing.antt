-- ===== src/Async/Framing.antt =====
-- The read loop of async.go, `(*Async).readLoop`: how it cuts what arrives into packets. What it
-- does with a packet (`handlers`) is the matter of other modules. Logging is left out.
--
-- The buffer `buf[:cap(buf)]` is its capacity and `held`, the bytes `buf[:n]`; what lies behind `n`
-- is left over from earlier reads, and a loop that looked at it would end in `beyond`.
pub mod Fill
pub mod Spec
pub mod Refill
pub mod Rounds
pub mod Contents
pub mod Refinement
pub mod Ends
pub mod Reads
pub mod Total
mod Examples
use frisbee_go.Prelude.{
  ℕ, zero, suc, ◌+◌, ◌-◌, Bool, true, false, not, ◌&&◌, ◌||◌, Option, none, some, List, [], ◌∷◌,
  ◌++◌, ltb, leb, ◌==◌, if◌then◌else◌, length, take, drop,
}
use frisbee_go.Metadata.{Metadata, packet_magic_header, size, get_fields}
use frisbee_go.Errors.{Error, invalid_magic_header, invalid_buffer_length, content_length_exceeded}
use frisbee_go.Packet.{BufferOps, Packet}

-- What happens to the calls of `SetReadDeadline` and `Read`, in order: the deadline cannot be set,
-- bytes arrive, or bytes arrive together with an error. A `Read` into a slice that is too short
-- takes the front and leaves the rest to the next one. When nothing is left, `Read` blocks.
pub data Attempt : Type 0 where
  deadline_fails : Error → Attempt
  chunk : List ℕ → Attempt
  failure : List ℕ → Error → Attempt

-- How a loop around `Read` ends. `spins`: the slice is full, so `Read` returns 0 bytes for ever.
pub data Filled : Type 0 where
  filled : List ℕ → List Attempt → Filled
  failed : Error → Filled
  blocked : Filled
  spins : Filled

-- `for n < min { SetReadDeadline(…); Read(buf[n:]) … }`, where `acc` is `buf[:n]`. An error that
-- comes with the last bytes that are needed is dropped.
unfoldable pub fill : ℕ → ℕ → List ℕ → List Attempt → Filled
fill cap min acc [] = if leb min (length acc) then filled acc [] else blocked
fill cap min acc (deadline_fails e ∷ later) =
    if leb min (length acc) then filled acc (deadline_fails e ∷ later) else failed e
fill cap min acc (chunk bs ∷ later) =
    let room = cap - length acc in
    let more = fill cap min (acc ++ bs) later in
    if leb min (length acc)
    then filled acc (chunk bs ∷ later)
    else if leb (length bs) room
    then more
    else if leb min cap
    then filled (acc ++ take room bs) (chunk (drop room bs) ∷ later)
    else spins
fill cap min acc (failure bs e ∷ later) =
    let room = cap - length acc in
    if leb min (length acc)
    then filled acc (failure bs e ∷ later)
    else if leb (length bs) room
    then if leb min (length (acc ++ bs)) then filled (acc ++ bs) later else failed e
    else if leb min cap
    then filled (acc ++ take room bs) (failure (drop room bs) e ∷ later)
    else spins

-- What handling a packet leads to: the loop goes on, or it ends in `closeWithError`.
pub data Step (St : Type 0) : Type 0 where
  next : St → Step St
  stop : Error → St → Step St

-- How the loop ends: it waits in `Read` for ever, or it calls `closeWithError` with an error.
pub data LoopEnd (St : Type 0) : Type 0 where
  waiting : St → LoopEnd St
  closes : Error → St → LoopEnd St
  spins : LoopEnd St
  beyond : LoopEnd St
  out_of_fuel : LoopEnd St

-- What the loop does with packets, in a state `St`. `control` handles PING and PONG; `look` is what
-- is looked up before the content is read; `deliver` takes the packet with its content.
pub record Handlers (St Found Buffer : Type 0) : Type 0 where
  pub get : St → Packet Buffer × St
  pub is_control : ℕ → Bool
  pub control : St → Packet Buffer → Step St
  pub look : St → Packet Buffer → Found
  pub deliver : St → Found → Packet Buffer → Step St

pub record Reader : Type 0 where
  pub cap : ℕ
  pub held : List ℕ
  pub index : ℕ
  pub events : List Attempt

pub data Turn (St : Type 0) : Type 0 where
  again : Reader → St → Turn St
  ends : LoopEnd St → Turn St

abbrev pub after_fill : {St : Type 0} → St → Filled → (List ℕ → List Attempt → Turn St) → Turn St
after_fill st (filled bs later) go_on = go_on bs later
after_fill st (failed e) go_on = ends (closes e st)
after_fill st blocked go_on = ends (waiting st)
after_fill st Filled.spins go_on = ends LoopEnd.spins

abbrev pub after_step : {St : Type 0} → Step St → (St → Turn St) → Turn St
after_step (next st) go_on = go_on st
after_step (stop e st) go_on = ends (closes e st)

-- Reads until the buffer holds a header, of which `acc` is there. This stands three times in the
-- source: with nothing held at the start and when the buffer is used up, and with what is left
-- of it moved to the front.
unfoldable pub refill : {St : Type 0} → ℕ → List ℕ → List Attempt → St → Turn St
refill cap acc events st =
    if ltb cap (size - length acc)
    then ends (closes invalid_buffer_length st)
    else after_fill st (fill cap size acc events)
        (λ bs later. again (record { cap = cap; held = bs; index = 0; events = later }) st)

-- The end of a turn of the inner loop.
unfoldable pub finish_turn : {St : Type 0} → Reader → St → Turn St
finish_turn r st =
    if r.index == length r.held
    then refill r.cap [] r.events st
    else if ltb (length r.held - r.index) size
    then refill r.cap (drop r.index r.held) r.events st
    else again r st

-- `for cap(buf) < min { buf = append(buf[:cap(buf)], 0) }`, where `append_cap` is the capacity that
-- `append` gives a full slice.
unfoldable pub grow_cap : (ℕ → ℕ) → ℕ → ℕ → ℕ → ℕ
grow_cap append_cap zero cap min = cap
grow_cap append_cap (suc fuel) cap min =
    let more = grow_cap append_cap fuel (append_cap cap) min in if ltb cap min then more else cap

module _ {St Found Buffer : Type 0} ⦃ops : BufferOps Buffer⦄ (h : Handlers St Found Buffer)
    (max : ℕ) (append_cap : ℕ → ℕ) where
  unfoldable pub deliver : Reader → St → Found → Packet Buffer → Turn St
  deliver r st found p = after_step (h.deliver st found p) (λ st'. finish_turn r st')

  -- The content lies in the buffer.
  unfoldable pub short_content : Reader → St → Found → Packet Buffer → Turn St
  short_content r st found p =
      let (content, count) =
        ops.write p.content (take p.metadata.content_length (drop r.index r.held)) in
      deliver (record r { index = r.index + count }) st found (record p { content = content })

  -- The buffer holds the front of the content, and the rest is read over it.
  unfoldable pub long_content : Reader → St → Found → Packet Buffer → Turn St
  long_content r st found p =
      let (content, count) = ops.write p.content (drop r.index r.held) in
      let min = p.metadata.content_length - count in
      let cap = grow_cap append_cap min r.cap min in
      after_fill st (fill cap min [] r.events) (λ bs later.
        deliver (record { cap = cap; held = bs; index = min; events = later }) st found
          (record p { content = (ops.write content (take min bs)).0 }))

  unfoldable pub read_content : Reader → St → Packet Buffer → Turn St
  read_content r st p =
      let found = h.look st p in
      let whole = short_content r st found p in
      let cut = long_content r st found p in
      if ltb 0 p.metadata.content_length
      then if ltb (length r.held - r.index) p.metadata.content_length then cut else whole
      else deliver r st found p

  -- The tests on a header that has been read, and the switch on the operation.
  unfoldable pub read_body : Reader → St → Packet Buffer → Turn St
  read_body r st p =
      if not (p.metadata.magic == packet_magic_header)
      then ends (closes invalid_magic_header st)
      else if ltb 0 max && ltb max p.metadata.content_length
      then ends (closes content_length_exceeded st)
      else if h.is_control p.metadata.operation
      then after_step (h.control st p) (λ st'. finish_turn r st')
      else read_content r st p

  -- One turn of the inner loop.
  unfoldable pub read_frame : Reader → St → Turn St
  read_frame r st = elim (get_fields (drop r.index r.held)) [
    | none ↦ ends beyond
    | some m ↦
        read_body (record r { index = r.index + size }) (h.get st).1
          (record ((h.get st).0) { metadata = m })
  ]

  -- The outer loop starts anew when the inner one has run through the buffer.
  unfoldable pub turn : Reader → St → Turn St
  turn r st = if ltb r.index (length r.held) then read_frame r st else refill r.cap [] r.events st

  unfoldable pub run : ℕ → Reader → St → LoopEnd St
  run zero r st = out_of_fuel
  run (suc fuel) r st = elim (turn r st) [ again r' st' ↦ run fuel r' st' | ends x ↦ x ]

  -- `readLoop` with a buffer of a given capacity.
  unfoldable pub read_loop : ℕ → ℕ → List Attempt → St → LoopEnd St
  unfolding run
  read_loop fuel cap events st =
      run fuel (record { cap = cap; held = []; index = 0; events = events }) st
