-- ===== src/Async/Framing/Spec.antt =====
-- What the read loop of async.go does, told without buffers and reads: the bytes that arrive are
-- one stream, which is cut into frames from the front.
use frisbee_go.Prelude.{
  ℕ, zero, suc, ◌≡◌, ◌⊎◌, Bool, not, ◌&&◌, none, some, List, [], ◌∷◌, ◌++◌, ltb, ◌==◌,
  if◌then◌else◌, length, take, drop,
}
use frisbee_go.Metadata.{Metadata, packet_magic_header, size, get_fields}
use frisbee_go.Errors.{Error, invalid_magic_header, content_length_exceeded}
use frisbee_go.Packet.{BufferOps, Packet}
use frisbee_go.Async.Framing.{
  Attempt, deadline_fails, chunk, failure, Step, next, stop, LoopEnd, waiting, closes, spins,
  beyond, out_of_fuel, Handlers,
}

-- What comes after the last byte: nothing, or an error of the connection.
pub data Ending : Type 0 where
  stays_open : Ending
  breaks : Error → Ending

abbrev pub arriving : List Attempt → List ℕ
arriving [] = []
arriving (deadline_fails e ∷ later) = []
arriving (chunk bs ∷ later) = bs ++ arriving later
arriving (failure bs e ∷ later) = bs

-- Bytes arrive in chunks, and then comes the ending. An error may come with the last bytes. A reader
-- that has returned bytes together with an error then returns no more bytes, and the same error, as
-- io.Reader documents for the end of a stream.
abbrev pub EndsBy : Ending → List Attempt → Type 0
EndsBy k [] = k ≡ stays_open
EndsBy k (deadline_fails e ∷ later) = k ≡ breaks e
EndsBy k (chunk bs ∷ later) = EndsBy k later
EndsBy k (failure bs e ∷ later) =
    (k ≡ breaks e) × ((bs ≡ []) ⊎ ((arriving later ≡ []) × EndsBy k later))

abbrev pub finish : {St : Type 0} → Ending → St → LoopEnd St
finish stays_open st = waiting st
finish (breaks e) st = closes e st

-- What is done with a frame, in an abstract state: a frame is its header and its content.
pub record FrameHandlers (St Found : Type 0) : Type 0 where
  pub is_control : ℕ → Bool
  pub control : St → Metadata → Step St
  pub look : St → Metadata → Found
  pub deliver : St → Found → Metadata → List ℕ → Step St

abbrev pub follow : {St : Type 0} → Step St → (St → LoopEnd St) → LoopEnd St
follow (next st) go_on = go_on st
follow (stop e st) go_on = closes e st

module _ {St Found : Type 0} (h : FrameHandlers St Found) (max : ℕ) (ending : Ending) where
  -- The content of a frame, of which `bs` follows the header.
  unfoldable pub frame_content : (St → List ℕ → LoopEnd St) → St → Metadata → List ℕ → LoopEnd St
  frame_content rest st m bs =
      if ltb (length bs) m.content_length
      then finish ending st
      else follow (h.deliver st (h.look st m) m (take m.content_length bs))
          (λ st'. rest st' (drop m.content_length bs))

  -- A frame whose header is `m`, and what follows it.
  unfoldable pub one_frame : (St → List ℕ → LoopEnd St) → St → Metadata → List ℕ → LoopEnd St
  one_frame rest st m bs =
      if not (m.magic == packet_magic_header)
      then closes invalid_magic_header st
      else if ltb 0 max && ltb max m.content_length
      then closes content_length_exceeded st
      else if h.is_control m.operation
      then follow (h.control st m) (λ st'. rest st' bs)
      else frame_content rest st m bs

  -- The frames of a stream, one after the other.
  unfoldable pub all_frames : ℕ → St → List ℕ → LoopEnd St
  all_frames zero st bs = out_of_fuel
  all_frames (suc fuel) st bs = elim (get_fields bs) [
    | none ↦ finish ending st
    | some m ↦ one_frame (λ st' rest. all_frames fuel st' rest) st m (drop size bs)
  ]

abbrev pub map_step : {A B : Type 0} → (A → B) → Step A → Step B
map_step f (next a) = next (f a)
map_step f (stop e a) = stop e (f a)

abbrev pub map_end : {A B : Type 0} → (A → B) → LoopEnd A → LoopEnd B
map_end f (waiting a) = waiting (f a)
map_end f (closes e a) = closes e (f a)
map_end f spins = spins
map_end f beyond = beyond
map_end f out_of_fuel = out_of_fuel

-- The packet handlers do what the frame handlers say, seen through `view`.
pub record Implements {St ASt Found Buffer : Type 0} (ops : BufferOps Buffer) (view : St → ASt)
    (h : Handlers St Found Buffer) (g : FrameHandlers ASt Found) : Type 0 where
  pub get_clean : (st : St) → ops.bytes ((h.get st).0).content ≡ []
  pub get_view : (st : St) → view (h.get st).1 ≡ view st
  pub same_control : (op : ℕ) → h.is_control op ≡ g.is_control op
  pub control_view :
      (st : St) (p : Packet Buffer)
      → map_step view (h.control st p) ≡ g.control (view st) p.metadata
  pub look_view : (st : St) (p : Packet Buffer) → h.look st p ≡ g.look (view st) p.metadata
  pub deliver_view :
      (st : St) (found : Found) (p : Packet Buffer)
      → map_step view (h.deliver st found p)
        ≡ g.deliver (view st) found p.metadata (ops.bytes p.content)
