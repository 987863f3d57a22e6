-- ===== src/Metadata.antt =====
-- pkg/metadata/metadata.go and pkg/metadata/pool.go: the ten-byte header of a packet. The header
-- buffers are byte lists; what the pool of buffers hands out is an argument, since its bytes are
-- those of the header that was last written into it.
pub mod Fields
pub mod RoundTrip
mod Examples
use frisbee_go.Prelude.{
  ℕ, ◌+◌, ◌<◌, ◌≡◌, Bool, Option, none, some, List, [], ltb, if◌then◌else◌, length, take, replicate,
}
use frisbee_go.BigEndian.{IsUint16, IsUint32, ◌>>=◌, put_uint16, put_uint32, uint16, uint32}

abbrev pub packet_magic_header : ℕ
packet_magic_header = 0x0f

abbrev pub magic_offset : ℕ
magic_offset = 0

abbrev pub magic_size : ℕ
magic_size = 2

abbrev pub id_offset : ℕ
id_offset = magic_offset + magic_size

abbrev pub id_size : ℕ
id_size = 2

abbrev pub operation_offset : ℕ
operation_offset = id_offset + id_size

abbrev pub operation_size : ℕ
operation_size = 2

abbrev pub content_length_offset : ℕ
content_length_offset = operation_offset + operation_size

abbrev pub content_length_size : ℕ
content_length_size = 4

abbrev pub size : ℕ
size = content_length_offset + content_length_size

pub record Metadata : Type 0 where
  pub magic : ℕ
  pub id : ℕ
  pub operation : ℕ
  pub content_length : ℕ

-- The ranges of the fields' Go types.
pub record IsInRange (m : Metadata) : Type 0 where
  pub magic_fits : IsUint16 m.magic
  pub id_fits : IsUint16 m.id
  pub operation_fits : IsUint16 m.operation
  pub content_length_fits : IsUint32 m.content_length

pub data Error : Type 0 where
  invalid_buffer_length encoding_err decoding_err : Error

pub data Result {ℓ} (A : Type ℓ) : Type ℓ where
  ok : A → Result A
  err : Error → Result A

-- The four `Put` calls that write a header over the buffer `b`. The connections write a packet's
-- header by the same calls.
unfoldable pub put_fields : List ℕ → Metadata → Option (List ℕ)
unfolding put_uint16 put_uint32
put_fields b m = do
  b₁ ← put_uint16 b magic_offset (magic_offset + magic_size) m.magic
  b₂ ← put_uint16 b₁ id_offset (id_offset + id_size) m.id
  b₃ ← put_uint16 b₂ operation_offset (operation_offset + operation_size) m.operation
  put_uint32 b₃ content_length_offset (content_length_offset + content_length_size) m.content_length

-- The four loads that read a header from the buffer `b`.
unfoldable pub get_fields : List ℕ → Option Metadata
unfolding uint16 uint32
get_fields b = do
  magic ← uint16 b magic_offset (magic_offset + magic_size)
  id ← uint16 b id_offset (id_offset + id_size)
  operation ← uint16 b operation_offset (operation_offset + operation_size)
  content_length ← uint32 b content_length_offset (content_length_offset + content_length_size)
  some (record { magic = magic; id = id; operation = operation; content_length = content_length })

-- `recover` turns a panic into an error.
abbrev recover {ℓ} : {A : Type ℓ} → Error → Option A → Result A
recover e none = err e
recover e (some a) = ok a

unfoldable pub new_buffer : List ℕ
new_buffer = replicate size 0

-- `(*Metadata).Encode`.
unfoldable pub encode_metadata : Metadata → Result (List ℕ)
unfolding new_buffer put_fields
encode_metadata m = recover encoding_err (put_fields new_buffer m)

-- `(*Metadata).Decode`, on the array that `buf` points to.
unfoldable pub decode_metadata : List ℕ → Result Metadata
unfolding get_fields
decode_metadata buf = recover decoding_err (get_fields buf)

unfoldable pub encode : ℕ → ℕ → ℕ → Result (List ℕ)
unfolding encode_metadata
encode id operation content_length = encode_metadata (record {
  magic = packet_magic_header;
  id = id;
  operation = operation;
  content_length = content_length;
})

-- The cast to `*Buffer` sees the first `size` bytes of the slice.
unfoldable pub decode : List ℕ → Result Metadata
unfolding decode_metadata
decode buf =
    if ltb (length buf) size then err invalid_buffer_length else decode_metadata (take size buf)
