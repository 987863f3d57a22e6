-- ===== src/Metadata/RoundTrip.antt =====
-- The header layout of pkg/metadata/metadata.go: what is written is read back, and conversely.
use frisbee_go.Prelude.{
  ℕ, ◌+◌, ◌*◌, ◌/◌, ◌%◌, ◌≤◌, ◌<◌, ◌≡◌, refl, ◌⊎◌, inl, inr, some, List, [], ◌∷◌, ◌++◌, length,
  take, drop, All, arith,
}
use frisbee_go.BigEndian.{IsByte, IsUint16, IsUint32}
use frisbee_go.Metadata.{
  Metadata, IsInRange, ok, err, invalid_buffer_length, packet_magic_header, size, put_fields,
  get_fields, encode, decode,
}

-- The ten bytes of a header, most significant first in each field.
unfoldable pub header : Metadata → List ℕ
header m =
    (m.magic / 256 % 256)
    ∷ (m.magic % 256)
    ∷ (m.id / 256 % 256)
    ∷ (m.id % 256)
    ∷ (m.operation / 256 % 256)
    ∷ (m.operation % 256)
    ∷ (m.content_length / 16777216 % 256)
    ∷ (m.content_length / 65536 % 256)
    ∷ (m.content_length / 256 % 256)
    ∷ (m.content_length % 256)
    ∷ []

pub length-header : (m : Metadata) → length (header m) ≡ size
unfolding header
length-header m = refl

pub header-IsByte : (m : Metadata) → All IsByte (header m)
unfolding header
header-IsByte m = omega arith

-- A header is written over the whole buffer: nothing of what the buffer held is left.
pub put_fields-header :
    (b : List ℕ) (m : Metadata) → length b ≡ size → put_fields b m ≡ some (header m)
unfolding put_fields header
put_fields-header (a ∷ b ∷ c ∷ d ∷ e ∷ f ∷ g ∷ h ∷ i ∷ j ∷ []) m l = refl
put_fields-header _ m l = absurd (omega arith)

-- Whatever follows a header, the fields are those that were written.
pub get_fields-header :
    (m : Metadata) (rest : List ℕ) → IsInRange m → get_fields (header m ++ rest) ≡ some m
unfolding get_fields header
get_fields-header m rest r = ground arith

-- For identifiers and operations that are 16-bit words and a length that is a 32-bit word,
-- `encode` succeeds, its ten bytes are bytes, and `decode` reads the same fields back from them,
-- also when other bytes follow.
pub decode-encode :
    (id operation content_length : ℕ) (rest : List ℕ)
    → IsUint16 id
    → IsUint16 operation
    → IsUint32 content_length
    → (b : List ℕ) × (encode id operation content_length ≡ ok b)
      × (length b ≡ size)
      × All IsByte b
      × (decode (b ++ rest)
          ≡ ok (record {
            magic = packet_magic_header;
            id = id;
            operation = operation;
            content_length = content_length;
          }))
unfolding encode decode header
decode-encode id operation content_length rest i o c =
    (header m, refl, refl, header-IsByte m, ground arith)
  where
    m : Metadata
    m = record {
      magic = packet_magic_header;
      id = id;
      operation = operation;
      content_length = content_length;
    }

-- The fields of ten bytes or more, and that they fit their types and make up the first ten again.
pub get_fields_lem :
    (buf : List ℕ)
    → All IsByte buf
    → size ≤ length buf
    → (m : Metadata) × (get_fields buf ≡ some m) × IsInRange m × (header m ≡ take size buf)
unfolding get_fields header
get_fields_lem (a ∷ b ∷ c ∷ d ∷ e ∷ f ∷ g ∷ h ∷ i ∷ j ∷ rest) v l = (
  record {
    magic = 256 * a + b;
    id = 256 * c + d;
    operation = 256 * e + f;
    content_length = 16777216 * g + 65536 * h + 256 * i + j;
  },
  ground arith,
  omega arith,
  ground arith,
)
get_fields_lem _ v l = absurd (omega arith)

-- On every slice of bytes `decode` either reports that it is shorter than a header, or returns
-- fields that fit their types and whose header is what the slice begins with.
pub decode_cases :
    (buf : List ℕ)
    → All IsByte buf
    → ((length buf < size) × (decode buf ≡ err invalid_buffer_length))
      ⊎ ((m : Metadata) × (decode buf ≡ ok m) × IsInRange m × (header m ++ drop size buf ≡ buf))
unfolding decode get_fields header
decode_cases (a ∷ b ∷ c ∷ d ∷ e ∷ f ∷ g ∷ h ∷ i ∷ j ∷ rest) v =
    inr (fields.0, ground (arith, fields.1), fields.2, ground (arith, fields.3))
  where
    fields :
        (m : Metadata) × (get_fields (a ∷ b ∷ c ∷ d ∷ e ∷ f ∷ g ∷ h ∷ i ∷ j ∷ []) ≡ some m)
        × IsInRange m
        × (header m ≡ a ∷ b ∷ c ∷ d ∷ e ∷ f ∷ g ∷ h ∷ i ∷ j ∷ [])
    fields = get_fields_lem (a ∷ b ∷ c ∷ d ∷ e ∷ f ∷ g ∷ h ∷ i ∷ j ∷ []) (omega arith) (omega arith)
decode_cases _ v = inl (omega arith, ground arith)
