-- ===== src/Packet.antt =====
-- pkg/packet: a packet, its reset, and what the pool of packets hands out. polyglot.Buffer is not
-- part of the repository: it is an interface, with what its documentation says of it as laws.
use frisbee_go.Prelude.{ℕ, ◌+◌, ◌≤◌, ◌≡◌, refl, Option, none, some, List, [], ◌++◌, length, drop}
use frisbee_go.Metadata.{Metadata}

-- What the code uses of polyglot.Buffer. `fill` writes through the slice that `Bytes` returns.
pub record BufferOps (Buffer : Type 0) : Type 0 where
  pub new_buffer : Buffer
  pub reset : Buffer → Buffer
  pub bytes : Buffer → List ℕ
  pub len : Buffer → ℕ
  pub write : Buffer → List ℕ → Buffer × ℕ
  pub grow : Buffer → ℕ → Buffer
  pub move_offset : Buffer → ℕ → Buffer
  pub fill : Buffer → List ℕ → Buffer
  pub bytes-new_buffer : bytes new_buffer ≡ []
  pub bytes-reset : (b : Buffer) → bytes (reset b) ≡ []
  pub len-bytes : (b : Buffer) → len b ≡ length (bytes b)
  pub bytes-write : (b : Buffer) (bs : List ℕ) → bytes (write b bs).0 ≡ bytes b ++ bs
  pub count-write : (b : Buffer) (bs : List ℕ) → (write b bs).1 ≡ length bs
  pub bytes-grow : (b : Buffer) (n : ℕ) → bytes (grow b n) ≡ bytes b
  pub length-move_offset :
      (b : Buffer) (n : ℕ) → length (bytes (move_offset (grow b n) n)) ≡ length (bytes b) + n
  pub bytes-fill :
      (b : Buffer) (bs : List ℕ)
      → length bs ≤ length (bytes b)
      → bytes (fill b bs) ≡ bs ++ drop (length bs) (bytes b)

pub record Packet (Buffer : Type 0) : Type 0 where
  pub metadata : Metadata
  pub content : Buffer

abbrev pub zero_metadata : Metadata
zero_metadata = record { magic = 0; id = 0; operation = 0; content_length = 0 }

module _ {Buffer : Type 0} ⦃ops : BufferOps Buffer⦄ where
  unfoldable pub reset_packet : Packet Buffer → Packet Buffer
  reset_packet p = record {
    metadata = record (p.metadata) { magic = 0; id = 0; operation = 0; content_length = 0 };
    content = ops.reset p.content;
  }

  unfoldable pub new_packet : Packet Buffer
  new_packet = record { metadata = zero_metadata; content = ops.new_buffer }

  -- `packet.Get`: a packet that was put back, if the pool has one, and a new one otherwise. The
  -- pool calls `Reset` on what is put back.
  unfoldable pub get_packet : Option (Packet Buffer) → Packet Buffer
  unfolding reset_packet new_packet
  get_packet none = new_packet
  get_packet (some p) = reset_packet p

  -- Nothing is left of what the packet carried.
  pub record IsReset (p : Packet Buffer) : Type 0 where
    pub no_metadata : p.metadata ≡ zero_metadata
    pub no_content : ops.bytes p.content ≡ []

  pub get_packet-IsReset : (recycled : Option (Packet Buffer)) → IsReset (get_packet recycled)
  unfolding get_packet
  get_packet-IsReset none = record { no_metadata = refl; no_content = ops.bytes-new_buffer }
  get_packet-IsReset (some p) = record {
    no_metadata = refl;
    no_content = ops.bytes-reset p.content;
  }
