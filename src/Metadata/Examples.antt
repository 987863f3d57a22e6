-- ===== src/Metadata/Examples.antt =====
-- Tests of the header code of pkg/metadata, and its theorems at concrete inputs.
use frisbee_go.Prelude.{ℕ, ◌≡◌, refl, ◌⊎◌, List, [], ◌∷◌, ◌++◌, length, drop, All, ◌<◌, arith}
use frisbee_go.BigEndian.{IsByte}
use frisbee_go.Metadata.{
  Metadata, IsInRange, ok, err, invalid_buffer_length, packet_magic_header, size, encode, decode,
}
use frisbee_go.Metadata.RoundTrip.{header, decode-encode, decode_cases}

abbrev pong_bytes : List ℕ
pong_bytes = 0 ∷ 15 ∷ 0 ∷ 64 ∷ 0 ∷ 11 ∷ 0 ∷ 0 ∷ 2 ∷ 0 ∷ []

encode_pong : encode 64 11 512 ≡ ok pong_bytes
unfolding encode
encode_pong = refl

decode_short : decode (15 ∷ 0 ∷ 64 ∷ 0 ∷ 10 ∷ 0 ∷ 0 ∷ 0 ∷ 0 ∷ []) ≡ err invalid_buffer_length
unfolding decode
decode_short = refl

decode-encode_example :
    (b : List ℕ) × (encode 64 11 512 ≡ ok b)
    × (length b ≡ size)
    × All IsByte b
    × (decode (b ++ (7 ∷ []))
        ≡ ok
            (record { magic = packet_magic_header; id = 64; operation = 11; content_length = 512 }))
decode-encode_example = decode-encode 64 11 512 (7 ∷ []) (omega arith) (omega arith) (omega arith)

decode_cases_example :
    ((length pong_bytes < size) × (decode pong_bytes ≡ err invalid_buffer_length))
    ⊎ ((m : Metadata) × (decode pong_bytes ≡ ok m)
        × IsInRange m
        × (header m ++ drop size pong_bytes ≡ pong_bytes))
decode_cases_example = decode_cases pong_bytes (omega arith)
