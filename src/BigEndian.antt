-- ===== src/BigEndian.antt =====
-- Go slices of bytes, and the big-endian words of encoding/binary over them. A slice expression
-- or an index out of range is a run-time panic, which is `none` here.
use frisbee_go.Prelude.{
  ℕ, ◌+◌, ◌*◌, ◌/◌, ◌%◌, ◌^◌, ◌<◌, ◌&&◌, Option, none, some, List, [], ◌∷◌, ◌++◌, leb,
  if◌then◌else◌, length, take, drop,
}

abbrev pub IsByte : ℕ → Type 0
IsByte b = b < 256

abbrev pub IsUint16 : ℕ → Type 0
IsUint16 v = v < 2 ^ 16

abbrev pub IsUint32 : ℕ → Type 0
IsUint32 v = v < 2 ^ 32

infixl 5 ◌>>=◌
abbrev pub ◌>>=◌ {ℓ κ} : {A : Type ℓ} {B : Type κ} → Option A → (A → Option B) → Option B
none >>= f = none
some a >>= f = f a

-- `buf[lo:hi]`.
unfoldable pub slice : List ℕ → ℕ → ℕ → Option (List ℕ)
slice buf lo hi = if leb lo hi && leb hi (length buf) then some (drop lo (take hi buf)) else none

-- `bs` written over `buf` from `lo` on, inside `buf[lo:hi]`.
unfoldable pub overwrite : List ℕ → ℕ → ℕ → List ℕ → Option (List ℕ)
overwrite buf lo hi bs =
    if leb hi (length buf) && leb (lo + length bs) hi
    then some (take lo buf ++ (bs ++ drop (lo + length bs) buf))
    else none

-- `binary.BigEndian.PutUint16(buf[lo:hi], v)`.
unfoldable pub put_uint16 : List ℕ → ℕ → ℕ → ℕ → Option (List ℕ)
unfolding overwrite
put_uint16 buf lo hi v = overwrite buf lo hi ((v / 256 % 256) ∷ (v % 256) ∷ [])

-- `binary.BigEndian.PutUint32(buf[lo:hi], v)`.
unfoldable pub put_uint32 : List ℕ → ℕ → ℕ → ℕ → Option (List ℕ)
unfolding overwrite
put_uint32 buf lo hi v =
    overwrite buf lo hi
      ((v / 16777216 % 256) ∷ (v / 65536 % 256) ∷ (v / 256 % 256) ∷ (v % 256) ∷ [])

abbrev word16 : List ℕ → Option ℕ
word16 [] = none
word16 (a ∷ []) = none
word16 (a ∷ b ∷ rest) = some (256 * a + b)

abbrev word32 : List ℕ → Option ℕ
word32 [] = none
word32 (a ∷ []) = none
word32 (a ∷ b ∷ []) = none
word32 (a ∷ b ∷ c ∷ []) = none
word32 (a ∷ b ∷ c ∷ d ∷ rest) = some (16777216 * a + 65536 * b + 256 * c + d)

-- `binary.BigEndian.Uint16(buf[lo:hi])`.
unfoldable pub uint16 : List ℕ → ℕ → ℕ → Option ℕ
unfolding slice
uint16 buf lo hi = do bs ← slice buf lo hi; word16 bs

-- `binary.BigEndian.Uint32(buf[lo:hi])`.
unfoldable pub uint32 : List ℕ → ℕ → ℕ → Option ℕ
unfolding slice
uint32 buf lo hi = do bs ← slice buf lo hi; word32 bs
