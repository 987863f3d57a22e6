-- ===== src/Metadata/Fields.antt =====
-- Which bytes the four loads of a header look at: the first ten.
use frisbee_go.Prelude.{ℕ, ◌+◌, ◌*◌, ◌≤◌, ◌<◌, ◌≡◌, none, some, List, ◌∷◌, ◌++◌, length, arith}
use frisbee_go.Metadata.{Metadata, size, get_fields}

pub get_fields-none : (bs : List ℕ) → length bs < size → get_fields bs ≡ none
unfolding get_fields
get_fields-none (a ∷ b ∷ c ∷ d ∷ e ∷ f ∷ g ∷ h ∷ i ∷ j ∷ rest) l = absurd (omega arith)
get_fields-none _ l = ground arith

abbrev fields : ℕ → ℕ → ℕ → ℕ → ℕ → ℕ → ℕ → ℕ → ℕ → ℕ → Metadata
fields a b c d e f g h i j = record {
  magic = 256 * a + b;
  id = 256 * c + d;
  operation = 256 * e + f;
  content_length = 16777216 * g + 65536 * h + 256 * i + j;
}

get_fields_ten :
    (a b c d e f g h i j : ℕ) (rest : List ℕ)
    → get_fields (a ∷ b ∷ c ∷ d ∷ e ∷ f ∷ g ∷ h ∷ i ∷ j ∷ rest) ≡ some (fields a b c d e f g h i j)
unfolding get_fields
get_fields_ten a b c d e f g h i j rest = ground arith

pub get_fields-some :
    (bs more : List ℕ)
    → size ≤ length bs
    → (m : Metadata) × (get_fields bs ≡ some m) × (get_fields (bs ++ more) ≡ some m)
get_fields-some (a ∷ b ∷ c ∷ d ∷ e ∷ f ∷ g ∷ h ∷ i ∷ j ∷ rest) more l = (
  fields a b c d e f g h i j,
  get_fields_ten a b c d e f g h i j rest,
  get_fields_ten a b c d e f g h i j (rest ++ more),
)
get_fields-some _ more l = absurd (omega arith)
