-- ===== src/Async/Sound/Places.antt =====
-- Lists of streams and tables of streams: what is at a place, and what a table finds.
use frisbee_go.Prelude.{
  ℕ, zero, suc, ◌≡◌, refl, ap, sym, ◌∙◌, ◌≢◌, ◌⊎◌, inl, inr, none, some, List, [], ◌∷◌, ◌++◌,
  length, arith,
}
use mathlib.Core.Option.{map}
use frisbee_go.Async.State.{find_stream, delete_stream, insert_stream, modify, at}

module _ {A : Type 0} where
  pub modify_cases :
      (i s : ℕ) (f : A → A) (xs : List A)
      → (at i (modify s f xs) ≡ map f (at i xs)) ⊎ (at i (modify s f xs) ≡ at i xs)
  unfolding at modify
  modify_cases i s f [] = inr refl
  modify_cases zero zero f (x ∷ xs) = inl refl
  modify_cases zero (suc s) f (x ∷ xs) = inr refl
  modify_cases (suc i) zero f (x ∷ xs) = inr refl
  modify_cases (suc i) (suc s) f (x ∷ xs) = modify_cases i s f xs

  pub modify-at :
      (i : ℕ) (f g : A → A) (xs : List A) (x : A)
      → at i xs ≡ some x
      → f x ≡ g x
      → modify i f xs ≡ modify i g xs
  unfolding modify at
  modify-at i f g [] x e h = refl
  modify-at zero f g (y ∷ ys) x e h = ground (arith, e, h)
  modify-at (suc i) f g (y ∷ ys) x e h = ap (λ zs. y ∷ zs) (modify-at i f g ys x e h)

  pub at-append : (i : ℕ) (xs ys : List A) {x : A} → at i xs ≡ some x → at i (xs ++ ys) ≡ some x
  unfolding at
  at-append i [] ys h = absurd (ground (arith, h))
  at-append zero (x ∷ xs) ys h = h
  at-append (suc i) (x ∷ xs) ys h = at-append i xs ys h

  pub snoc_cases :
      (i : ℕ) (xs : List A) (y : A) {x : A}
      → at i (xs ++ y ∷ []) ≡ some x
      → (at i xs ≡ some x) ⊎ (x ≡ y)
  unfolding at
  snoc_cases zero [] y h = inr (ground (arith, h))
  snoc_cases (suc i) [] y h = absurd (ground (arith, h))
  snoc_cases zero (x ∷ xs) y h = inl h
  snoc_cases (suc i) (x ∷ xs) y h = snoc_cases i xs y h

  pub at-last : (xs : List A) (y : A) → at (length xs) (xs ++ y ∷ []) ≡ some y
  unfolding at
  at-last [] y = refl
  at-last (x ∷ xs) y = at-last xs y

same_or_not : (m n : ℕ) → (m ≡ n) ⊎ (m ≢ n)
same_or_not m n = ground arith

deleted :
    (id i : ℕ) (table : List (ℕ × ℕ))
    → ((id ≡ i) × (find_stream id (delete_stream i table) ≡ none))
      ⊎ ((id ≢ i) × (find_stream id (delete_stream i table) ≡ find_stream id table))
unfolding find_stream delete_stream
deleted id i [] = elim (same_or_not id i) [ inl e ↦ inl (e, refl) | inr n ↦ inr (n, refl) ]
deleted id i ((j, r) ∷ rest) = elim (deleted id i rest) [
  | inl (e, h) ↦ inl (e, ground (arith, e, h))
  | inr (n, h) ↦ inr (n, ground (arith, n, h))
]

pub find_stream-delete_stream :
    (id i s : ℕ) (table : List (ℕ × ℕ))
    → find_stream id (delete_stream i table) ≡ some s
    → find_stream id table ≡ some s
find_stream-delete_stream id i s table h = elim (deleted id i table) [
  | inl (e, g) ↦ absurd (ground (arith, g, h))
  | inr (n, g) ↦ sym g ∙ h
]

pub find_stream-insert_stream :
    (id i r s : ℕ) (table : List (ℕ × ℕ))
    → find_stream id (insert_stream i r table) ≡ some s
    → ((id ≡ i) × (s ≡ r)) ⊎ (find_stream id table ≡ some s)
unfolding find_stream insert_stream
find_stream-insert_stream id i r s table h =
    ground (arith, h, find_stream-delete_stream id i s table)
