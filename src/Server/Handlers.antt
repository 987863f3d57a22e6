-- ===== src/Server/Handlers.antt =====
-- Which handler tables server.go takes.
use frisbee_go.Prelude.{
  ℕ, zero, suc, ◌+◌, ◌<◌, ◌≡◌, refl, ◌⊎◌, inl, inr, true, false, none, some, List, [], ◌∷◌, All,
  Option-cases, arith,
}
use frisbee_go.Errors.{invalid_handler_table}
use frisbee_go.Server.{Handler, find_handler, has_handler_below, set_handler_table}

-- The numbers from `n` on, of which there are `count`.
abbrev pub upward : ℕ → ℕ → List ℕ
upward zero n = []
upward (suc count) n = n ∷ upward count (n + 1)

module _ {Buffer : Type 0} where
  pub has_handler_below_lem :
      (count n : ℕ) (table : List (ℕ × Handler Buffer))
      → ((has_handler_below count n table ≡ false)
          × All (λ op. find_handler op table ≡ none) (upward count n))
        ⊎ ((has_handler_below count n table ≡ true)
            × (op : ℕ) × (h : Handler Buffer) × (op < n + count)
            × (find_handler op table ≡ some h))
  unfolding has_handler_below
  has_handler_below_lem zero n table = inl (refl, tt {0})
  has_handler_below_lem (suc count) n table = elim (Option-cases (find_handler n table)) [
    | inr (h, e) ↦ inr (rw (e, has_handler_below) refl, n, h, omega arith, e)
    | inl e ↦ elim (has_handler_below_lem count (n + 1) table) [
      | inl (free, all) ↦ inl (rw (e, has_handler_below) free, (e, all))
      | inr (used, op, h, l, f) ↦ inr (rw (e, has_handler_below) used, op, h, omega arith, f)
    ]
  ]

  -- A handler table is taken, without an error, if it has no handler for the operations 0 to 8, and
  -- only then; otherwise the server keeps its table and reports that a reserved operation was used.
  pub set_handler_table_lem :
      (old table : List (ℕ × Handler Buffer))
      → ((set_handler_table old table ≡ (table, none))
          × All (λ op. find_handler op table ≡ none) (0 ∷ 1 ∷ 2 ∷ 3 ∷ 4 ∷ 5 ∷ 6 ∷ 7 ∷ 8 ∷ []))
        ⊎ ((set_handler_table old table ≡ (old, some invalid_handler_table))
            × (op : ℕ) × (h : Handler Buffer) × (op < 9)
            × (find_handler op table ≡ some h))
  unfolding set_handler_table
  set_handler_table_lem old table = elim (has_handler_below_lem 9 0 table) [
    | inl (free, all) ↦ inl (rw (free, set_handler_table) refl, all)
    | inr (used, op, h, l, e) ↦ inr (rw (used, set_handler_table) refl, op, h, l, e)
  ]
