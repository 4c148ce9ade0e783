-- ===== src/FetchCursor/Batches.antt =====
-- How many rows a batch asks for.
use native.Mathlib.Nat.{div-add-mod, mul-le-mul_right, le_trans}
use oraduck.FetchCursor.{rows_within}
use oraduck.Prelude.{ℕ, ◌*◌, ◌/◌, ◌^◌, ◌≤◌, ◌<◌, ◌≡◌, ◌⊎◌, inl, inr, arith}

div_le : (a b : ℕ) → a / b * b ≤ a
div_le a b = omega (arith, div-add-mod a b)

-- Between one row and the most, and within the budget if it is more than one.
pub rows_within_bounds :
    (budget row_bytes most : ℕ)
    → 0 < most
    → most < 2 ^ 32
    → (0 < rows_within budget row_bytes most)
      × (rows_within budget row_bytes most ≤ most)
      × ((rows_within budget row_bytes most * row_bytes ≤ budget)
          ⊎ (rows_within budget row_bytes most ≡ 1))
unfolding rows_within
rows_within_bounds budget row_bytes most p s = (
  ground (arith, p, s),
  ground (arith, p, s),
  elim few [
    | inl le ↦ inl (le_trans (mul-le-mul_right row_bytes le) (div_le budget row_bytes))
    | inr one ↦ inr one
  ],
)
  where
    few :
        (rows_within budget row_bytes most ≤ budget / row_bytes)
        ⊎ (rows_within budget row_bytes most ≡ 1)
    few = ground (arith, p, s)
