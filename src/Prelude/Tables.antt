-- ===== src/Prelude/Tables.antt =====
-- A test on the numbers below a bound, for facts about every value of a byte that evaluation decides.
use Prim.Native.Nat.{ℕ, zero, suc, ◌<◌}
use mathlib.Core.Path.{◌≡◌}
use mathlib.Core.Bool.{Bool, true, ◌&&◌}
use native.Mathlib.Omega.{arith}

unfoldable pub table : ℕ → (ℕ → Bool) → Bool
table zero row = true
table (suc last) row = table last row && row last

-- In a table that holds, every row does.
pub table_row :
    (bound : ℕ) (row : ℕ → Bool) (entry : ℕ)
    → table bound row ≡ true
    → entry < bound
    → row entry ≡ true
unfolding table
table_row zero row entry holds below = absurd (omega arith)
table_row (suc last) row entry holds below = ground (arith, table_row last row entry)
