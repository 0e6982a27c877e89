-- ===== src/Base/Merged/Runs.antt =====
-- A run of a MergedEnumerator.
use simple_rpc.Prelude.{ℕ, ◌≡◌, refl, List, [], ◌∷◌, some, length, arith}
use simple_rpc.Prelude.Fault.{Gives}
use simple_rpc.Prelude.Perms.{Permᴰ}
use simple_rpc.Prelude.Least.{take_top}
use simple_rpc.Base.Merged.{next, drain, add_all}
use simple_rpc.Base.Merged.Order.{IsSorted, flatten, drain-add_all}

abbrev sources : List (List ℕ)
sources = (2 ∷ 5 ∷ []) ∷ [] ∷ (1 ∷ 5 ∷ 7 ∷ []) ∷ []

drain-add_all_example :
    Gives
      (λ xs. IsSorted xs × Permᴰ xs (flatten sources))
      (drain (length (flatten sources)) (add_all sources))
drain-add_all_example = drain-add_all sources (omega arith)

merged : drain 5 (add_all sources) ≡ some (1 ∷ 2 ∷ 5 ∷ 5 ∷ 7 ∷ [])
unfolding drain next take_top
merged = refl
