-- ===== src/Base/Merged.antt =====
-- MergedEnumerator of base/basetypes.h, for numbers and the default comparison. An Enumerator is the list of
-- what it will still give. The priority queue is a list of which the entry that comes first in its order is
-- taken; `none` is a call of `top` on an empty queue.
pub mod Order
mod Runs
use simple_rpc.Prelude.{
  ℕ, zero, suc, ◌≤◌, Bool, true, false, not, List, [], ◌∷◌, ◌++◌, Option, none, some, if◌then◌else◌,
  leb, ltb,
}
use simple_rpc.Prelude.Least.{take_top}
use simple_rpc.Prelude.Fault.{◌>>=◌}

-- `merge_helper`: `data`, and the source behind it.
pub record MergeHelper : Type 0 where
  pub datum : ℕ
  pub src : List ℕ

-- `operator <` with `std::greater`
abbrev pub comes_after : MergeHelper → MergeHelper → Bool
comes_after a b = ltb b.datum a.datum

abbrev pub MergeQueue : Type 0
MergeQueue = List MergeHelper

abbrev pub add_source : List ℕ → MergeQueue → MergeQueue
add_source [] q = q
add_source (x ∷ src) q = record { datum = x; src = src } ∷ q

abbrev pub has_next : MergeQueue → Bool
has_next [] = false
has_next (e ∷ q) = true

unfoldable pub next : MergeQueue → Option (ℕ × MergeQueue)
next [] = none
next (e ∷ q) = let (mh, rest) = take_top comes_after e q in some (mh.datum, add_source mh.src rest)

-- Every value, as long as `has_next` says that there is one. Out of fuel there is no result.
unfoldable pub drain : ℕ → MergeQueue → Option (List ℕ)
drain zero q = if has_next q then none else some []
drain (suc fuel) q =
    let more = (do (x, q') ← next q; xs ← drain fuel q'; some (x ∷ xs)) in
    if has_next q then more else some []

abbrev pub add_all : List (List ℕ) → MergeQueue
add_all [] = []
add_all (src ∷ srcs) = add_source src (add_all srcs)
