-- ===== src/Rpc/Marshal/Place.antt =====
-- Where the bytes of a list of chunks stand in the store.
use simple_rpc.Prelude.{
  ℕ, ◌+◌, ◌-◌, ◌≤◌, ◌≡◌, arith, Bool-cases, inl, inr, ltb, if◌then◌else◌, List, [], ◌∷◌, Option,
  none, some,
}
use simple_rpc.Rpc.Buffer.{Chunk}

-- The raw_bytes object and the index of the byte that is read after `k` others.
unfoldable pub place : List Chunk → ℕ → Option (ℕ × ℕ)
place [] k = none
place (c ∷ cs) k =
    let n = c.write_idx - c.read_idx in
    let behind = place cs (k - n) in if ltb k n then some (c.data_, c.read_idx + k) else behind

-- The second list has the bytes of the first where they were.
abbrev pub Kept : List Chunk → List Chunk → Type 0
Kept cs cs' = (k : ℕ) (at : ℕ × ℕ) → place cs k ≡ some at → place cs' k ≡ some at

pub Kept-nil : (cs : List Chunk) → Kept [] cs
unfolding place
Kept-nil cs k at e = cc

pub Kept-cons : (c : Chunk) (cs cs' : List Chunk) → Kept cs cs' → Kept (c ∷ cs) (c ∷ cs')
unfolding place
Kept-cons c cs cs' kept k at e = elim (Bool-cases (ltb k (c.write_idx - c.read_idx))) [
  | inl here ↦ ground (arith)
  | inr behind ↦ ground (arith, kept (k - (c.write_idx - c.read_idx)) at)
]

-- The last chunk grows.
pub Kept-grown :
    (c : Chunk) (more : ℕ) (cs : List Chunk)
    → c.read_idx ≤ c.write_idx
    → Kept (c ∷ []) (record c { write_idx = c.write_idx + more } ∷ cs)
unfolding place
Kept-grown c more cs ordered k at e = elim (Bool-cases (ltb k (c.write_idx - c.read_idx))) [
  | inl here ↦ ground (arith)
  | inr behind ↦ ground (arith)
]
