-- ===== src/Base/SparseInt/Counted.antt =====
-- The wire form of a v64: the bytes that `dump` counts in a buffer of 9 bytes that held none before.
use simple_rpc.Prelude.{
  ℕ, zero, suc, ◌^◌, ◌<◌, ◌≤◌, ◌≡◌, ◌≢◌, min, refl, sym, ap, ap₂, ◌∙◌, arith, List, [], ◌∷◌, length,
  take, get_or, replicate, length-take,
}
use simple_rpc.Prelude.Int.{ℤ, pos, InRange, u32, u64}
use simple_rpc.Base.SparseInt.{
  buf_size, val_size, dump_bytes_i32, dump_i32, dump_bytes_i64, dump_i64, overwrite,
}
use simple_rpc.Base.SparseInt.Size.{dump_i32-val_size, dump_i64-val_size}
use simple_rpc.Base.SparseInt.Wire.{counted}

-- The wire form of a v64.
abbrev pub sparse : ℤ → List ℕ
sparse v = counted (dump_i64 v (replicate 9 256))

-- A v64 that comes through: every i64 whose size is not 8.
abbrev pub Sparse : ℤ → Type 0
Sparse v = InRange u64 v × (val_size v ≢ 8)

get_or-take : (n : ℕ) (xs : List ℕ) → 0 < n → get_or (take n xs) 0 0 ≡ get_or xs 0 0
get_or-take zero xs h = absurd (omega arith)
get_or-take (suc n) [] h = refl
get_or-take (suc n) (x ∷ xs) h = refl

length-overwrite : (bs buf : List ℕ) → length (overwrite bs buf) ≡ length buf
length-overwrite [] buf = refl
length-overwrite (b ∷ bs) [] = refl
length-overwrite (b ∷ bs) (x ∷ buf) = ap suc (length-overwrite bs buf)

pub val_size_bounds : (v : ℤ) → (1 ≤ val_size v) × (val_size v ≤ 9)
unfolding val_size
val_size_bounds v = ground arith

pub length-sparse : (v : ℤ) → length (sparse v) ≡ val_size v
unfolding dump_i64
length-sparse v =
    length-take (dump_i64 v (replicate 9 256)).1 (dump_i64 v (replicate 9 256)).0
    ∙ ap₂ min (dump_i64-val_size v (replicate 9 256) (omega arith)).0
        (length-overwrite (dump_bytes_i64 v).0 (replicate 9 256))
    ∙ omega (arith, val_size_bounds v)

pub buf_size-sparse : (v : ℤ) → buf_size (get_or (sparse v) 0 0) ≡ val_size v
buf_size-sparse v =
    let (size, told) = dump_i64-val_size v (replicate 9 256) (omega arith) in
    ap buf_size (
      get_or-take (dump_i64 v (replicate 9 256)).1 (dump_i64 v (replicate 9 256)).0
        (omega (arith, size, val_size_bounds v)))
    ∙ told

-- The wire form of a v32, in a buffer of 5 bytes.
abbrev pub sparse32 : ℤ → List ℕ
sparse32 v = counted (dump_i32 v (replicate 5 256))

dump_i32_bounds :
    (v : ℤ) → (1 ≤ (dump_i32 v (replicate 5 256)).1) × ((dump_i32 v (replicate 5 256)).1 ≤ 5)
unfolding dump_i32 dump_bytes_i32
dump_i32_bounds v = ground arith

pub length-sparse32 : (v : ℤ) → length (sparse32 v) ≡ (dump_i32 v (replicate 5 256)).1
unfolding dump_i32
length-sparse32 v =
    length-take (dump_i32 v (replicate 5 256)).1 (dump_i32 v (replicate 5 256)).0
    ∙ ap (min (dump_i32 v (replicate 5 256)).1)
        (length-overwrite (dump_bytes_i32 v).0 (replicate 5 256))
    ∙ omega (arith, dump_i32_bounds v)

pub length-sparse32_bounds : (v : ℤ) → (1 ≤ length (sparse32 v)) × (length (sparse32 v) ≤ 5)
length-sparse32_bounds v = omega (arith, length-sparse32 v, dump_i32_bounds v)

pub buf_size-sparse32 :
    (v : ℤ) → InRange u32 v → buf_size (get_or (sparse32 v) 0 0) ≡ length (sparse32 v)
buf_size-sparse32 v range =
    let (size, told) = dump_i32-val_size v (replicate 5 256) range (omega arith) in
    ap buf_size (
      get_or-take (dump_i32 v (replicate 5 256)).1 (dump_i32 v (replicate 5 256)).0
        (omega (arith, dump_i32_bounds v)))
    ∙ told
    ∙ sym size
    ∙ sym (length-sparse32 v)

-- A length below 2^48 comes through.
pub length_Sparse : (n : ℕ) → n < 2 ^ 48 → Sparse (pos n)
unfolding val_size
length_Sparse n h = ((omega arith, omega arith), ground arith)

-- A length has another size than 8.
pub length_short : (n : ℕ) → n < 2 ^ 48 → val_size (pos n) ≢ 8
length_short n h = (length_Sparse n h).1

-- The number 1 is one byte on the wire.
pub sparse_one : sparse (pos 1) ≡ 1 ∷ []
unfolding dump_i64
sparse_one = refl
