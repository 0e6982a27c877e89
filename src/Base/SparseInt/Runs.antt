-- ===== src/Base/SparseInt/Runs.antt =====
-- Concrete runs.
use simple_rpc.Prelude.{◌≡◌, ◌≢◌, refl, arith, [], ◌∷◌, ◌++◌, replicate}
use simple_rpc.Prelude.Int.{pos, negsuc}
use simple_rpc.Base.SparseInt.{dump_i32, dump_i64, load_i32, load_i64, val_size, buf_size, get_or}
use simple_rpc.Base.SparseInt.RoundTrip.{load-dump_i64}
use simple_rpc.Base.SparseInt.Wire.{counted, load-counted_i64, counted_eight_lossy}
use simple_rpc.Base.SparseInt.Size.{dump_i64-val_size}

dump_minus_65 : dump_i64 (negsuc 64) (replicate 9 0) ≡ (0xBF ∷ 0xBF ∷ replicate 7 0, 2)
unfolding dump_i64
dump_minus_65 = refl

load_minus_65 : load_i64 (0xBF ∷ 0xBF ∷ replicate 7 0) ≡ negsuc 64
unfolding load_i64
load_minus_65 = refl

load_i32_big : load_i32 (dump_i32 (negsuc 2000000000) (replicate 5 0)).0 ≡ negsuc 2000000000
unfolding load_i32 dump_i32
load_i32_big = refl

-- An 8-byte value: the buffer has 9 bytes of it, and the size is 8.
dump_eight :
    dump_i64 (pos 0x0001_0203_0405_0607) (replicate 9 0xAA)
    ≡ (0xFE ∷ 0 ∷ 1 ∷ 2 ∷ 3 ∷ 4 ∷ 5 ∷ 6 ∷ 7 ∷ [], 8)
unfolding dump_i64
dump_eight = refl

load-dump_i64_example : load_i64 (dump_i64 (negsuc 64) (replicate 9 0)).0 ≡ negsuc 64
load-dump_i64_example = load-dump_i64 (negsuc 64) (replicate 9 0) (omega arith) (omega arith)

three : val_size (pos 70000) ≢ 8
unfolding val_size
three = λ e. absurd (omega arith)

load-counted_i64_example :
    load_i64 (counted (dump_i64 (pos 70000) (replicate 9 0)) ++ (1 ∷ 2 ∷ [])) ≡ pos 70000
load-counted_i64_example =
    load-counted_i64 (pos 70000) (replicate 9 0) (1 ∷ 2 ∷ []) (omega arith) (omega arith) three

dump_i64-val_size_example :
    ((dump_i64 (pos 8192) (replicate 9 0)).1 ≡ val_size (pos 8192))
    × (buf_size (get_or (dump_i64 (pos 8192) (replicate 9 0)).0 0 0) ≡ val_size (pos 8192))
dump_i64-val_size_example = dump_i64-val_size (pos 8192) (replicate 9 0) (omega arith)

eight : val_size (pos 0x0001_0203_0405_0607) ≡ 8
unfolding val_size
eight = refl

eight' : val_size (pos 0x0001_0203_0405_0608) ≡ 8
unfolding val_size
eight' = refl

counted_eight_lossy_example :
    counted (dump_i64 (pos 0x0001_0203_0405_0607) (replicate 9 0))
    ≡ counted (dump_i64 (pos 0x0001_0203_0405_0608) (replicate 9 0))
counted_eight_lossy_example =
    counted_eight_lossy (pos 0x0001_0203_0405_0607) (pos 0x0001_0203_0405_0608) (replicate 9 0)
      (omega arith) eight eight' refl
