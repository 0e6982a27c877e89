-- ===== src/Base/SparseInt/Wire.antt =====
-- What is left when only the bytes that `dump` counts are kept, as the stream operators of rpc/marshal.h
-- keep them: `m.write(buf, bsize)`.
use simple_rpc.Prelude.{
  ℕ, ◌≡◌, ◌≢◌, ◌/◌, ◌≤◌, ◌⊎◌, inl, inr, sym, ◌∙◌, arith, List, ◌∷◌, ◌++◌, length, take,
  take-append_exact,
}
use simple_rpc.Prelude.Int.{ℤ, to_word, u32, u64, InRange, of_word-to_word32, of_word-to_word64}
use simple_rpc.Base.SparseInt.{
  high_first, dump_bytes_i32, dump_bytes_i64, dump_i32, dump_i64, load_i32, load_i64, val_size,
}
use simple_rpc.Base.SparseInt.Size.{dump_bytes-val_size_i64}
use simple_rpc.Base.SparseInt.RoundTrip.{
  length-dump_bytes_i32, overwrite-append, load-dump_bytes_i32, load-dump_bytes_i64,
  length-dump_bytes_i64,
}

-- The counted bytes of a buffer.
abbrev pub counted : List ℕ × ℕ → List ℕ
counted (buf, size) = take size buf

-- Every form but that of 8 bytes has as many bytes as `dump` says.
size_cases :
    (val : ℤ)
    → ((dump_bytes_i64 val).1 ≡ 8) ⊎ (length (dump_bytes_i64 val).0 ≡ (dump_bytes_i64 val).1)
unfolding dump_bytes_i64
size_cases val = ground arith

dump_bytes_i32-count : (val : ℤ) → length (dump_bytes_i32 val).0 ≡ (dump_bytes_i32 val).1
unfolding dump_bytes_i32
dump_bytes_i32-count val = ground arith

pub counted-dump_i64 :
    (val : ℤ) (buf : List ℕ)
    → 9 ≤ length buf
    → val_size val ≢ 8
    → counted (dump_i64 val buf) ≡ (dump_bytes_i64 val).0
unfolding dump_i64
counted-dump_i64 val buf room short =
    rw (overwrite-append (dump_bytes_i64 val).0 buf (omega (arith, length-dump_bytes_i64 val)))
      (elim (size_cases val) [
        | inl e ↦ absurd (short (sym (dump_bytes-val_size_i64 val) ∙ e))
        | inr e ↦ take-append_exact _ _ _ e
      ])

-- `load_i64` needs no more than the counted bytes, unless the form is that of 8 bytes: whatever stands
-- behind them, it finds the i64 again.
pub load-counted_i64 :
    (val : ℤ) (buf rest : List ℕ)
    → InRange u64 val
    → 9 ≤ length buf
    → val_size val ≢ 8
    → load_i64 (counted (dump_i64 val buf) ++ rest) ≡ val
load-counted_i64 val buf rest h room short =
    rw (counted-dump_i64 val buf room short)
      (load-dump_bytes_i64 val rest ∙ of_word-to_word64 val h)

-- The form of an i32 has always as many bytes as `dump` says, and `load_i32` finds it again from them.
pub load-counted_i32 :
    (val : ℤ) (buf rest : List ℕ)
    → InRange u32 val
    → 5 ≤ length buf
    → load_i32 (counted (dump_i32 val buf) ++ rest) ≡ val
unfolding dump_i32
load-counted_i32 val buf rest h room =
    rw
      (
        overwrite-append (dump_bytes_i32 val).0 buf (omega (arith, length-dump_bytes_i32 val)),
        take-append_exact _ (dump_bytes_i32 val).0 _ (dump_bytes_i32-count val),
      )
      (load-dump_bytes_i32 val rest ∙ of_word-to_word32 val h)

dump_bytes_eight :
    (val : ℤ)
    → (dump_bytes_i64 val).1 ≡ 8
    → dump_bytes_i64 val ≡ (0xFE ∷ high_first 8 (to_word u64 val), 8)
unfolding dump_bytes_i64
dump_bytes_eight val = ground arith

-- The counted bytes of the 8-byte form are the tag and the seven upper bytes of the pattern.
counted_eight :
    (val : ℤ) (buf : List ℕ)
    → 9 ≤ length buf
    → val_size val ≡ 8
    → counted (dump_i64 val buf) ≡ 0xFE ∷ high_first 7 (to_word u64 val / 256)
unfolding dump_i64
counted_eight val buf room e =
    rw
      (
        overwrite-append (dump_bytes_i64 val).0 buf (omega (arith, length-dump_bytes_i64 val)),
        dump_bytes_eight val (dump_bytes-val_size_i64 val ∙ e),
      )
      (upper_bytes (to_word u64 val))
  where
    upper_bytes : (w : ℕ) → (0xFE ∷ take 7 (high_first 8 w)) ≡ 0xFE ∷ high_first 7 (w / 256)
    upper_bytes w = ground arith

-- The 8-byte form loses the low byte: two values of that form that differ in nothing else give the same
-- counted bytes, so that no reader of them can tell the two apart.
pub counted_eight_lossy :
    (v v' : ℤ) (buf : List ℕ)
    → 9 ≤ length buf
    → val_size v ≡ 8
    → val_size v' ≡ 8
    → to_word u64 v / 256 ≡ to_word u64 v' / 256
    → counted (dump_i64 v buf) ≡ counted (dump_i64 v' buf)
counted_eight_lossy v v' buf room e e' same =
    rw (counted_eight v buf room e, counted_eight v' buf room e', same)
