-- ===== src/Base/SparseInt/RoundTrip.antt =====
-- `load` after `dump`, in the buffer that `dump` filled.
mod Short32
mod Short64
use simple_rpc.Prelude.{
  ℕ, suc, ◌+◌, ◌*◌, ◌/◌, ◌%◌, ◌^◌, ◌<◌, ◌≤◌, ◌≡◌, refl, sym, ◌∙◌, ap, inl, inr, if_case, true,
  arith, List, [], ◌∷◌, ◌++◌, length, drop, ◌⊎◌,
}
use simple_rpc.Prelude.Int.{
  ℤ, pos, negsuc, to_word, of_word, u32, u64, InRange, of_word-to_word32, of_word-to_word64, leb_ℤ,
}
use simple_rpc.Prelude.Bytes.{of_le_bytes, le_bytes, of_le_bytes-le_bytes}
use simple_rpc.Base.SparseInt.{
  within, high_first, overwrite, dump_bytes_i32, dump_bytes_i64, dump_i32, dump_i64, load_i32,
  load_i64,
}
use Short32
use Short64

pub overwrite-append :
    (bs buf : List ℕ) → length bs ≤ length buf → overwrite bs buf ≡ bs ++ drop (length bs) buf
overwrite-append [] buf h = refl
overwrite-append (b ∷ bs) [] h = absurd (omega arith)
overwrite-append (b ∷ bs) (x ∷ buf) h = ap (λ t. b ∷ t) (overwrite-append bs buf (omega arith))

within_fits64 :
    (lo : ℕ) (val : ℤ) → lo < 2 ^ 63 → within lo val ≡ true → Short64.Fits lo (to_word u64 val)
within_fits64 lo (pos n) h e = inl (ground arith)
within_fits64 lo (negsuc n) h e = inr (ground arith)

within_fits32 :
    (lo : ℕ) (val : ℤ) → lo < 2 ^ 31 → within lo val ≡ true → Short32.Fits lo (to_word u32 val)
within_fits32 lo (pos n) h e = inl (ground arith)
within_fits32 lo (negsuc n) h e = inr (ground arith)

-- The long forms hold the whole pattern behind the first byte.
long64 :
    (b w : ℕ) (rest : List ℕ)
    → w < u64
    → (b ≡ 0xFE) ⊎ (b ≡ 0xFF)
    → load_i64 (b ∷ high_first 8 w ++ rest) ≡ of_word u64 w
unfolding load_i64
long64 b w rest h (inl e) = rw e (ap (of_word u64) (omega arith))
long64 b w rest h (inr e) = rw e (ap (of_word u64) (omega arith))

long32 :
    (b w : ℕ) (rest : List ℕ)
    → w < u32
    → (b ≡ 0xF0) ⊎ (b ≡ 0xF7)
    → load_i32 (b ∷ high_first 4 w ++ rest) ≡ of_word u32 w
unfolding load_i32
long32 b w rest h (inl e) = rw e (ap (of_word u32) (omega arith))
long32 b w rest h (inr e) = rw e (ap (of_word u32) (omega arith))

to_word_lt : (v : ℤ) → (to_word u64 v < u64) × (to_word u32 v < u32)
to_word_lt (pos n) = (omega arith, omega arith)
to_word_lt (negsuc n) = (omega arith, omega arith)

-- `load` reads the value off the bytes that `dump` stored, whatever stands behind them.
pub load-dump_bytes_i64 :
    (val : ℤ) (rest : List ℕ)
    → load_i64 ((dump_bytes_i64 val).0 ++ rest) ≡ of_word u64 (to_word u64 val)
unfolding dump_bytes_i64
load-dump_bytes_i64 val rest =
    if_case Loads (within 63 val)
      (λ e. Short64.short1 w rest (within_fits64 63 val (omega arith) e))
      λ _.
        if_case Loads (within 8191 val)
          (λ e. Short64.short2 w rest (within_fits64 8191 val (omega arith) e))
          λ _.
            if_case Loads (within 1048575 val)
              (λ e. Short64.short3 w rest (within_fits64 1048575 val (omega arith) e))
              λ _.
                if_case Loads (within 134217727 val)
                  (λ e. Short64.short4 w rest (within_fits64 134217727 val (omega arith) e))
                  λ _.
                    if_case Loads (within 17179869183 val)
                      (λ e. Short64.short5 w rest (within_fits64 17179869183 val (omega arith) e))
                      λ _.
                        if_case Loads (within 2199023255551 val)
                          (λ e.
                            Short64.short6 w rest (within_fits64 2199023255551 val (omega arith) e))
                          λ _.
                            if_case Loads (within 281474976710655 val)
                              (λ e.
                                Short64.short7 w rest
                                  (within_fits64 281474976710655 val (omega arith) e))
                              λ _.
                                if_case Loads (within 36028797018963967 val)
                                  {x = (0xFE ∷ high_first 8 w, 8)} {y = (0xFF ∷ high_first 8 w, 9)}
                                  (λ _. long64 0xFE w rest (to_word_lt val).0 (inl refl))
                                  λ _. long64 0xFF w rest (to_word_lt val).0 (inr refl)
  where
    w : ℕ
    w = to_word u64 val

    Loads : List ℕ × ℕ → Type 0
    Loads d = load_i64 (d.0 ++ rest) ≡ of_word u64 w

-- `load` reads the value off the bytes that `dump` stored, whatever stands behind them.
pub load-dump_bytes_i32 :
    (val : ℤ) (rest : List ℕ)
    → load_i32 ((dump_bytes_i32 val).0 ++ rest) ≡ of_word u32 (to_word u32 val)
unfolding dump_bytes_i32
load-dump_bytes_i32 val rest =
    if_case Loads (within 63 val)
      (λ e. Short32.short1 w rest (within_fits32 63 val (omega arith) e))
      λ _.
        if_case Loads (within 8191 val)
          (λ e. Short32.short2 w rest (within_fits32 8191 val (omega arith) e))
          λ _.
            if_case Loads (within 1048575 val)
              (λ e. Short32.short3 w rest (within_fits32 1048575 val (omega arith) e))
              λ _.
                if_case Loads (within 134217727 val)
                  (λ e. Short32.short4 w rest (within_fits32 134217727 val (omega arith) e))
                  λ _.
                    if_case (λ b. Loads (b ∷ high_first 4 w, 5)) (leb_ℤ val (negsuc 0))
                      (λ _. long32 0xF7 w rest (to_word_lt val).1 (inr refl))
                      (λ _. long32 0xF0 w rest (to_word_lt val).1 (inl refl))
  where
    w : ℕ
    w = to_word u32 val

    Loads : List ℕ × ℕ → Type 0
    Loads d = load_i32 (d.0 ++ rest) ≡ of_word u32 w

pub length-dump_bytes_i64 : (val : ℤ) → length (dump_bytes_i64 val).0 ≤ 9
unfolding dump_bytes_i64
length-dump_bytes_i64 val = ground arith

pub length-dump_bytes_i32 : (val : ℤ) → length (dump_bytes_i32 val).0 ≤ 5
unfolding dump_bytes_i32
length-dump_bytes_i32 val = ground arith

-- In the buffer that `dump(i64)` filled, `load_i64` finds the value again: for every i64, and whatever
-- the buffer of 9 bytes or more held before.
pub load-dump_i64 :
    (val : ℤ) (buf : List ℕ)
    → InRange u64 val
    → 9 ≤ length buf
    → load_i64 (dump_i64 val buf).0 ≡ val
unfolding dump_i64
load-dump_i64 val buf h room =
    rw (overwrite-append (dump_bytes_i64 val).0 buf (omega (arith, length-dump_bytes_i64 val)))
      (load-dump_bytes_i64 val _ ∙ of_word-to_word64 val h)

-- The same of `dump(i32)` and `load_i32`, for every i32 and a buffer of 5 bytes or more.
pub load-dump_i32 :
    (val : ℤ) (buf : List ℕ)
    → InRange u32 val
    → 5 ≤ length buf
    → load_i32 (dump_i32 val buf).0 ≡ val
unfolding dump_i32
load-dump_i32 val buf h room =
    rw (overwrite-append (dump_bytes_i32 val).0 buf (omega (arith, length-dump_bytes_i32 val)))
      (load-dump_bytes_i32 val _ ∙ of_word-to_word32 val h)
