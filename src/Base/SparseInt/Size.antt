-- ===== src/Base/SparseInt/Size.antt =====
-- The three ways in which the code computes a length agree: what `dump` returns, `val_size` of the
-- value, and `buf_size` of the first byte.
use simple_rpc.Prelude.{ℕ, ◌≡◌, refl, if_case, arith, List, [], ◌∷◌, ◌∙◌, get_or, ◌≤◌, length, ap}
use simple_rpc.Prelude.Int.{ℤ, pos, negsuc, to_word, u32, u64, InRange, leb_ℤ}
use simple_rpc.Base.SparseInt.{
  within, byte_at, high_first, overwrite, buf_size, val_size, dump_bytes_i32, dump_bytes_i64,
  dump_i32, dump_i64,
}
use simple_rpc.Base.SparseInt.Top.{size1, size2, size3, size4, size5, size6, size7}

pub dump_bytes-val_size_i64 : (val : ℤ) → (dump_bytes_i64 val).1 ≡ val_size val
unfolding dump_bytes_i64 val_size
dump_bytes-val_size_i64 val = ground arith

pub dump_bytes-val_size_i32 : (val : ℤ) → InRange u32 val → (dump_bytes_i32 val).1 ≡ val_size val
unfolding dump_bytes_i32 val_size
dump_bytes-val_size_i32 (pos n) h = ground arith
dump_bytes-val_size_i32 (negsuc n) h = ground arith

buf_size-dump_bytes_i64 :
    (val : ℤ) → buf_size (get_or (dump_bytes_i64 val).0 0 0) ≡ (dump_bytes_i64 val).1
unfolding dump_bytes_i64
buf_size-dump_bytes_i64 val =
    if_case Tells (within 63 val) (λ _. size1 (byte_at w 0) (omega arith))
      λ _.
        if_case Tells (within 8191 val) (λ _. size2 (byte_at w 1) (omega arith))
          λ _.
            if_case Tells (within 1048575 val) (λ _. size3 (byte_at w 2) (omega arith))
              λ _.
                if_case Tells (within 134217727 val) (λ _. size4 (byte_at w 3) (omega arith))
                  λ _.
                    if_case Tells (within 17179869183 val) (λ _. size5 (byte_at w 4) (omega arith))
                      λ _.
                        if_case Tells (within 2199023255551 val)
                          (λ _. size6 (byte_at w 5) (omega arith))
                          λ _.
                            if_case Tells (within 281474976710655 val)
                              (λ _. size7 (byte_at w 6) (omega arith))
                              λ _.
                                if_case Tells (within 36028797018963967 val)
                                  {x = (0xFE ∷ high_first 8 w, 8)} {y = (0xFF ∷ high_first 8 w, 9)}
                                  (λ _. unfold buf_size in refl) (λ _. unfold buf_size in refl)
  where
    w : ℕ
    w = to_word u64 val

    Tells : List ℕ × ℕ → Type 0
    Tells d = buf_size (get_or d.0 0 0) ≡ d.1

buf_size-dump_bytes_i32 :
    (val : ℤ) → buf_size (get_or (dump_bytes_i32 val).0 0 0) ≡ (dump_bytes_i32 val).1
unfolding dump_bytes_i32
buf_size-dump_bytes_i32 val =
    if_case Tells (within 63 val) (λ _. size1 (byte_at w 0) (omega arith))
      λ _.
        if_case Tells (within 8191 val) (λ _. size2 (byte_at w 1) (omega arith))
          λ _.
            if_case Tells (within 1048575 val) (λ _. size3 (byte_at w 2) (omega arith))
              λ _.
                if_case Tells (within 134217727 val) (λ _. size4 (byte_at w 3) (omega arith))
                  λ _.
                    if_case (λ b. Tells (b ∷ high_first 4 w, 5)) (leb_ℤ val (negsuc 0)) {x = 0xF7}
                      {y = 0xF0} (λ _. unfold buf_size in refl) (λ _. unfold buf_size in refl)
  where
    w : ℕ
    w = to_word u32 val

    Tells : List ℕ × ℕ → Type 0
    Tells d = buf_size (get_or d.0 0 0) ≡ d.1

-- The first byte in the buffer is that of the value, if there is one.
get_or-overwrite :
    (bs buf : List ℕ)
    → 1 ≤ length bs
    → 1 ≤ length buf
    → get_or (overwrite bs buf) 0 0 ≡ get_or bs 0 0
get_or-overwrite [] buf h k = absurd (omega arith)
get_or-overwrite (b ∷ bs) [] h k = absurd (omega arith)
get_or-overwrite (b ∷ bs) (x ∷ buf) h k = refl

length-dump_bytes :
    (val : ℤ) → (1 ≤ length (dump_bytes_i64 val).0) × (1 ≤ length (dump_bytes_i32 val).0)
unfolding dump_bytes_i64 dump_bytes_i32
length-dump_bytes val = (ground arith, ground arith)

-- For every value, the size that `dump(i64)` returns is `val_size` of the value, and `buf_size` finds it
-- from the first byte of the buffer.
pub dump_i64-val_size :
    (val : ℤ) (buf : List ℕ)
    → 1 ≤ length buf
    → ((dump_i64 val buf).1 ≡ val_size val)
      × (buf_size (get_or (dump_i64 val buf).0 0 0) ≡ val_size val)
unfolding dump_i64
dump_i64-val_size val buf room = (
  dump_bytes-val_size_i64 val,
  ap buf_size (get_or-overwrite _ buf (length-dump_bytes val).0 room)
      ∙ buf_size-dump_bytes_i64 val
      ∙ dump_bytes-val_size_i64 val,
)

-- The same of `dump(i32)`, for every i32.
pub dump_i32-val_size :
    (val : ℤ) (buf : List ℕ)
    → InRange u32 val
    → 1 ≤ length buf
    → ((dump_i32 val buf).1 ≡ val_size val)
      × (buf_size (get_or (dump_i32 val buf).0 0 0) ≡ val_size val)
unfolding dump_i32
dump_i32-val_size val buf h room = (
  dump_bytes-val_size_i32 val h,
  ap buf_size (get_or-overwrite _ buf (length-dump_bytes val).1 room)
      ∙ buf_size-dump_bytes_i32 val
      ∙ dump_bytes-val_size_i32 val h,
)
