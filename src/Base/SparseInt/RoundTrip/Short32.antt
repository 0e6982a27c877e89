-- ===== src/Base/SparseInt/RoundTrip/Short32.antt =====
-- `load_i32` on each short form that `dump` writes, whatever follows it in the buffer.
use simple_rpc.Prelude.{ℕ, ◌+◌, ◌<◌, ◌≤◌, ◌≡◌, ◌⊎◌, inl, inr, ap, bit_and, arith, List, ◌∷◌, ◌++◌}
use simple_rpc.Prelude.Int.{of_word, u32}
use simple_rpc.Base.SparseInt.{byte_at, high_first, tagged, load_i32}
use simple_rpc.Base.SparseInt.Top.{low1, high1, low2, high2, low3, high3, low4, high4}

-- The pattern of a number from -(lo + 1) to lo.
abbrev pub Fits : ℕ → ℕ → Type 0
Fits lo w = (w ≤ lo) ⊎ ((u32 ≤ w + lo + 1) × (w < u32))

pub short1 :
    (w : ℕ) (rest : List ℕ)
    → Fits 63 w
    → load_i32 (bit_and (byte_at w 0) 0x7F ∷ high_first 0 w ++ rest) ≡ of_word u32 w
unfolding load_i32
short1 w rest (inl h) =
    let low = low1 (byte_at w 0) (omega arith) in
    rw (low.size, low.sign, low.value) (ap (of_word u32) (omega arith))
short1 w rest (inr h) =
    let high = high1 (byte_at w 0) (omega arith) (omega arith) in
    rw (high.size, high.sign, high.value) (ap (of_word u32) (omega arith))

pub short2 :
    (w : ℕ) (rest : List ℕ)
    → Fits 8191 w
    → load_i32 (tagged (byte_at w 1) 0x3F 0x80 ∷ high_first 1 w ++ rest) ≡ of_word u32 w
unfolding load_i32
short2 w rest (inl h) =
    let low = low2 (byte_at w 1) (omega arith) in
    rw (low.size, low.sign, low.value) (ap (of_word u32) (omega arith))
short2 w rest (inr h) =
    let high = high2 (byte_at w 1) (omega arith) (omega arith) in
    rw (high.size, high.sign, high.value) (ap (of_word u32) (omega arith))

pub short3 :
    (w : ℕ) (rest : List ℕ)
    → Fits 1048575 w
    → load_i32 (tagged (byte_at w 2) 0x1F 0xC0 ∷ high_first 2 w ++ rest) ≡ of_word u32 w
unfolding load_i32
short3 w rest (inl h) =
    let low = low3 (byte_at w 2) (omega arith) in
    rw (low.size, low.sign, low.value) (ap (of_word u32) (omega arith))
short3 w rest (inr h) =
    let high = high3 (byte_at w 2) (omega arith) (omega arith) in
    rw (high.size, high.sign, high.value) (ap (of_word u32) (omega arith))

pub short4 :
    (w : ℕ) (rest : List ℕ)
    → Fits 134217727 w
    → load_i32 (tagged (byte_at w 3) 0x0F 0xE0 ∷ high_first 3 w ++ rest) ≡ of_word u32 w
unfolding load_i32
short4 w rest (inl h) =
    let low = low4 (byte_at w 3) (omega arith) in
    rw (low.size, low.sign, low.value) (ap (of_word u32) (omega arith))
short4 w rest (inr h) =
    let high = high4 (byte_at w 3) (omega arith) (omega arith) in
    rw (high.size, high.sign, high.value) (ap (of_word u32) (omega arith))
