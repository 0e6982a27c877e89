-- ===== src/Base/SparseInt/RoundTrip/Short64.antt =====
-- `load_i64` on each short form that `dump` writes, whatever follows it in the buffer.
use simple_rpc.Prelude.{ℕ, ◌+◌, ◌<◌, ◌≤◌, ◌≡◌, ◌⊎◌, inl, inr, ap, bit_and, arith, List, ◌∷◌, ◌++◌}
use simple_rpc.Prelude.Int.{of_word, u64}
use simple_rpc.Base.SparseInt.{byte_at, high_first, tagged, load_i64}
use simple_rpc.Base.SparseInt.Top.{
  low1, high1, low2, high2, low3, high3, low4, high4, low5, high5, low6, high6, low7, high7,
}

-- The pattern of a number from -(lo + 1) to lo.
abbrev pub Fits : ℕ → ℕ → Type 0
Fits lo w = (w ≤ lo) ⊎ ((u64 ≤ w + lo + 1) × (w < u64))

pub short1 :
    (w : ℕ) (rest : List ℕ)
    → Fits 63 w
    → load_i64 (bit_and (byte_at w 0) 0x7F ∷ high_first 0 w ++ rest) ≡ of_word u64 w
unfolding load_i64
short1 w rest (inl h) =
    let low = low1 (byte_at w 0) (omega arith) in
    rw (low.size, low.sign, low.value) (ap (of_word u64) (omega arith))
short1 w rest (inr h) =
    let high = high1 (byte_at w 0) (omega arith) (omega arith) in
    rw (high.size, high.sign, high.value) (ap (of_word u64) (omega arith))

pub short2 :
    (w : ℕ) (rest : List ℕ)
    → Fits 8191 w
    → load_i64 (tagged (byte_at w 1) 0x3F 0x80 ∷ high_first 1 w ++ rest) ≡ of_word u64 w
unfolding load_i64
short2 w rest (inl h) =
    let low = low2 (byte_at w 1) (omega arith) in
    rw (low.size, low.sign, low.value) (ap (of_word u64) (omega arith))
short2 w rest (inr h) =
    let high = high2 (byte_at w 1) (omega arith) (omega arith) in
    rw (high.size, high.sign, high.value) (ap (of_word u64) (omega arith))

pub short3 :
    (w : ℕ) (rest : List ℕ)
    → Fits 1048575 w
    → load_i64 (tagged (byte_at w 2) 0x1F 0xC0 ∷ high_first 2 w ++ rest) ≡ of_word u64 w
unfolding load_i64
short3 w rest (inl h) =
    let low = low3 (byte_at w 2) (omega arith) in
    rw (low.size, low.sign, low.value) (ap (of_word u64) (omega arith))
short3 w rest (inr h) =
    let high = high3 (byte_at w 2) (omega arith) (omega arith) in
    rw (high.size, high.sign, high.value) (ap (of_word u64) (omega arith))

pub short4 :
    (w : ℕ) (rest : List ℕ)
    → Fits 134217727 w
    → load_i64 (tagged (byte_at w 3) 0x0F 0xE0 ∷ high_first 3 w ++ rest) ≡ of_word u64 w
unfolding load_i64
short4 w rest (inl h) =
    let low = low4 (byte_at w 3) (omega arith) in
    rw (low.size, low.sign, low.value) (ap (of_word u64) (omega arith))
short4 w rest (inr h) =
    let high = high4 (byte_at w 3) (omega arith) (omega arith) in
    rw (high.size, high.sign, high.value) (ap (of_word u64) (omega arith))

pub short5 :
    (w : ℕ) (rest : List ℕ)
    → Fits 17179869183 w
    → load_i64 (tagged (byte_at w 4) 0x07 0xF0 ∷ high_first 4 w ++ rest) ≡ of_word u64 w
unfolding load_i64
short5 w rest (inl h) =
    let low = low5 (byte_at w 4) (omega arith) in
    rw (low.size, low.sign, low.value) (ap (of_word u64) (omega arith))
short5 w rest (inr h) =
    let high = high5 (byte_at w 4) (omega arith) (omega arith) in
    rw (high.size, high.sign, high.value) (ap (of_word u64) (omega arith))

pub short6 :
    (w : ℕ) (rest : List ℕ)
    → Fits 2199023255551 w
    → load_i64 (tagged (byte_at w 5) 0x03 0xF8 ∷ high_first 5 w ++ rest) ≡ of_word u64 w
unfolding load_i64
short6 w rest (inl h) =
    let low = low6 (byte_at w 5) (omega arith) in
    rw (low.size, low.sign, low.value) (ap (of_word u64) (omega arith))
short6 w rest (inr h) =
    let high = high6 (byte_at w 5) (omega arith) (omega arith) in
    rw (high.size, high.sign, high.value) (ap (of_word u64) (omega arith))

pub short7 :
    (w : ℕ) (rest : List ℕ)
    → Fits 281474976710655 w
    → load_i64 (tagged (byte_at w 6) 0x01 0xFC ∷ high_first 6 w ++ rest) ≡ of_word u64 w
unfolding load_i64
short7 w rest (inl h) =
    let low = low7 (byte_at w 6) (omega arith) in
    rw (low.size, low.sign, low.value) (ap (of_word u64) (omega arith))
short7 w rest (inr h) =
    let high = high7 (byte_at w 6) (omega arith) (omega arith) in
    rw (high.size, high.sign, high.value) (ap (of_word u64) (omega arith))
