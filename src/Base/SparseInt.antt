-- ===== src/Base/SparseInt.antt =====
-- SparseInt of base/basetypes.h and base/basetypes.cc: integers in 1 to 9 bytes, the first of which
-- tells the length. A `char` is a byte below 256, `pv[i]` is byte `i` of the value's two's complement
-- pattern, and a buffer is the list of its bytes.
pub mod Top
pub mod Size
pub mod RoundTrip
pub mod Wire
pub mod Counted
mod Runs
use simple_rpc.Prelude.{
  ℕ, zero, suc, ◌+◌, ◌-◌, ◌*◌, ◌/◌, ◌%◌, ◌^◌, ◌≡◌, bit_and, bit_or, Bool, true, false, ◌&&◌, List,
  [], ◌∷◌, ltb, ◌==◌, if◌then◌else◌, get_or, set, replicate,
}
use simple_rpc.Prelude.Int.{ℤ, pos, negsuc, leb_ℤ, to_word, of_word, u32, u64}
use simple_rpc.Prelude.Bytes.{of_le_bytes}

pub buf_size : ℕ → ℕ
buf_size byte0 =
    if bit_and byte0 0x80 == 0
    then 1
    else if bit_and byte0 0xC0 == 0x80
    then 2
    else if bit_and byte0 0xE0 == 0xC0
    then 3
    else if bit_and byte0 0xF0 == 0xE0
    then 4
    else if bit_and byte0 0xF8 == 0xF0
    then 5
    else if bit_and byte0 0xFC == 0xF8
    then 6
    else if bit_and byte0 0xFE == 0xFC
    then 7
    else if bit_and byte0 0xFF == 0xFE
    then 8
    else 9

-- `-(lo + 1) <= val && val <= lo`, the form of every range that the code tests.
abbrev pub within : ℕ → ℤ → Bool
within lo val = leb_ℤ (negsuc lo) val && leb_ℤ val (pos lo)

pub val_size : ℤ → ℕ
val_size val =
    if within 63 val
    then 1
    else if within 8191 val
    then 2
    else if within 1048575 val
    then 3
    else if within 134217727 val
    then 4
    else if within 17179869183 val
    then 5
    else if within 2199023255551 val
    then 6
    else if within 281474976710655 val
    then 7
    else if within 36028797018963967 val
    then 8
    else 9

-- `pv[i]`
abbrev pub byte_at : ℕ → ℕ → ℕ
byte_at w i = w / 256 ^ i % 256

-- `pv[i], pv[i - 1], .., pv[0]`, as they follow one another in the buffer; `n` of them.
abbrev pub high_first : ℕ → ℕ → List ℕ
high_first zero w = []
high_first (suc i) w = byte_at w i ∷ high_first i w

-- `c &= mask; c |= tag`
abbrev pub tagged : ℕ → ℕ → ℕ → ℕ
tagged c mask tag = bit_or (bit_and c mask) tag

-- What `dump` stores from `buf[0]` on, and the size that it returns.
pub dump_bytes_i32 : ℤ → List ℕ × ℕ
dump_bytes_i32 val =
    let w = to_word u32 val in
    if within 63 val
    then (bit_and (byte_at w 0) 0x7F ∷ [], 1)
    else if within 8191 val
    then (tagged (byte_at w 1) 0x3F 0x80 ∷ high_first 1 w, 2)
    else if within 1048575 val
    then (tagged (byte_at w 2) 0x1F 0xC0 ∷ high_first 2 w, 3)
    else if within 134217727 val
    then (tagged (byte_at w 3) 0x0F 0xE0 ∷ high_first 3 w, 4)
    else ((if leb_ℤ val (negsuc 0) then 0xF7 else 0xF0) ∷ high_first 4 w, 5)

pub dump_bytes_i64 : ℤ → List ℕ × ℕ
dump_bytes_i64 val =
    let w = to_word u64 val in
    if within 63 val
    then (bit_and (byte_at w 0) 0x7F ∷ [], 1)
    else if within 8191 val
    then (tagged (byte_at w 1) 0x3F 0x80 ∷ high_first 1 w, 2)
    else if within 1048575 val
    then (tagged (byte_at w 2) 0x1F 0xC0 ∷ high_first 2 w, 3)
    else if within 134217727 val
    then (tagged (byte_at w 3) 0x0F 0xE0 ∷ high_first 3 w, 4)
    else if within 17179869183 val
    then (tagged (byte_at w 4) 0x07 0xF0 ∷ high_first 4 w, 5)
    else if within 2199023255551 val
    then (tagged (byte_at w 5) 0x03 0xF8 ∷ high_first 5 w, 6)
    else if within 281474976710655 val
    then (tagged (byte_at w 6) 0x01 0xFC ∷ high_first 6 w, 7)
    else if within 36028797018963967 val
    then (0xFE ∷ high_first 8 w, 8)
    else (0xFF ∷ high_first 8 w, 9)

-- The stores `buf[0] = ..; buf[1] = ..` over what the buffer held.
abbrev pub overwrite : List ℕ → List ℕ → List ℕ
overwrite [] buf = buf
overwrite (b ∷ bs) [] = []
overwrite (b ∷ bs) (_ ∷ buf) = b ∷ overwrite bs buf

-- `dump(val, buf)`: the buffer afterwards, and the result.
pub dump_i32 : ℤ → List ℕ → List ℕ × ℕ
unfolding dump_bytes_i32
dump_i32 val buf = (overwrite (dump_bytes_i32 val).0 buf, (dump_bytes_i32 val).1)

pub dump_i64 : ℤ → List ℕ → List ℕ × ℕ
unfolding dump_bytes_i64
dump_i64 val buf = (overwrite (dump_bytes_i64 val).0 buf, (dump_bytes_i64 val).1)

-- `for (i = ..; n rounds) pv[i] = buf[last - i]`
copy_back : ℕ → ℕ → ℕ → List ℕ → List ℕ → List ℕ
copy_back zero i last buf pv = pv
copy_back (suc n) i last buf pv = copy_back n (i + 1) last buf (set pv i (get_or buf (last - i) 0))

-- `for (i = ..; n rounds) pv[i] = 0xFF`
fill_ff : ℕ → ℕ → List ℕ → List ℕ
fill_ff zero i pv = pv
fill_ff (suc n) i pv = fill_ff n (i + 1) (set pv i 0xFF)

-- The short forms, in a value of `width` bytes: strip the length tag off the top byte, and extend the
-- sign. The top byte is below 128 when it is shifted, so the shift of a `char` is a division.
load_short : ℕ → ℕ → List ℕ → List ℕ
unfolding copy_back fill_ff
load_short width bsize buf =
    let pv = copy_back bsize 0 (bsize - 1) buf (replicate width 0) in
    let top = bit_and (get_or pv (bsize - 1) 0) (0xFF / 2 ^ bsize) in
    if bit_and (top / 2 ^ (7 - bsize)) 1 == 0
    then set pv (bsize - 1) top
    else fill_ff (width - bsize) bsize
        (set pv (bsize - 1) (bit_or top (0xFF * 2 ^ (7 - bsize)) % 256))

pub load_i32 : List ℕ → ℤ
unfolding buf_size load_short copy_back
load_i32 buf =
    let bsize = buf_size (get_or buf 0 0) in
    of_word u32 (
      of_le_bytes
        (if ltb bsize 5 then load_short 4 bsize buf else copy_back 4 0 4 buf (replicate 4 0)))

pub load_i64 : List ℕ → ℤ
unfolding buf_size load_short copy_back
load_i64 buf =
    let bsize = buf_size (get_or buf 0 0) in
    of_word u64 (
      of_le_bytes
        (if ltb bsize 8 then load_short 8 bsize buf else copy_back 8 0 8 buf (replicate 8 0)))
