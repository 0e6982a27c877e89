-- ===== src/Base/SparseInt/Top.antt =====
-- The first byte of each form: its tag tells the length, and its low bits with the sign extended give
-- back the byte of the value that `dump` put there.
use simple_rpc.Prelude.{
  ℕ, ◌+◌, ◌-◌, ◌*◌, ◌/◌, ◌%◌, ◌^◌, ◌<◌, ◌≤◌, ◌≡◌, refl, subst, bit_and, bit_or, Bool, true, false,
  not, ◌&&◌, ◌==◌, ==_iff, arith,
}
use simple_rpc.Prelude.Tables.{table, table_row}
use simple_rpc.Base.SparseInt.{buf_size, tagged}

-- What `load` makes of the top byte `t` of a form of `k` bytes.
abbrev pub stripped : ℕ → ℕ → ℕ
stripped k t = bit_and t (0xFF / 2 ^ k)

abbrev pub extended : ℕ → ℕ → ℕ
extended k t = bit_or (stripped k t) (0xFF * 2 ^ (7 - k)) % 256

abbrev pub is_positive : ℕ → ℕ → Bool
is_positive k t = bit_and (stripped k t / 2 ^ (7 - k)) 1 == 0

abbrev encodes_low : ℕ → ℕ → ℕ → Bool
encodes_low k t b = (buf_size t == k) && is_positive k t && (stripped k t == b)

abbrev encodes_high : ℕ → ℕ → ℕ → Bool
encodes_high k t b = (buf_size t == k) && not (is_positive k t) && (extended k t == b)

-- `t` is the first byte of a form of `k` bytes, and stands for the byte `b` of a number that is not
-- negative.
pub record Low (k t b : ℕ) : Type 0 where
  pub size : buf_size t ≡ k
  pub sign : is_positive k t ≡ true
  pub value : stripped k t ≡ b

-- The same of a negative number.
pub record High (k t b : ℕ) : Type 0 where
  pub size : buf_size t ≡ k
  pub sign : is_positive k t ≡ false
  pub value : extended k t ≡ b

Low-of : (k t b : ℕ) → encodes_low k t b ≡ true → Low k t b
Low-of k t b h = ground arith

High-of : (k t b : ℕ) → encodes_high k t b ≡ true → High k t b
High-of k t b h = ground arith

-- One table for each form: the bytes below `2 ^ (7 - k)`, and those at the other end.
module _ (k : ℕ) (top : ℕ → ℕ) where
  low_table : Bool
  unfolding table buf_size
  low_table = table (2 ^ (7 - k)) (λ b. encodes_low k (top b) b)

  high_table : Bool
  unfolding table buf_size
  high_table =
      table (2 ^ (7 - k))
        (λ c. encodes_high k (top (c + 256 - 2 ^ (7 - k))) (c + 256 - 2 ^ (7 - k)))

  Low-entry : low_table ≡ true → (b : ℕ) → b < 2 ^ (7 - k) → Low k (top b) b
  unfolding low_table
  Low-entry e b h = Low-of k (top b) b (table_row _ _ b e h)

  High-entry : high_table ≡ true → (b : ℕ) → 256 ≤ b + 2 ^ (7 - k) → b < 256 → High k (top b) b
  unfolding high_table
  High-entry e b h h' =
      let c = b + 2 ^ (7 - k) - 256 in
      let inside : c < 2 ^ (7 - k) = omega arith in
      let eq : c + 256 - 2 ^ (7 - k) ≡ b = omega arith in
      subst (λ x. High k (top x) x) eq (High-of k _ _ (table_row _ _ c e inside))

pub low1 : (b : ℕ) → b < 64 → Low 1 (bit_and b 0x7F) b
unfolding low_table
low1 = Low-entry 1 (λ b. bit_and b 0x7F) refl

pub high1 : (b : ℕ) → 192 ≤ b → b < 256 → High 1 (bit_and b 0x7F) b
unfolding high_table
high1 b h h' = High-entry 1 (λ b. bit_and b 0x7F) refl b (omega arith) h'

pub low2 : (b : ℕ) → b < 32 → Low 2 (tagged b 0x3F 0x80) b
unfolding low_table
low2 = Low-entry 2 (λ b. tagged b 0x3F 0x80) refl

pub high2 : (b : ℕ) → 224 ≤ b → b < 256 → High 2 (tagged b 0x3F 0x80) b
unfolding high_table
high2 b h h' = High-entry 2 (λ b. tagged b 0x3F 0x80) refl b (omega arith) h'

pub low3 : (b : ℕ) → b < 16 → Low 3 (tagged b 0x1F 0xC0) b
unfolding low_table
low3 = Low-entry 3 (λ b. tagged b 0x1F 0xC0) refl

pub high3 : (b : ℕ) → 240 ≤ b → b < 256 → High 3 (tagged b 0x1F 0xC0) b
unfolding high_table
high3 b h h' = High-entry 3 (λ b. tagged b 0x1F 0xC0) refl b (omega arith) h'

pub low4 : (b : ℕ) → b < 8 → Low 4 (tagged b 0x0F 0xE0) b
unfolding low_table
low4 = Low-entry 4 (λ b. tagged b 0x0F 0xE0) refl

pub high4 : (b : ℕ) → 248 ≤ b → b < 256 → High 4 (tagged b 0x0F 0xE0) b
unfolding high_table
high4 b h h' = High-entry 4 (λ b. tagged b 0x0F 0xE0) refl b (omega arith) h'

pub low5 : (b : ℕ) → b < 4 → Low 5 (tagged b 0x07 0xF0) b
unfolding low_table
low5 = Low-entry 5 (λ b. tagged b 0x07 0xF0) refl

pub high5 : (b : ℕ) → 252 ≤ b → b < 256 → High 5 (tagged b 0x07 0xF0) b
unfolding high_table
high5 b h h' = High-entry 5 (λ b. tagged b 0x07 0xF0) refl b (omega arith) h'

pub low6 : (b : ℕ) → b < 2 → Low 6 (tagged b 0x03 0xF8) b
unfolding low_table
low6 = Low-entry 6 (λ b. tagged b 0x03 0xF8) refl

pub high6 : (b : ℕ) → 254 ≤ b → b < 256 → High 6 (tagged b 0x03 0xF8) b
unfolding high_table
high6 b h h' = High-entry 6 (λ b. tagged b 0x03 0xF8) refl b (omega arith) h'

pub low7 : (b : ℕ) → b < 1 → Low 7 (tagged b 0x01 0xFC) b
unfolding low_table
low7 = Low-entry 7 (λ b. tagged b 0x01 0xFC) refl

pub high7 : (b : ℕ) → 255 ≤ b → b < 256 → High 7 (tagged b 0x01 0xFC) b
unfolding high_table
high7 b h h' = High-entry 7 (λ b. tagged b 0x01 0xFC) refl b (omega arith) h'

-- The tag alone decides the length, whatever the other bits are.
module _ (k mask tag : ℕ) where
  size_table : Bool
  unfolding table buf_size
  size_table = table 256 (λ b. buf_size (tagged b mask tag) == k)

  size_entry : size_table ≡ true → (b : ℕ) → b < 256 → buf_size (tagged b mask tag) ≡ k
  unfolding size_table
  size_entry e b h = (==_iff _ k).0 (table_row 256 (λ b. buf_size (tagged b mask tag) == k) b e h)

pub size2 : (b : ℕ) → b < 256 → buf_size (tagged b 0x3F 0x80) ≡ 2
unfolding size_table
size2 = size_entry 2 0x3F 0x80 refl

pub size3 : (b : ℕ) → b < 256 → buf_size (tagged b 0x1F 0xC0) ≡ 3
unfolding size_table
size3 = size_entry 3 0x1F 0xC0 refl

pub size4 : (b : ℕ) → b < 256 → buf_size (tagged b 0x0F 0xE0) ≡ 4
unfolding size_table
size4 = size_entry 4 0x0F 0xE0 refl

pub size5 : (b : ℕ) → b < 256 → buf_size (tagged b 0x07 0xF0) ≡ 5
unfolding size_table
size5 = size_entry 5 0x07 0xF0 refl

pub size6 : (b : ℕ) → b < 256 → buf_size (tagged b 0x03 0xF8) ≡ 6
unfolding size_table
size6 = size_entry 6 0x03 0xF8 refl

pub size7 : (b : ℕ) → b < 256 → buf_size (tagged b 0x01 0xFC) ≡ 7
unfolding size_table
size7 = size_entry 7 0x01 0xFC refl

size1_table : Bool
unfolding table buf_size
size1_table = table 256 (λ b. buf_size (bit_and b 0x7F) == 1)

pub size1 : (b : ℕ) → b < 256 → buf_size (bit_and b 0x7F) ≡ 1
unfolding size1_table
size1 b h = (==_iff _ 1).0 (table_row 256 (λ b. buf_size (bit_and b 0x7F) == 1) b refl h)
