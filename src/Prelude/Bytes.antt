-- ===== src/Prelude/Bytes.antt =====
-- Words in memory: the bytes of a little-endian machine, lowest first.
use Prim.Native.Nat.{ℕ, zero, suc, ◌+◌, ◌*◌, ◌/◌, ◌%◌, ◌^◌, ◌<◌}
use mathlib.Core.Path.{◌≡◌, refl, ap}
use mathlib.Core.List.{List, [], ◌∷◌}
use native.Mathlib.Omega.{arith}
use native.Mathlib.Nat.{pow-suc}
use simple_rpc.Prelude.Lists.{length, All}

abbrev pub IsByte : ℕ → Type 0
IsByte b = b < 256

-- The `n` bytes of the word `w`.
abbrev pub le_bytes : ℕ → ℕ → List ℕ
le_bytes zero w = []
le_bytes (suc n) w = (w % 256) ∷ le_bytes n (w / 256)

abbrev pub of_le_bytes : List ℕ → ℕ
of_le_bytes [] = 0
of_le_bytes (b ∷ bs) = b + 256 * of_le_bytes bs

pub length-le_bytes : (n w : ℕ) → length (le_bytes n w) ≡ n
length-le_bytes zero w = refl
length-le_bytes (suc n) w = ap suc (length-le_bytes n (w / 256))

pub of_le_bytes-le_bytes : (n w : ℕ) → w < 256 ^ n → of_le_bytes (le_bytes n w) ≡ w
of_le_bytes-le_bytes zero w h = omega arith
of_le_bytes-le_bytes (suc n) w h =
    omega (arith, pow-suc 256 n, of_le_bytes-le_bytes n (w / 256) (omega (arith, pow-suc 256 n)))

pub le_bytes-IsByte : (n w : ℕ) → All IsByte (le_bytes n w)
le_bytes-IsByte zero w = tt
le_bytes-IsByte (suc n) w = (omega arith, le_bytes-IsByte n (w / 256))
