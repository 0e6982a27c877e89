-- ===== src/Base/Strop/Decimal.antt =====
-- `format_decimal` of base/strop.cc, of the text that the stream gives for a number.
use simple_rpc.Prelude.{
  ℕ, ◌%◌, ◌≡◌, ◌==◌, refl, Bool, true, false, not, ◌&&◌, [], ◌∷◌, ◌++◌, if◌then◌else◌, length, All,
  arith, take, drop, none, some,
}
use simple_rpc.Base.Strop.{Text, find_if, same_prefix}
use simple_rpc.Base.Strop.Words.{without}

-- The loop from a byte on: whether it is the first, the byte before it, and what is left.
unfoldable pub grouped : Bool → ℕ → Text → Text
grouped first before [] = []
grouped first before (c ∷ s) =
    let rest = c ∷ grouped false c s in
    if (length (c ∷ s) % 3 == 0) && (not first && not (before == b'-')) then b',' ∷ rest else rest

abbrev pub format_int : Text → Text
format_int s = grouped true 0 s

-- `str == "-0.00"` and what stands for it.
abbrev minus_zero : Text
minus_zero = b'-' ∷ b'0' ∷ b'.' ∷ b'0' ∷ b'0' ∷ []

abbrev same_text : Text → Text → Bool
same_text s t = (length s == length t) && same_prefix (length t) s t

-- The place of the point, or the end.
abbrev point : Text → ℕ
point s = elim (find_if (λ c. c == b'.') 0 s) [ none ↦ length s | some idx ↦ idx ]

unfoldable pub format_double : Text → Text
format_double s =
    let str = grouped true 0 (take (point s) s) ++ drop (point s) s in
    if same_text str minus_zero then drop 1 minus_zero else str

-- The commas go away again.
pub without-format_int :
    (first : Bool) (before : ℕ) (s : Text)
    → All (λ c. (c == b',') ≡ false) s
    → without b',' (grouped first before s) ≡ s
unfolding grouped
without-format_int first before [] h = refl
without-format_int first before (c ∷ s) (h, hs) = ground (arith, without-format_int false c s hs)
