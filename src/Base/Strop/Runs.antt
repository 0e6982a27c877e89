-- ===== src/Base/Strop/Runs.antt =====
-- Texts that are split and grouped.
use simple_rpc.Prelude.{◌≡◌, refl, true, false, [], ◌∷◌, some, All}
use simple_rpc.Prelude.Fault.{Gives}
use simple_rpc.Base.Strop.{Text, find_if, split_loop, strsplit, startswith, endswith}
use simple_rpc.Base.Strop.Words.{words, IsWord, join, without}
use simple_rpc.Base.Strop.Split.{strsplit-Gives}
use simple_rpc.Base.Strop.Decimal.{grouped, format_int, format_double}

-- "  a bc "
abbrev spaced : Text
spaced = b' ' ∷ b' ' ∷ b'a' ∷ b' ' ∷ b'b' ∷ b'c' ∷ b' ' ∷ []

strsplit-Gives_example :
    Gives
      (λ pieces.
        (pieces ≡ words b' ' [] spaced)
        × All (IsWord b' ') pieces
        × (join pieces ≡ without b' ' spaced))
      (strsplit spaced b' ')
strsplit-Gives_example = strsplit-Gives spaced b' '

pieces : strsplit spaced b' ' ≡ some ((b'a' ∷ []) ∷ (b'b' ∷ b'c' ∷ []) ∷ [])
unfolding strsplit split_loop find_if
pieces = refl

nothing : strsplit (b' ' ∷ b' ' ∷ []) b' ' ≡ some []
unfolding strsplit split_loop find_if
nothing = refl

starts : startswith spaced (b' ' ∷ b' ' ∷ b'a' ∷ []) ≡ true
unfolding startswith
starts = refl

ends : endswith spaced (b'b' ∷ b' ' ∷ []) ≡ false
unfolding endswith
ends = refl

-- -1,234
negative :
    format_int (b'-' ∷ b'1' ∷ b'2' ∷ b'3' ∷ b'4' ∷ [])
    ≡ b'-' ∷ b'1' ∷ b',' ∷ b'2' ∷ b'3' ∷ b'4' ∷ []
unfolding grouped
negative = refl

-- -123
short : format_int (b'-' ∷ b'1' ∷ b'2' ∷ b'3' ∷ []) ≡ b'-' ∷ b'1' ∷ b'2' ∷ b'3' ∷ []
unfolding grouped
short = refl

-- 1234.50 and -0.00
with_point :
    format_double (b'1' ∷ b'2' ∷ b'3' ∷ b'4' ∷ b'.' ∷ b'5' ∷ b'0' ∷ [])
    ≡ b'1' ∷ b',' ∷ b'2' ∷ b'3' ∷ b'4' ∷ b'.' ∷ b'5' ∷ b'0' ∷ []
unfolding format_double grouped find_if
with_point = refl

zero_again : format_double (b'-' ∷ b'0' ∷ b'.' ∷ b'0' ∷ b'0' ∷ []) ≡ b'0' ∷ b'.' ∷ b'0' ∷ b'0' ∷ []
unfolding format_double grouped find_if
zero_again = refl
