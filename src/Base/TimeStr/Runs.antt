-- ===== src/Base/TimeStr/Runs.antt =====
-- A time in a buffer that is longer than it.
use simple_rpc.Prelude.{◌≡◌, refl, [], ◌∷◌, take, replicate, none, some}
use simple_rpc.Prelude.Fault.{◌>>=◌}
use simple_rpc.Base.TimeStr.{Calendar, int_loop, make_int, time_now_str}

abbrev new_year : Calendar
new_year = record { tm_year = 113; tm_mon = 0; tm_mday = 1; tm_hour = 9; tm_min = 5; tm_sec = 7 }

-- "2013-01-01"
new_year_str :
    (time_now_str new_year 42 (replicate 28 1) >>= λ b. some (take 10 b))
    ≡ some (b'2' ∷ b'0' ∷ b'1' ∷ b'3' ∷ b'-' ∷ b'0' ∷ b'1' ∷ b'-' ∷ b'0' ∷ b'1' ∷ [])
unfolding time_now_str make_int int_loop
new_year_str = refl

-- Room for 26 bytes is not enough.
too_short : time_now_str new_year 42 (replicate 26 1) ≡ none
unfolding time_now_str make_int int_loop
too_short = refl
