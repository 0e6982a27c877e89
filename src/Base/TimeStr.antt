-- ===== src/Base/TimeStr.antt =====
-- `make_int` and `time_now_str` of base/misc.cc. The buffer is the list of its bytes; the calendar that
-- `localtime_r` gives and the microseconds of `gettimeofday` are arguments.
pub mod Digits
mod Runs
use simple_rpc.Prelude.{
  ℕ, zero, suc, ◌+◌, ◌-◌, ◌/◌, ◌%◌, List, [], ◌∷◌, length, set, get_elem?, Option, none, some, ltb,
  if◌then◌else◌, replicate,
}
use simple_rpc.Prelude.Fault.{◌>>=◌, ◌>>◌, verify}

-- `*p = c`; a write outside the buffer is a fault.
abbrev pub write_at : ℕ → ℕ → List ℕ → Option (List ℕ)
write_at p c buf = verify (ltb p (length buf)) >> some (set buf p c)

-- The rounds that are left, with `p` behind the place that is written next.
unfoldable pub int_loop : ℕ → ℕ → ℕ → List ℕ → Option (List ℕ)
int_loop zero p val buf = some buf
int_loop (suc rounds) p val buf = do
  buf' ← write_at (p - 1) (b'0' + val % 10) buf
  int_loop rounds (p - 1) (val / 10) buf'

unfoldable pub make_int : ℕ → ℕ → ℕ → List ℕ → Option (List ℕ)
make_int str val digits buf = int_loop digits (str + digits) val buf

-- `struct tm`
pub record Calendar : Type 0 where
  pub tm_year : ℕ
  pub tm_mon : ℕ
  pub tm_mday : ℕ
  pub tm_hour : ℕ
  pub tm_min : ℕ
  pub tm_sec : ℕ

unfoldable pub time_now_str : Calendar → ℕ → List ℕ → Option (List ℕ)
time_now_str t tv_usec now = do
  b ← make_int 0 (t.tm_year + 1900) 4 now
  b ← write_at 4 b'-' b
  b ← make_int 5 (t.tm_mon + 1) 2 b
  b ← write_at 7 b'-' b
  b ← make_int 8 t.tm_mday 2 b
  b ← write_at 10 b' ' b
  b ← make_int 11 t.tm_hour 2 b
  b ← write_at 13 b':' b
  b ← make_int 14 t.tm_min 2 b
  b ← write_at 16 b':' b
  b ← make_int 17 t.tm_sec 2 b
  b ← write_at 19 b'.' b
  b ← make_int 20 tv_usec 6 b
  write_at 26 0 b
