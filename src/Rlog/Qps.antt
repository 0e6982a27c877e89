-- ===== src/Rlog/Qps.antt =====
-- `RLogServiceImpl::aggregate_qps` of rlog/log_service_impl.cc, with `agg_qps_record` of rlog/log_service_impl.h.
-- The times, which the code has as a double of seconds, are whole microseconds, without the rounding of a double,
-- and a test on the difference of two times is one on sums. A call returns what it prints: the intervals in seconds, each with its increment, which the
-- code divides by the interval when it prints it.
pub mod Recent
pub mod Order
mod Runs
use Prim.Native.String.{String}
use simple_rpc.Prelude.{
  ℕ, ◌+◌, ◌-◌, ◌*◌, Bool, true, false, ◌&&◌, List, [], ◌∷◌, ◌++◌, if◌then◌else◌, ltb, leb, Option,
  some, none,
}
use simple_rpc.Prelude.Fault.{◌>>=◌}
use simple_rpc.Prelude.Int.{ℤ, pos, negsuc, pos_part, neg_part, leb_ℤ}
use simple_rpc.Rlog.Service.{assign}

infixl 6 ◌+ℤ◌ ◌-ℤ◌
-- The difference of two natural numbers.
abbrev pub difference : ℕ → ℕ → ℤ
difference a b = if leb b a then pos (a - b) else negsuc (b - a - 1)

abbrev pub ◌+ℤ◌ : ℤ → ℤ → ℤ
a +ℤ b = difference (pos_part a + pos_part b) (neg_part a + neg_part b)

abbrev pub ◌-ℤ◌ : ℤ → ℤ → ℤ
a -ℤ b = difference (pos_part a + neg_part b) (neg_part a + pos_part b)

abbrev pub second : ℕ
second = 1000000

pub record AggQpsRecord : Type 0 where
  pub agg_count : ℤ
  pub tm : ℕ

pub record Qps : Type 0 where
  pub agg_qps_ : String → List AggQpsRecord
  pub last_qps_tm_ : String → ℕ
  pub qps_interval_ : ℕ

-- The count of the new record: `records.back()` has the old one.
unfoldable pub counted : ℤ → List AggQpsRecord → ℤ
counted incr [] = incr
counted incr (r ∷ []) = r.agg_count +ℤ incr
counted incr (r ∷ s ∷ records) = counted incr (s ∷ records)

-- The loop that erases from the front; `front` of an empty list is a fault.
unfoldable pub drop_old : ℕ → List AggQpsRecord → Option (List AggQpsRecord)
drop_old now [] = none
drop_old now (r ∷ records) =
    let rest = drop_old now records in
    if ltb (r.tm + 300 * second) now then rest else some (r ∷ records)

-- The loop from the last record to the first: `increment`, and whether no `break` has been met.
unfoldable pub look_back : ℕ → ℕ → ℤ → List AggQpsRecord → ℤ × Bool
look_back now interval newest [] = (negsuc 0, true)
look_back now interval newest (it ∷ later) =
    let (increment, going) = look_back now interval newest later in
    if going && ltb now (it.tm + interval * second)
    then (newest -ℤ it.agg_count, true)
    else (increment, false)

unfoldable pub report : ℕ → ℤ → List AggQpsRecord → List ℕ → List (ℕ × ℤ)
report now newest records [] = []
report now newest records (interval ∷ intervals) =
    let increment = (look_back now interval newest records).0 in
    let rest = report now newest records intervals in
    if leb_ℤ (pos 1) increment then (interval, increment) ∷ rest else rest

abbrev pub report_intervals : List ℕ
report_intervals = 1 ∷ 5 ∷ 15 ∷ 30 ∷ 60 ∷ []

-- The end of `aggregate_qps`, from the test for the time of the next report on.
abbrev pub reported : ℕ → String → ℤ → List AggQpsRecord → Qps → Qps × List (ℕ × ℤ)
reported now metric newest records s =
    let kept : Qps = record s { agg_qps_ = assign metric records s.agg_qps_ } in
    if leb (s.last_qps_tm_ metric + s.qps_interval_) now
    then (
      record kept { last_qps_tm_ = assign metric now s.last_qps_tm_ },
      report now newest records report_intervals,
    )
    else (kept, [])

unfoldable pub aggregate_qps : ℕ → String → ℤ → Qps → Option (Qps × List (ℕ × ℤ))
aggregate_qps now metric incr s = do
  let agg_count = counted incr (s.agg_qps_ metric)
  let new_rec : AggQpsRecord = record { agg_count = agg_count; tm = now }
  records ← drop_old now (s.agg_qps_ metric ++ (new_rec ∷ []))
  some (reported now metric agg_count records s)
