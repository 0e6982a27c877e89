-- ===== src/Rlog/Qps/Runs.antt =====
-- Calls of `aggregate_qps` for one metric.
use simple_rpc.Prelude.{◌*◌, ◌≡◌, refl, arith, [], ◌∷◌}
use simple_rpc.Prelude.Fault.{◌>>=◌, Gives, gives}
use simple_rpc.Prelude.Int.{pos}
use simple_rpc.Rlog.Qps.{second, Qps, counted, drop_old, look_back, report, aggregate_qps}
use simple_rpc.Rlog.Qps.Order.{Aggregated, aggregate_qps-Aggregated}

-- One record that is too old and one that is not.
abbrev before : Qps
before = record {
  agg_qps_ = λ metric.
      record { agg_count = pos 3; tm = 100 * second }
      ∷ record { agg_count = pos 7; tm = 398 * second }
      ∷ [];
  last_qps_tm_ = λ metric. 0;
  qps_interval_ = second;
}

aggregate_qps-Aggregated_example :
    Gives
      (Aggregated (402 * second) "calls" (pos 5) before)
      (aggregate_qps (402 * second) "calls" (pos 5) before)
aggregate_qps-Aggregated_example =
    aggregate_qps-Aggregated (402 * second) "calls" (pos 5) before ((omega arith, tt), (tt, tt))
      (omega arith, (omega arith, tt))

-- The last second has the new record alone, and what it counts is not told.
five_told :
    Gives
      (λ r. r.1 ≡ (5, pos 5) ∷ (15, pos 5) ∷ (30, pos 5) ∷ (60, pos 5) ∷ [])
      (aggregate_qps (402 * second) "calls" (pos 5) before)
unfolding aggregate_qps counted drop_old report look_back
five_told = gives refl

-- A metric that is counted once in 70 seconds is never told.
never_told :
    Gives
      (λ r. r.1 ≡ [])
      (aggregate_qps (402 * second) "calls" (pos 5) before >>= λ r.
        aggregate_qps (472 * second) "calls" (pos 1000) r.0)
unfolding aggregate_qps counted drop_old report look_back
never_told = gives refl
