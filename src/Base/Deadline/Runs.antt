-- ===== src/Base/Deadline/Runs.antt =====
-- A concrete deadline.
use simple_rpc.Prelude.{ℕ, ◌+◌, ◌<◌, ◌≡◌, ◌≢◌, ◌↔◌, arith}
use simple_rpc.Base.Deadline.{deadline, in_nsec, deadline-sum}

-- Half a second after half a second: the nanoseconds are a whole second.
deadline-sum_example :
    (in_nsec (deadline 1000 500000 2 500000000) ≡ 1000500000000 + 2500000000)
    × (((deadline 1000 500000 2 500000000).1 < 1000000000) ↔ (◌≢◌ {A = ℕ} 1000000000 1000000000))
deadline-sum_example = deadline-sum 1000 500000 2 500000000 (omega arith) (omega arith)
