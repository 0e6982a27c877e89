-- ===== src/Base/RunLater/Runs.antt =====
-- Runs of a RunLater.
use simple_rpc.Prelude.{ℕ, ◌≡◌, refl, false, List, [], ◌∷◌, some, arith}
use simple_rpc.Prelude.Least.{take_top}
use simple_rpc.Base.RunLater.{
  RunLater, run_later, stop, waits_to, try_one_job, loop_turn, run_later_loop,
}
use simple_rpc.Base.RunLater.Order.{Turned, try_one_job-Turned}
use simple_rpc.Base.RunLater.Loop.{Finished, run_later_loop-Finished}

-- Three jobs, of which the second is due first.
abbrev three : RunLater
three = record {
  should_stop_ = false;
  latest_ = 5000000;
  jobs_ = (3000000, some 7) ∷ (1000000, some 8) ∷ (5000000, some 9) ∷ [];
}

idle : RunLater
idle = record { should_stop_ = false; latest_ = 0; jobs_ = [] }

later : (run_later 2000000 1000000 7 idle).0.jobs_ ≡ (3000000, some 7) ∷ []
unfolding run_later idle
later = refl

try_one_job-Turned_example : Turned 1500000 three (try_one_job 1500000 three)
try_one_job-Turned_example = try_one_job-Turned 1500000 three

-- The wait to a job that is due in two seconds and a half ends after half a second.
too_short :
    (try_one_job 600000 (record three { jobs_ = (3100000, some 7) ∷ [] })).1 ≡ waits_to 1 100000000
unfolding try_one_job take_top
too_short = refl

abbrev times : List ℕ
times = 6000000 ∷ 6000001 ∷ 6000002 ∷ 6000003 ∷ 6000004 ∷ []

run_later_loop-Finished_example : Finished (stop three).jobs_ (run_later_loop times (stop three))
run_later_loop-Finished_example =
    run_later_loop-Finished times (stop three) refl (omega arith) (omega arith) (omega arith)

in_order : (run_later_loop times (stop three)).1 ≡ 8 ∷ 7 ∷ 9 ∷ []
unfolding run_later_loop loop_turn try_one_job take_top
in_order = refl
