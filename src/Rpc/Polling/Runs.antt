-- ===== src/Rpc/Polling/Runs.antt =====
-- Concrete runs of a PollThread and a PollMgr.
use simple_rpc.Prelude.{◌==◌, ◌-◌, if◌then◌else◌, ℕ, ◌+◌, refl, arith, true, false, [], ◌∷◌}
use simple_rpc.Rpc.Polling.{
  PollThread, ctl_add, enroll, watch, unregister, postpone, collect, ref_copy,
}
use simple_rpc.Rpc.Polling.Invariant.{IsPaired}
use simple_rpc.Rpc.Polling.Steps.{World, Reachable, IsSafe, Reachable-IsSafe}
use simple_rpc.Rpc.Polling.Steps.Step.{take, enter, watched, leave, defer, gather}
use simple_rpc.Rpc.Polling.Steps.Reachable.{begin, next}

abbrev fd_of : ℕ → ℕ
fd_of x = x + 10

abbrev idle : PollThread
idle = record { mode_ = []; poll_set_ = []; pending_remove_ = []; calls = [] }

-- Every Pollable has an owner outside.
abbrev start : World
start = record {
  thread = idle;
  refs = λ x. 1;
  held = λ x. 1;
  leaving = [];
  sweeping = [];
  looked = false;
}

idle-IsPaired : IsPaired fd_of idle
idle-IsPaired = record {
  paired = refl;
  distinct_fds = tt;
  distinct_polls = tt;
  distinct_pending = tt;
}

start-IsSafe : IsSafe fd_of start
start-IsSafe = record { paired = idle-IsPaired; covered = λ x. omega arith }

-- The Pollable 3 has been added and removed, and the end of a round has it in hand.
abbrev swept : World
swept = record {
  thread = record {
    mode_ = [];
    poll_set_ = [];
    pending_remove_ = [];
    calls = ctl_add 13 (record { input = true; output = false }) ∷ [];
  };
  refs = ref_copy 3 (λ x. 1);
  held = λ y. if y == 3 then ref_copy 3 (λ x. 1) y - 1 else ref_copy 3 (λ x. 1) y;
  leaving = [];
  sweeping = 3 ∷ [];
  looked = false;
}

added : Reachable fd_of start (record swept {
  thread = record {
    mode_ = (13, 1) ∷ [];
    poll_set_ = 3 ∷ [];
    pending_remove_ = [];
    calls = ctl_add 13 (record { input = true; output = false }) ∷ [];
  };
  sweeping = [];
})
unfolding enroll watch
added = next (next (next begin (take 3)) (enter 3 1 refl refl)) (watched true 13 1 refl)

run : Reachable fd_of start swept
unfolding unregister postpone collect
run = next (next (next added (leave 3 refl)) (defer 3 [] [] refl)) (gather refl)

Reachable-IsSafe_example : IsSafe fd_of swept
Reachable-IsSafe_example = Reachable-IsSafe fd_of start-IsSafe run
