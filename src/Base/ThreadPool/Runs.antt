-- ===== src/Base/ThreadPool/Runs.antt =====
-- Concrete runs of a ThreadPool.
use simple_rpc.Prelude.{
  ℕ, ◌+◌, ◌≤◌, ◌≡◌, refl, arith, true, false, [], ◌∷◌, none, some, length, get_elem?,
}
use simple_rpc.Prelude.Fault.{Gives}
use simple_rpc.Prelude.Dict.{count}
use simple_rpc.Base.ThreadPool.{ThreadPool, turn}
use simple_rpc.Base.ThreadPool.Turns.{in_all, turn-Gives}
use simple_rpc.Base.ThreadPool.Drain.{awake, turns, turns-drain}

-- The first queue is empty, the second has two jobs and the pill.
abbrev pool : ThreadPool
pool = record {
  q_ = [] ∷ (some 5 ∷ some 6 ∷ none ∷ []) ∷ [];
  round_robin_ = 3;
  should_stop_ = false;
}

-- The first thread steals.
turn-Gives_example :
    Gives
      (λ (w', run, qs').
        (length qs' ≡ 2)
        × ((j : ℕ) → in_all j qs' + count j run ≡ in_all j pool.q_)
        × (1000 ≤ w'.tv_nsec)
        × (w'.tv_nsec ≤ 50000))
      (turn (1 ∷ 0 ∷ []) 0 (record { stage = 3; tv_nsec = 2000; stopped = false }) pool.q_)
turn-Gives_example =
    turn-Gives (1 ∷ 0 ∷ []) 0 (record { stage = 3; tv_nsec = 2000; stopped = false }) pool.q_
      (omega arith, (omega arith, tt)) (omega arith) (omega arith) (omega arith)

turns-drain_example :
    Gives
      (λ (w', run, qs'). (w'.stopped ≡ true) × (run ≡ 5 ∷ 6 ∷ []) × (get_elem? qs' 1 ≡ some []))
      (turns 3 (0 ∷ 1 ∷ []) 1 (awake 1000) pool.q_)
turns-drain_example = turns-drain (5 ∷ 6 ∷ []) [] (0 ∷ 1 ∷ []) 1 1000 pool.q_ refl
