-- ===== src/Base/ThreadPool/Life.antt =====
-- A ThreadPool of base/threading.cc from its constructor to its destructor: the threads take turns in any
-- order, among the calls of `run_async`. The draws of Rand are an argument.
pub mod Shuffle
pub mod Once
pub mod Whole
mod Runs
use simple_rpc.Prelude.{
  ℕ, zero, suc, ◌+◌, ◌-◌, ◌%◌, ◌==◌, Bool, true, false, not, List, [], ◌∷◌, ◌++◌, Option, none,
  some, if◌then◌else◌, ltb, get_elem?, set, length, replicate,
}
use simple_rpc.Prelude.Fault.{◌>>=◌, ◌>>◌, verify}
use simple_rpc.Base.ThreadPool.{Job, Jobs, push, ThreadPool, run_async, Worker, turn}

-- `r.next(lower, upper)`; a remainder by 0 aborts.
abbrev pub rand_next : ℕ → ℕ → ℕ → Option ℕ
rand_next draw lower upper = verify (ltb lower upper) >> some (lower + draw % (upper - lower))

-- `steal_order[i] = i`
abbrev pub in_order : ℕ → ℕ → List ℕ
in_order i zero = []
in_order i (suc n) = i ∷ in_order (i + 1) n

-- An exchange of two places; with `j == i` nothing is done.
abbrev pub exchange : ℕ → ℕ → List ℕ → Option (List ℕ)
exchange i j order = do
  a ← get_elem? order i
  b ← get_elem? order j
  some (if j == i then order else set (set order j a) i b)

-- A round for each draw, from place `i` on.
unfoldable pub shuffle : List ℕ → ℕ → ℕ → List ℕ → Option (List ℕ)
shuffle [] i n order = some order
shuffle (draw ∷ draws) i n order = do
  j ← rand_next draw i n
  order' ← exchange i j order
  shuffle draws (i + 1) n order'

-- `run_thread` up to its loop, with `n_ - 1` draws.
unfoldable pub steal_order : ℕ → List ℕ → Option (List ℕ)
steal_order n draws = do verify (length draws == n - 1); shuffle draws 0 n (in_order 0 n)

pub record Thread : Type 0 where
  pub worker : Worker
  pub order : List ℕ

abbrev pub new_thread : List ℕ → Thread
new_thread order = record {
  worker = record { stage = 0; tv_nsec = 1000; stopped = false };
  order = order;
}

-- `accepted` are the jobs that `run_async` has taken, `ran` those that have been run, the latest first.
pub record Crew : Type 0 where
  pub pool : ThreadPool
  pub threads : List Thread
  pub accepted : List ℕ
  pub ran : List ℕ

-- The threads of a pool of `n`, each with its draws.
unfoldable pub new_threads : ℕ → List (List ℕ) → Option (List Thread)
new_threads n [] = some []
new_threads n (draws ∷ each) = do
  order ← steal_order n draws
  threads ← new_threads n each
  some (new_thread order ∷ threads)

-- The constructor, with the draws of each thread; `verify(n_ >= 0)` holds of a length.
unfoldable pub new_crew : List (List ℕ) → Option Crew
new_crew draws = do
  threads ← new_threads (length draws) draws
  some (record {
    pool = record { q_ = replicate (length draws) []; round_robin_ = 0; should_stop_ = false };
    threads = threads;
    accepted = [];
    ran = [];
  })

-- What happens next: a call of `run_async`, a turn of a thread, or in the destructor that `should_stop_` is set
-- or a queue gets its death pill.
pub data Event : Type 0 where
  submit : ℕ → Option ℕ → Event
  turn_of : ℕ → Event
  stop : Event
  pill : ℕ → Event

unfoldable pub step : Event → Crew → Option Crew
step (submit f queuing_channel) c = do
  (pool', ret) ← run_async f queuing_channel c.pool
  some (record c { pool = pool'; accepted = if ret == 0 then f ∷ c.accepted else c.accepted })
step (turn_of id) c = do
  t ← get_elem? c.threads id
  (worker', run, qs) ← turn t.order id t.worker c.pool.q_
  some (record c {
    pool = record c.pool { q_ = qs };
    threads = set c.threads id (record t { worker = worker' });
    ran = run ++ c.ran;
  })
step stop c = some (record c { pool = record c.pool { should_stop_ = true } })
step (pill i) c = do
  q ← get_elem? c.pool.q_ i
  some (record c { pool = record c.pool { q_ = set c.pool.q_ i (push none q) } })

unfoldable pub steps : List Event → Crew → Option Crew
steps [] c = some c
steps (e ∷ es) c = do c' ← step e c; steps es c'

-- The second half of the destructor: the jobs that are left in the queues.
abbrev pub left_in : Jobs → List ℕ
left_in [] = []
left_in (none ∷ q) = left_in q
left_in (some j ∷ q) = j ∷ left_in q

abbrev pub left_over : List Jobs → List ℕ
left_over [] = []
left_over (q ∷ qs) = left_in q ++ left_over qs

abbrev pub run_left_over : Crew → Crew
run_left_over c = record c { ran = left_over c.pool.q_ ++ c.ran }
