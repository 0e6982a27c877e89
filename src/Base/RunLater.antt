-- ===== src/Base/RunLater.antt =====
-- RunLater of base/threading.cc. A time is a number of microseconds: the seconds, which the code keeps in
-- doubles, are taken as exact. A job is a number, `none` the null pointer, which is the death pill. `m_` is held
-- in each turn of the thread, also while the job runs; what `gettimeofday` gives is an argument.
pub mod Order
pub mod Loop
mod Runs
use simple_rpc.Prelude.{
  ℕ, zero, suc, ◌+◌, ◌-◌, ◌*◌, ◌/◌, ◌%◌, ◌==◌, Bool, true, false, ◌&&◌, ◌||◌, List, [], ◌∷◌, ◌++◌,
  Option, none, some, if◌then◌else◌, ltb, max,
}
use simple_rpc.Prelude.Least.{take_top}

abbrev pub Job : Type 0
Job = ℕ × Option ℕ

-- `std::greater` of pairs.
abbrev pub pointer_greater : Option ℕ → Option ℕ → Bool
pointer_greater none j = false
pointer_greater (some i) none = true
pointer_greater (some i) (some j) = ltb j i

abbrev pub greater : Job → Job → Bool
greater (t, i) (u, j) = ltb u t || ((t == u) && pointer_greater i j)

pub record RunLater : Type 0 where
  pub should_stop_ : Bool
  pub latest_ : ℕ
  pub jobs_ : List Job

abbrev pub eperm : ℕ
eperm = 1

-- `sec` is 0 for what is not above 0.
unfoldable pub run_later : ℕ → ℕ → ℕ → RunLater → RunLater × ℕ
run_later now sec f r =
    let later = now + sec in
    if r.should_stop_ then (r, eperm) else (
      record r {
        latest_ = if ltb r.latest_ later then later else r.latest_;
        jobs_ = (later, some f) ∷ r.jobs_;
      },
      0,
    )

abbrev pub max_wait : ℕ → RunLater → ℕ
max_wait now r = r.latest_ - now

-- The first half of the destructor.
abbrev pub stop : RunLater → RunLater
stop r = record r { should_stop_ = true; jobs_ = (0, none) ∷ r.jobs_ }

-- What a turn of the thread does: it runs a job, waits to a time, given in seconds and nanoseconds, waits for a
-- signal, or takes the death pill.
pub data Turn : Type 0 where
  ran : ℕ → Turn
  waits_to : ℕ → ℕ → Turn
  waits : Turn
  pill : Turn

-- `abstime` for a wait of `wait` from `now`. `wait_sec` is not in it.
abbrev pub abstime : ℕ → ℕ → Turn
abstime now wait =
    let tv_nsec = now % 1000000 * 1000 + wait % 1000000 * 1000 in
    if ltb (1000 * 1000 * 1000) tv_nsec
    then waits_to (now / 1000000 + 1) (tv_nsec - 1000 * 1000 * 1000)
    else waits_to (now / 1000000) tv_nsec

abbrev pub popped : Option ℕ → Turn
popped none = pill
popped (some f) = ran f

abbrev one_job : ℕ → RunLater → List Job → RunLater × Turn
one_job now r [] = (r, waits)
one_job now r (e ∷ q) =
    let (j, rest) = take_top greater e q in
    if ltb j.0 now then (record r { jobs_ = rest }, popped j.1) else (r, abstime now (j.0 - now))

unfoldable pub try_one_job : ℕ → RunLater → RunLater × Turn
try_one_job now r = one_job now r r.jobs_

-- A turn of `run_later_loop`: `none` where the loop is over.
unfoldable pub loop_turn : ℕ → RunLater → Option (RunLater × Turn)
loop_turn now r = elim r.jobs_ [
  | [] ↦ if r.should_stop_ then none else some (try_one_job now r)
  | _ ∷ _ ↦ some (try_one_job now r)
]

abbrev pub ran_by : Turn → List ℕ
ran_by (ran f) = f ∷ []
ran_by _ = []

-- What is left, the jobs that ran, in order, and whether the loop is over.
abbrev pub Outcome : Type 0
Outcome = RunLater × List ℕ × Bool

abbrev pub proceed : RunLater → Option (RunLater × Turn) → (RunLater → Outcome) → Outcome
proceed r none rest = (r, [], true)
proceed r (some (r', did)) rest =
    let (r'', later, over) = rest r' in (r'', ran_by did ++ later, over)

-- The thread at the times that are given.
unfoldable pub run_later_loop : List ℕ → RunLater → Outcome
run_later_loop [] r = (r, [], false)
run_later_loop (now ∷ times) r = proceed r (loop_turn now r) (run_later_loop times)
