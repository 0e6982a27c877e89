-- ===== src/Base/ThreadPool.antt =====
-- Queue and ThreadPool of base/threading.h and base/threading.cc. A job is a number, `none` the null
-- pointer, which is the death pill. What a thread does between two changes of the queues is one turn; an
-- exhausted `pop`, which waits, is a turn that is not over. The order of stealing, which is random, and the
-- ids of the threads are arguments.
pub mod Turns
pub mod Drain
pub mod Life
mod Runs
use simple_rpc.Prelude.{
  ℕ, zero, suc, ◌+◌, ◌-◌, ◌*◌, ◌%◌, true, false, Bool, ◌&&◌, ◌||◌, List, [], ◌∷◌, ◌++◌, Option,
  none, some, if◌then◌else◌, ltb, ◌==◌, get_elem?, set, length,
}
use simple_rpc.Prelude.Fault.{◌>>=◌, ◌>>◌, verify}

abbrev pub Job : Type 0
Job = Option ℕ

abbrev pub Jobs : Type 0
Jobs = List Job

abbrev pub push : Job → Jobs → Jobs
push e q = q ++ (e ∷ [])

abbrev pub try_pop : Jobs → Option (Job × Jobs)
try_pop [] = none
try_pop (e ∷ q) = some (e, q)

-- `try_pop_but_ignore(&job, nullptr)`
abbrev pub try_pop_but_ignore : Jobs → Option (ℕ × Jobs)
try_pop_but_ignore [] = none
try_pop_but_ignore (none ∷ q) = none
try_pop_but_ignore (some j ∷ q) = some (j, q)

-- `n_` is the length of `q_`.
pub record ThreadPool : Type 0 where
  pub q_ : List Jobs
  pub round_robin_ : ℕ
  pub should_stop_ : Bool

abbrev pub eperm : ℕ
eperm = 1

-- A remainder by 0 aborts. A negative `queuing_channel` is `none`.
unfoldable pub push_at : ℕ → Job → List Jobs → Option (List Jobs)
push_at channel job qs = do
  verify (ltb 0 (length qs))
  let queue_id = channel % length qs
  q ← get_elem? qs queue_id
  some (set qs queue_id (push job q))

abbrev channel_of : Option ℕ → ThreadPool → ℕ × ThreadPool
channel_of (some queuing_channel) p = (queuing_channel, p)
channel_of none p = (p.round_robin_, record p { round_robin_ = p.round_robin_ + 1 })

unfoldable pub run_async : ℕ → Option ℕ → ThreadPool → Option (ThreadPool × ℕ)
run_async f queuing_channel p =
    if p.should_stop_
    then some (p, eperm)
    else (let (channel, p') = channel_of queuing_channel p in
        do qs ← push_at channel (some f) p'.q_; some (record p' { q_ = qs }, 0))

abbrev pub min_sleep_nsec : ℕ
min_sleep_nsec = 1000

abbrev pub max_sleep_nsec : ℕ
max_sleep_nsec = 50 * 1000

abbrev pub clamp : ℕ → ℕ → ℕ → ℕ
clamp v lower upper = if ltb v lower then lower else if ltb upper v then upper else v

pub record Worker : Type 0 where
  pub stage : ℕ
  pub tv_nsec : ℕ
  pub stopped : Bool

-- The stage and the queues after the `switch`, and `job`.
abbrev Picked : Type 0
Picked = ℕ × Job × List Jobs

abbrev pick_own : ℕ → ℕ → List Jobs → Option Picked
pick_own id stage qs = do
  q ← get_elem? qs id
  some (elim (try_pop q) [ none ↦ (stage + 1, none, qs) | some (job, q') ↦ (0, job, set qs id q') ])

unfoldable pub steal : List ℕ → ℕ → ℕ → List Jobs → Option Picked
steal [] id stage qs = some (stage + 1, none, qs)
steal (victim ∷ victims) id stage qs = do
  let rest = steal victims id stage qs
  if victim == id then rest else (do
    q ← get_elem? qs victim
    elim (try_pop_but_ignore q) [ none ↦ rest | some (j, q') ↦ some (0, some j, set qs victim q') ])

unfoldable pub pick : List ℕ → ℕ → ℕ → List Jobs → Option Picked
pick steal_order id stage qs =
    if stage == 1
    then some (2, none, qs)
    else if stage == 3
    then steal steal_order id 3 qs
    else if ltb stage 5
    then pick_own id stage qs
    else some (stage, none, qs)

-- The rest of a turn, with the jobs that are run.
abbrev finish : Worker → Picked → Worker × List ℕ × List Jobs
finish w (zero, none, qs) = (record w { stage = 0; stopped = true }, [], qs)
finish w (zero, some j, qs) = (
  record w { stage = 0; tv_nsec = clamp (w.tv_nsec - 1000) min_sleep_nsec max_sleep_nsec },
  j ∷ [],
  qs,
)
finish w (suc stage, job, qs) = (
  record w { stage = suc stage; tv_nsec = clamp (w.tv_nsec + 1000) min_sleep_nsec max_sleep_nsec },
  [],
  qs,
)

-- The thread is in `pop`, and its queue is empty.
abbrev pub waits : ℕ → ℕ → List Jobs → Bool
waits id stage qs = (stage == 4) && elim (get_elem? qs id) [ none ↦ false | some q ↦ length q == 0 ]

unfoldable pub turn : List ℕ → ℕ → Worker → List Jobs → Option (Worker × List ℕ × List Jobs)
turn steal_order id w qs =
    if w.stopped || waits id w.stage qs
    then some (w, [], qs)
    else (do picked ← pick steal_order id w.stage qs; some (finish w picked))
