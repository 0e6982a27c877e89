-- ===== src/Base/ThreadPool/Life/Once.antt =====
-- Every job of a ThreadPool of base/threading.cc is run once, in every order of the turns.
use simple_rpc.Prelude.{
  ℕ, zero, suc, ◌+◌, ◌<◌, ◌≤◌, ◌≡◌, ◌==◌, refl, sym, subst, ◌∙◌, arith, true, List, [], ◌∷◌, Option,
  none, some, if◌then◌else◌, get_elem?, set, length, length-set, All, Bool-cases, inl, inr,
}
use simple_rpc.Prelude.Fault.{Gives, gives, Gives-bind, Gives-mono, get_elem?-Gives}
use simple_rpc.Prelude.Dict.{count, count-append}
use simple_rpc.Base.ThreadPool.{Jobs, push, ThreadPool, run_async}
use simple_rpc.Base.ThreadPool.Turns.{queued, in_all, in_all-set, run_async-Gives, turn-Gives}
use simple_rpc.Base.ThreadPool.Life.{
  Thread, Crew, Event, submit, turn_of, stop, pill, step, steps, left_in, left_over, run_left_over,
}

-- A thread of a pool of `n`.
pub record IsThread (n : ℕ) (t : Thread) : Type 0 where
  pub known : All (λ v. v < n) t.order
  pub low : 1000 ≤ t.worker.tv_nsec
  pub high : t.worker.tv_nsec ≤ 50000

-- A pool of `n` threads, in which each job that was accepted has run or is in a queue, as often as it was.
pub record IsCrew (n : ℕ) (c : Crew) : Type 0 where
  pub queues : length c.pool.q_ ≡ n
  pub crew : length c.threads ≡ n
  pub each : All (IsThread n) c.threads
  pub balance : (j : ℕ) → in_all j c.pool.q_ + count j c.ran ≡ count j c.accepted

-- The places that an event names are those of the pool.
abbrev pub IsEvent : ℕ → Event → Type 0
IsEvent n (submit f queuing_channel) = Unit {0}
IsEvent n (turn_of id) = id < n
IsEvent n stop = Unit {0}
IsEvent n (pill i) = i < n

queued-push-none : (j : ℕ) (q : Jobs) → queued j (push none q) ≡ queued j q
queued-push-none j [] = refl
queued-push-none j (none ∷ q) = queued-push-none j q
queued-push-none j (some k ∷ q) = omega (arith, queued-push-none j q)

pick_thread :
    {P : Thread → Type 0} (ts : List Thread) (i : ℕ)
    → i < length ts
    → All P ts
    → Gives P (get_elem? ts i)
pick_thread [] i h ps = absurd (omega arith)
pick_thread (t ∷ ts) zero h (p, ps) = gives p
pick_thread (t ∷ ts) (suc i) h (p, ps) = pick_thread ts i (omega arith) ps

set-All :
    (P : Thread → Type 0) (ts : List Thread) (i : ℕ) {t : Thread}
    → All P ts
    → P t
    → All P (set ts i t)
set-All P [] i ps p = tt
set-All P (t ∷ ts) zero (q, ps) p = (p, ps)
set-All P (t ∷ ts) (suc i) (q, ps) p = (q, set-All P ts i ps p)

-- A job that is refused is in no queue.
run_async-Taken :
    (f : ℕ) (queuing_channel : Option ℕ) (p : ThreadPool)
    → 0 < length p.q_
    → Gives
        (λ (p', ret).
          (length p'.q_ ≡ length p.q_)
          × ((j : ℕ)
              → in_all j p'.q_
                ≡ in_all j p.q_ + (if ret == 0 then (if j == f then 1 else 0) else 0)))
        (run_async f queuing_channel p)
run_async-Taken f queuing_channel p some_queues = elim (Bool-cases p.should_stop_) [
  | inl stopping ↦ run_async-refused stopping
  | inr on ↦
      Gives-mono (run_async-Gives f queuing_channel p on some_queues)
        λ (p', ret) (taken, same, one). (same, λ j. rw taken (one j))
]
  where
    run_async-refused :
        p.should_stop_ ≡ true
        → Gives
            (λ (p', ret).
              (length p'.q_ ≡ length p.q_)
              × ((j : ℕ)
                  → in_all j p'.q_
                    ≡ in_all j p.q_ + (if ret == 0 then (if j == f then 1 else 0) else 0)))
            (run_async f queuing_channel p)
    run_async-refused stopping = unfold run_async in rw stopping (gives (refl, λ j. omega arith))

step-submit :
    (n f : ℕ) (queuing_channel : Option ℕ) (c : Crew)
    → 0 < n
    → IsCrew n c
    → Gives (IsCrew n) (step (submit f queuing_channel) c)
unfolding step
step-submit n f queuing_channel c some_threads v =
    Gives-bind (run_async-Taken f queuing_channel c.pool (omega (arith, v.queues)))
      λ (p', ret) (same, taken). gives (record {
        queues = same ∙ v.queues;
        crew = v.crew;
        each = v.each;
        balance = λ j. ground (arith, taken j, v.balance j);
      })

step-turn_of : (n id : ℕ) (c : Crew) → id < n → IsCrew n c → Gives (IsCrew n) (step (turn_of id) c)
unfolding step
step-turn_of n id c here v =
    Gives-bind (pick_thread c.threads id (omega (arith, v.crew)) v.each) λ t ok.
      Gives-bind
        (turn-Gives t.order id t.worker c.pool.q_
          (subst (λ m. All (λ x. x < m) t.order) (sym v.queues) ok.known) (omega (arith, v.queues))
          ok.low ok.high)
        λ (worker', run, qs) (same, balance, low, high). gives (record {
          queues = same ∙ v.queues;
          crew = length-set c.threads id _ ∙ v.crew;
          each =
              set-All (IsThread n) c.threads id v.each
                (record { known = ok.known; low = low; high = high });
          balance = λ j. omega (arith, balance j, v.balance j, count-append j run c.ran);
        })

step-pill : (n i : ℕ) (c : Crew) → i < n → IsCrew n c → Gives (IsCrew n) (step (pill i) c)
unfolding step
step-pill n i c here v = Gives-bind (get_elem?-Gives c.pool.q_ i (omega (arith, v.queues))) λ q e.
    gives (record {
      queues = length-set c.pool.q_ i _ ∙ v.queues;
      crew = v.crew;
      each = v.each;
      balance = λ j.
          omega
            (arith, v.balance j, in_all-set j c.pool.q_ i q (push none q) e, queued-push-none j q);
    })

step-IsCrew :
    (n : ℕ) (e : Event) (c : Crew) → 0 < n → IsEvent n e → IsCrew n c → Gives (IsCrew n) (step e c)
step-IsCrew n (submit f queuing_channel) c some_threads here v =
    step-submit n f queuing_channel c some_threads v
step-IsCrew n (turn_of id) c some_threads here v = step-turn_of n id c here v
step-IsCrew n stop c some_threads here v = step-stop
  where
    step-stop : Gives (IsCrew n) (step stop c)
    step-stop =
        unfold step in
        gives (record { queues = v.queues; crew = v.crew; each = v.each; balance = v.balance })
step-IsCrew n (pill i) c some_threads here v = step-pill n i c here v

pub steps-IsCrew :
    (n : ℕ) (es : List Event) (c : Crew)
    → 0 < n
    → All (IsEvent n) es
    → IsCrew n c
    → Gives (IsCrew n) (steps es c)
unfolding steps
steps-IsCrew n [] c some_threads here v = gives v
steps-IsCrew n (e ∷ es) c some_threads (h, hs) v =
    Gives-bind (step-IsCrew n e c some_threads h v) λ c' v'. steps-IsCrew n es c' some_threads hs v'

count-left_in : (j : ℕ) (q : Jobs) → count j (left_in q) ≡ queued j q
count-left_in j [] = refl
count-left_in j (none ∷ q) = count-left_in j q
count-left_in j (some i ∷ q) = omega (arith, count-left_in j q)

count-left_over : (j : ℕ) (qs : List Jobs) → count j (left_over qs) ≡ in_all j qs
count-left_over j [] = refl
count-left_over j (q ∷ qs) =
    omega
      (arith, count-append j (left_in q) (left_over qs), count-left_in j q, count-left_over j qs)

-- In a pool with a thread, whatever calls of `run_async`, turns of the threads, and steps of the destructor come,
-- and in whatever order: no index is out of bounds, and when the jobs that are left have been run, each job has
-- been run as often as `run_async` has taken it.
pub steps-once :
    (n : ℕ) (es : List Event) (c : Crew)
    → 0 < n
    → All (IsEvent n) es
    → IsCrew n c
    → Gives (λ c'. (j : ℕ) → count j (run_left_over c').ran ≡ count j c'.accepted) (steps es c)
steps-once n es c some_threads here v =
    Gives-mono (steps-IsCrew n es c some_threads here v) λ c' v' j. omega (
      arith,
      v'.balance j,
      count-append j (left_over c'.pool.q_) c'.ran,
      count-left_over j c'.pool.q_,
    )
