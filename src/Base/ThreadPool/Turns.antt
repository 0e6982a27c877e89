-- ===== src/Base/ThreadPool/Turns.antt =====
-- What the threads of a ThreadPool do with its jobs.
use simple_rpc.Prelude.{
  length-set, ℕ, zero, suc, ◌+◌, ◌%◌, ◌<◌, ◌≤◌, ◌≡◌, refl, ap, arith, false, ◌||◌, List, [], ◌∷◌,
  Option, none, some, if◌then◌else◌, ltb, ◌==◌, get_elem?, set, length, if_case, lt→ltb, All,
}
use simple_rpc.Prelude.Fault.{Gives, gives, Gives-bind, get_elem?-Gives, verify-Gives}
use simple_rpc.Prelude.Dict.{count}
use simple_rpc.Base.ThreadPool.{
  pick_own, finish, Job, Jobs, push, try_pop, try_pop_but_ignore, ThreadPool, push_at, run_async,
  Worker, steal, pick, waits, turn,
}

-- How often a job is in a queue, and in all queues.
abbrev pub queued : ℕ → Jobs → ℕ
queued j [] = 0
queued j (none ∷ q) = queued j q
queued j (some i ∷ q) = (if j == i then 1 else 0) + queued j q

abbrev pub in_all : ℕ → List Jobs → ℕ
in_all j [] = 0
in_all j (q ∷ qs) = queued j q + in_all j qs

pub in_all-set :
    (j : ℕ) (qs : List Jobs) (i : ℕ) (q q' : Jobs)
    → get_elem? qs i ≡ some q
    → in_all j (set qs i q') + queued j q ≡ in_all j qs + queued j q'
in_all-set j [] i q q' e = cc
in_all-set j (p ∷ qs) zero q q' e =
    let same : queued j p ≡ queued j q =
      ap (λ o. elim o [ none ↦ queued j p | some r ↦ queued j r ]) e in
    omega (arith, same)
in_all-set j (p ∷ qs) (suc i) q q' e = omega (arith, in_all-set j qs i q q' e)

queued-push :
    (j i : ℕ) (q : Jobs) → queued j (push (some i) q) ≡ queued j q + (if j == i then 1 else 0)
queued-push j i [] = omega arith
queued-push j i (none ∷ q) = queued-push j i q
queued-push j i (some k ∷ q) = omega (arith, queued-push j i q)

push_at-Gives :
    (channel f : ℕ) (qs : List Jobs)
    → 0 < length qs
    → Gives
        (λ qs'.
          (length qs' ≡ length qs)
          × ((j : ℕ) → in_all j qs' ≡ in_all j qs + (if j == f then 1 else 0)))
        (push_at channel (some f) qs)
unfolding push_at
push_at-Gives channel f qs some_queues = verify-Gives _ _ (lt→ltb 0 (length qs) some_queues) (
    Gives-bind (get_elem?-Gives qs (channel % length qs) (omega arith)) λ q e. gives (
      length-set qs (channel % length qs) (push (some f) q),
      (λ j.
          omega (
            arith,
            in_all-set j qs (channel % length qs) q (push (some f) q) e,
            queued-push j f q,
          )),
    ))

-- A pool that is not stopping and has a thread takes the job, whatever the channel: it is in the queues once
-- more, no other job is in them more or less often, and no index is out of bounds.
pub run_async-Gives :
    (f : ℕ) (queuing_channel : Option ℕ) (p : ThreadPool)
    → p.should_stop_ ≡ false
    → 0 < length p.q_
    → Gives
        (λ (p', r).
          (r ≡ 0)
          × (length p'.q_ ≡ length p.q_)
          × ((j : ℕ) → in_all j p'.q_ ≡ in_all j p.q_ + (if j == f then 1 else 0)))
        (run_async f queuing_channel p)
unfolding run_async
run_async-Gives f none p on some_queues = rw on (
    Gives-bind (push_at-Gives p.round_robin_ f p.q_ some_queues)
      λ qs (same, one). gives (refl, same, one))
run_async-Gives f (some channel) p on some_queues = rw on (
    Gives-bind (push_at-Gives channel f p.q_ some_queues) λ qs (same, one). gives (refl, same, one))

-- What the queues have, and the jobs that were taken from them.
abbrev PickedFrom : List Jobs → ℕ × Job × List Jobs → Type 0
PickedFrom qs (stage, job, qs') =
    (length qs' ≡ length qs)
    × ((j : ℕ) → in_all j qs' + queued j (job ∷ []) ≡ in_all j qs)
    × (0 < stage → job ≡ none)

pick_own-Gives :
    (id stage : ℕ) (qs : List Jobs) → id < length qs → Gives (PickedFrom qs) (pick_own id stage qs)
pick_own-Gives id stage qs known = Gives-bind (get_elem?-Gives qs id known) λ q e. gives (own q e)
  where
    own :
        (q : Jobs)
        → get_elem? qs id ≡ some q
        → PickedFrom qs (elim (try_pop q) [
          | none ↦ (stage + 1, none, qs)
          | some (job, q') ↦ (0, job, set qs id q')
        ])
    own [] e = (refl, (λ j. omega arith), (λ _. refl))
    own (none ∷ q) e = (
      length-set qs id q,
      (λ j. omega (arith, in_all-set j qs id (none ∷ q) q e)),
      (λ h. absurd (omega arith)),
    )
    own (some i ∷ q) e = (
      length-set qs id q,
      (λ j. omega (arith, in_all-set j qs id (some i ∷ q) q e)),
      (λ h. absurd (omega arith)),
    )

steal-Gives :
    (victims : List ℕ) (id stage : ℕ) (qs : List Jobs)
    → All (λ v. v < length qs) victims
    → Gives (PickedFrom qs) (steal victims id stage qs)
unfolding steal
steal-Gives [] id stage qs known = gives (refl, (λ j. omega arith), (λ _. refl))
steal-Gives (victim ∷ victims) id stage qs (here, known) =
    let rest = steal-Gives victims id stage qs known in
    if_case (Gives (PickedFrom qs)) (victim == id) (λ _. rest)
      (λ _. Gives-bind (get_elem?-Gives qs victim here) λ q e. taken rest q e)
  where
    taken :
        Gives (PickedFrom qs) (steal victims id stage qs)
        → (q : Jobs) → get_elem? qs victim ≡ some q
        → Gives (PickedFrom qs) (elim (try_pop_but_ignore q) [
          | none ↦ steal victims id stage qs
          | some (j, q') ↦ some (0, some j, set qs victim q')
        ])
    taken rest [] e = rest
    taken rest (none ∷ q) e = rest
    taken rest (some i ∷ q) e = gives (
      length-set qs victim q,
      (λ j. omega (arith, in_all-set j qs victim (some i ∷ q) q e)),
      (λ h. absurd (omega arith)),
    )

pick-Gives :
    (steal_order : List ℕ) (id stage : ℕ) (qs : List Jobs)
    → All (λ v. v < length qs) steal_order
    → id < length qs
    → Gives (PickedFrom qs) (pick steal_order id stage qs)
unfolding pick
pick-Gives steal_order id stage qs known here =
    if_case (Gives (PickedFrom qs)) (stage == 1)
      (λ _. gives (refl, (λ j. omega arith), (λ _. refl)))
      λ _.
        if_case (Gives (PickedFrom qs)) (stage == 3) (λ _. steal-Gives steal_order id 3 qs known)
          λ _.
            if_case (Gives (PickedFrom qs)) (ltb stage 5) (λ _. pick_own-Gives id stage qs here)
              λ _. gives (refl, (λ j. omega arith), (λ _. refl))

-- A turn of a thread, with its own id and the victims among the pool's: it comes to an end or waits, and no
-- index is out of bounds. Each job is run as often as it leaves the queues, and the sleep stays between 1 us
-- and 50 us.
pub turn-Gives :
    (steal_order : List ℕ) (id : ℕ) (w : Worker) (qs : List Jobs)
    → All (λ v. v < length qs) steal_order
    → id < length qs
    → 1000 ≤ w.tv_nsec
    → w.tv_nsec ≤ 50000
    → Gives
        (λ (w', run, qs').
          (length qs' ≡ length qs)
          × ((j : ℕ) → in_all j qs' + count j run ≡ in_all j qs)
          × (1000 ≤ w'.tv_nsec)
          × (w'.tv_nsec ≤ 50000))
        (turn steal_order id w qs)
unfolding turn
turn-Gives steal_order id w qs known here low high =
    if_case (Gives Turned) (w.stopped || waits id w.stage qs)
      (λ _. gives (refl, (λ j. omega arith), low, high))
      (λ _.
        Gives-bind (pick-Gives steal_order id w.stage qs known here)
          λ picked p. gives (finished picked p))
  where
    Turned : Worker × List ℕ × List Jobs → Type 0
    Turned (w', run, qs') =
        (length qs' ≡ length qs)
        × ((j : ℕ) → in_all j qs' + count j run ≡ in_all j qs)
        × (1000 ≤ w'.tv_nsec)
        × (w'.tv_nsec ≤ 50000)

    finished : (picked : ℕ × Job × List Jobs) → PickedFrom qs picked → Turned (finish w picked)
    finished (zero, none, qs') (same, balance, _) = (same, balance, low, high)
    finished (zero, some i, qs') (same, balance, _) = (same, balance, ground arith, ground arith)
    finished (suc stage, none, qs') (same, balance, _) = (same, balance, ground arith, ground arith)
    finished (suc stage, some i, qs') (same, balance, idle) = let nothing = idle (omega arith) in cc
