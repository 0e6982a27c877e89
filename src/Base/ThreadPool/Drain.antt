-- ===== src/Base/ThreadPool/Drain.antt =====
-- How a thread of a ThreadPool comes to its end.
use simple_rpc.Prelude.{
  ℕ, zero, suc, ◌≡◌, refl, ap, true, false, List, [], ◌∷◌, ◌++◌, map, none, some, Option, get_elem?,
  set, length, get_elem?-set_self,
}
use simple_rpc.Prelude.Fault.{◌>>=◌, Gives, gives, Gives-bind}
use simple_rpc.Base.ThreadPool.{Job, Jobs, Worker, turn, pick, finish}

-- The loop of `run_thread`, with the jobs that are run, the first one first.
unfoldable pub turns : ℕ → List ℕ → ℕ → Worker → List Jobs → Option (Worker × List ℕ × List Jobs)
turns zero steal_order id w qs = some (w, [], qs)
turns (suc n) steal_order id w qs = do
  (w', run, qs') ← turn steal_order id w qs
  (w'', later, qs'') ← turns n steal_order id w' qs'
  some (w'', run ++ later, qs'')

-- At stage 0.
abbrev pub awake : ℕ → Worker
awake t = record { stage = 0; tv_nsec = t; stopped = false }

turn_front :
    (steal_order : List ℕ) (id t : ℕ) (qs : List Jobs) (job : Job) (q : Jobs)
    → get_elem? qs id ≡ some (job ∷ q)
    → turn steal_order id (awake t) qs ≡ some (finish (awake t) (0, job, set qs id q))
unfolding turn pick
turn_front steal_order id t qs job q e = rw e refl

-- A thread at stage 0 whose queue has jobs and then the death pill runs the jobs in their order and stops, in
-- one turn for each and one for the pill; what is behind the pill stays in the queue.
pub turns-drain :
    (jobs : List ℕ) (rest : Jobs) (steal_order : List ℕ) (id t : ℕ) (qs : List Jobs)
    → get_elem? qs id ≡ some (map some jobs ++ (none ∷ rest))
    → Gives
        (λ (w', run, qs'). (w'.stopped ≡ true) × (run ≡ jobs) × (get_elem? qs' id ≡ some rest))
        (turns (suc (length jobs)) steal_order id (awake t) qs)
unfolding turns
turns-drain [] rest steal_order id t qs e =
    rw (turn_front steal_order id t qs none rest e)
      (gives (refl, refl, get_elem?-set_self qs id rest e))
turns-drain (j ∷ jobs) rest steal_order id t qs e =
    let q = map some jobs ++ (none ∷ rest) in
    rw (turn_front steal_order id t qs (some j) q e) (
      Gives-bind
        (turns-drain jobs rest steal_order id _ (set qs id q) (get_elem?-set_self qs id q e))
        λ (w', run, qs') (stopped, all, left). gives (stopped, ap (λ t. j ∷ t) all, left))
