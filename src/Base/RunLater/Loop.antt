-- ===== src/Base/RunLater/Loop.antt =====
-- The end of the thread of a RunLater of base/threading.cc.
use simple_rpc.Prelude.{
  ℕ, ◌≤◌, ◌<◌, ◌≡◌, refl, sym, ap, ap₂, subst, ◌∙◌, ◌⊎◌, inl, inr, Bool, true, List, [], ◌∷◌, ◌++◌,
  none, some, All, length, arith,
}
use simple_rpc.Prelude.Perms.{Permᴰ, Permᴰ-refl, Permᴰ_skip, Permᴰ_sym, All-perm, length-Permᴰ}
use simple_rpc.Base.RunLater.{
  RunLater, Job, Turn, popped, ran_by, try_one_job, loop_turn, proceed, run_later_loop,
}
use simple_rpc.Base.RunLater.Order.{Before, IsSorted, IsCovered, Turned, try_one_job-Turned}

-- The jobs among the entries of the queue, in order.
abbrev pub functions : List Job → List ℕ
functions [] = []
functions ((t, none) ∷ q) = functions q
functions ((t, some f) ∷ q) = f ∷ functions q

-- The loop is over, the queue is empty, and what ran are the jobs of the queue in the order of their times.
abbrev pub Finished : List Job → RunLater × List ℕ × Bool → Type 0
Finished queued (r, done, over) =
    (over ≡ true)
    × (r.jobs_ ≡ [])
    × ((order : List Job) × Permᴰ order queued × IsSorted order × (done ≡ functions order))

List-cases : (q : List Job) → (q ≡ []) ⊎ ((e : Job) × (rest : List Job) × (q ≡ e ∷ rest))
List-cases [] = inl refl
List-cases (e ∷ q) = inr (e, q, refl)

loop_turn-none :
    (now : ℕ) (r : RunLater) → r.should_stop_ ≡ true → r.jobs_ ≡ [] → loop_turn now r ≡ none
unfolding loop_turn
loop_turn-none now r stopped empty = rw (empty, stopped)

loop_turn-some :
    (now : ℕ) (r : RunLater) (e : Job) (q : List Job)
    → r.jobs_ ≡ e ∷ q
    → loop_turn now r ≡ some (try_one_job now r)
unfolding loop_turn
loop_turn-some now r e q at = ground arith

functions-cons :
    (j : Job) (order : List Job) → ran_by (popped j.1) ++ functions order ≡ functions (j ∷ order)
functions-cons (t, none) order = refl
functions-cons (t, some f) order = refl

-- What the rest of the loop makes, with the job in front that the turn has taken.
Finished-cons :
    (j : Job) (did : Turn) (left queued : List Job) (r : RunLater) (done : List ℕ) (over : Bool)
    → did ≡ popped j.1
    → Permᴰ (j ∷ left) queued
    → All (Before j) left
    → Finished left (r, done, over)
    → Finished queued (r, ran_by did ++ done, over)
Finished-cons j did left queued r done over took perm first
      (ended, empty, (order, perm', sorted, ran_in)) =
    (
      ended,
      empty,
      (
        j ∷ order,
        Permᴰ.trans (Permᴰ_skip j perm') perm,
        (All-perm (Before j) (Permᴰ_sym perm') first, sorted),
        ap₂ (λ d l. ran_by d ++ l) took ran_in ∙ functions-cons j order,
      ),
    )

-- What is asked of the thread and of the times.
abbrev Ending : List ℕ → RunLater → Type 0
Ending times r =
    (r.should_stop_ ≡ true)
    × IsCovered r
    × All (λ now. r.latest_ < now) times
    × (length r.jobs_ < length times)

Turned-Finished :
    (now : ℕ) (times : List ℕ) (r : RunLater) (e : Job) (q : List Job)
    → Ending (now ∷ times) r
    → ((r' : RunLater) → Ending times r' → Finished r'.jobs_ (run_later_loop times r'))
    → r.jobs_ ≡ e ∷ q
    → (t : RunLater × Turn) → Turned now r t
    → (let l = run_later_loop times t.0 in Finished r.jobs_ (l.0, ran_by t.1 ++ l.1, l.2))
Turned-Finished now times r e q (stopped, covered, (late, lates), enough) rest at (r', did)
      (inr (same, early, _)) =
    let too_early : now ≤ e.0 = (subst (All (λ j. now ≤ j.0)) at early).0 in
    let in_time : e.0 ≤ r.latest_ = (subst (All (λ j. j.0 ≤ r.latest_)) at covered).0 in
    absurd (omega arith)
Turned-Finished now times r e q (stopped, covered, (late, lates), enough) rest at (r', did)
      (inl (j, due, took, perm, first, same)) =
    let latest : r.latest_ ≡ r'.latest_ = sym (ap (λ t. t.latest_) same) in
    let l = run_later_loop times r' in
    Finished-cons j did r'.jobs_ r.jobs_ l.0 l.1 l.2 took perm first (
      rest r' (
        ap (λ t. t.should_stop_) same ∙ stopped,
        subst (λ m. All (λ i. i.0 ≤ m) r'.jobs_) latest
            (All-perm (λ i. i.0 ≤ r.latest_) (Permᴰ_sym perm) covered).1,
        subst (λ m. All (λ n. m < n) times) latest lates,
        omega (arith, length-Permᴰ perm),
      ))

run_later_loop-Ending :
    (times : List ℕ) (r : RunLater) → Ending times r → Finished r.jobs_ (run_later_loop times r)
unfolding run_later_loop
run_later_loop-Ending [] r (stopped, covered, late, enough) = absurd (omega arith)
run_later_loop-Ending (now ∷ times) r h = elim (List-cases r.jobs_) [
  | inl empty ↦
      subst (λ o. Finished r.jobs_ (proceed r o (run_later_loop times)))
        (sym (loop_turn-none now r h.0 empty))
        (refl, empty, ([], subst (Permᴰ []) (sym empty) (Permᴰ-refl []), tt, refl))
  | inr (e, q, at) ↦
      subst (λ o. Finished r.jobs_ (proceed r o (run_later_loop times)))
        (sym (loop_turn-some now r e q at))
        (Turned-Finished now times r e q h (run_later_loop-Ending times) at (try_one_job now r)
          (try_one_job-Turned now r))
]

-- A thread that is to stop, at times behind all jobs, runs every job that is left, in the order of their times,
-- and is over; a turn for each entry of the queue and one more are enough.
pub run_later_loop-Finished :
    (times : List ℕ) (r : RunLater)
    → r.should_stop_ ≡ true
    → IsCovered r
    → All (λ now. r.latest_ < now) times
    → length r.jobs_ < length times
    → Finished r.jobs_ (run_later_loop times r)
run_later_loop-Finished times r stopped covered late enough =
    run_later_loop-Ending times r (stopped, covered, late, enough)
