-- ===== src/Base/ThreadPool/Life/Whole.antt =====
-- A ThreadPool of base/threading.cc from the constructor on.
use simple_rpc.Prelude.{
  ℕ, zero, suc, ◌+◌, ◌-◌, ◌<◌, ◌≤◌, ◌≡◌, refl, ap, ◌∙◌, arith, List, [], ◌∷◌, ltb, length,
  length-replicate, replicate, All, Bool-cases, inl, inr,
}
use simple_rpc.Prelude.Fault.{Gives, gives, Gives-bind, ◌>>=◌}
use simple_rpc.Prelude.Dict.{count}
use simple_rpc.Base.ThreadPool.Turns.{in_all}
use simple_rpc.Base.ThreadPool.Life.{Event, in_order, new_threads, new_crew, steps, run_left_over}
use simple_rpc.Base.ThreadPool.Life.Shuffle.{steal_order-Same}
use simple_rpc.Base.ThreadPool.Life.Once.{IsThread, IsCrew, IsEvent, steps-once}

count-in_order : (x i n : ℕ) → i + n ≤ x → count x (in_order i n) ≡ 0
count-in_order x i zero h = refl
count-in_order x i (suc n) h = ground (arith, count-in_order x (i + 1) n)

below : (n : ℕ) (xs : List ℕ) → ((x : ℕ) → n ≤ x → count x xs ≡ 0) → All (λ x. x < n) xs
below n [] h = tt
below n (y ∷ ys) h = (first, below n ys (λ x large. omega (arith, h x large)))
  where
    first : y < n
    first = elim (Bool-cases (ltb y n)) [
      | inl small ↦ ground arith
      | inr large ↦ ground (arith, h y (ground arith))
    ]

new_threads-All :
    (n : ℕ) (each : List (List ℕ))
    → All (λ draws. length draws ≡ n - 1) each
    → Gives (λ ts. (length ts ≡ length each) × All (IsThread n) ts) (new_threads n each)
unfolding new_threads
new_threads-All n [] h = gives (refl, tt)
new_threads-All n (draws ∷ each) (h, hs) =
    Gives-bind (steal_order-Same n draws h) λ order (size, same).
      Gives-bind (new_threads-All n each hs) λ ts (many, oks). gives (
        ap suc many,
        (
          record {
            known = below n order (λ x large. same x ∙ count-in_order x 0 n (omega arith));
            low = omega arith;
            high = omega arith;
          },
          oks,
        ),
      )

in_all-replicate : (j n : ℕ) → in_all j (replicate n []) ≡ 0
in_all-replicate j zero = refl
in_all-replicate j (suc n) = omega (arith, in_all-replicate j n)

pub new_crew-IsCrew :
    (draws : List (List ℕ))
    → All (λ d. length d ≡ length draws - 1) draws
    → Gives (IsCrew (length draws)) (new_crew draws)
unfolding new_crew
new_crew-IsCrew draws h = Gives-bind (new_threads-All (length draws) draws h) λ ts (many, oks).
    gives (record {
      queues = length-replicate (length draws) [];
      crew = many;
      each = oks;
      balance = λ j. omega (arith, in_all-replicate j (length draws));
    })

-- A new pool with a thread, whatever its draws are, and whatever calls of `run_async`, turns of the threads and
-- steps of the destructor come, in whatever order: no index is out of bounds and no check fails, and when the jobs
-- that are left have been run, each job has been run as often as `run_async` has taken it.
pub new_crew-once :
    (draws : List (List ℕ)) (es : List Event)
    → 0 < length draws
    → All (λ d. length d ≡ length draws - 1) draws
    → All (IsEvent (length draws)) es
    → Gives
        (λ c. (j : ℕ) → count j (run_left_over c).ran ≡ count j c.accepted)
        (new_crew draws >>= steps es)
new_crew-once draws es some_threads h here =
    Gives-bind (new_crew-IsCrew draws h) λ c v. steps-once (length draws) es c some_threads here v
