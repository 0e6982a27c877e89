-- ===== src/Base/ThreadPool/Life/Shuffle.antt =====
-- The order in which a thread of a ThreadPool steals, of base/threading.cc.
use simple_rpc.Prelude.{
  ℕ, zero, suc, ◌+◌, ◌-◌, ◌<◌, ◌≤◌, ◌≡◌, ◌==◌, refl, ap, ◌∙◌, arith, if_case, lt→ltb, false, List,
  [], ◌∷◌, some, if◌then◌else◌, get_elem?, set, length, length-set, ==_iff,
}
use simple_rpc.Prelude.Fault.{Gives, gives, Gives-bind, Gives-mono, get_elem?-Gives, verify-Gives}
use simple_rpc.Prelude.Dict.{count}
use simple_rpc.Base.ThreadPool.Life.{rand_next, in_order, exchange, shuffle, steal_order}

abbrev ind : ℕ → ℕ → ℕ
ind x y = if x == y then 1 else 0

count-set :
    (x : ℕ) (xs : List ℕ) (i a b : ℕ)
    → get_elem? xs i ≡ some a
    → count x (set xs i b) + ind x a ≡ count x xs + ind x b
count-set x [] i a b e = cc
count-set x (y ∷ xs) zero a b e = ground arith
count-set x (y ∷ xs) (suc i) a b e = omega (arith, count-set x xs i a b e)

get_elem?-set_case :
    (xs : List ℕ) (i j : ℕ) {a : ℕ} (v : ℕ)
    → get_elem? xs i ≡ some a
    → (i == j) ≡ false
    → get_elem? (set xs j v) i ≡ some a
get_elem?-set_case [] i j v e ne = cc
get_elem?-set_case (y ∷ xs) zero zero v e ne = cc
get_elem?-set_case (y ∷ xs) zero (suc j) v e ne = e
get_elem?-set_case (y ∷ xs) (suc i) zero v e ne = e
get_elem?-set_case (y ∷ xs) (suc i) (suc j) v e ne = get_elem?-set_case xs i j v e (ground arith)

-- The same numbers, as often.
abbrev pub Same : List ℕ → List ℕ → Type 0
Same xs ys = (length ys ≡ length xs) × ((x : ℕ) → count x ys ≡ count x xs)

exchange-Same :
    (i j : ℕ) (order : List ℕ)
    → i < length order
    → j < length order
    → Gives (Same order) (exchange i j order)
exchange-Same i j order hi hj = Gives-bind (get_elem?-Gives order i hi) λ a ea.
    Gives-bind (get_elem?-Gives order j hj) λ b eb. gives (
      if_case (Same order) (j == i) (λ same. (refl, (λ x. refl)))
        (λ apart. (
          length-set (set order j a) i b ∙ length-set order j a,
          λ x. omega (
            arith,
            count-set x order j b a eb,
            count-set x (set order j a) i a b (get_elem?-set_case order i j a ea (ground arith)),
          ),
        )))

rand_next-Gives :
    (draw lower upper : ℕ)
    → lower < upper
    → Gives (λ j. (lower ≤ j) × (j < upper)) (rand_next draw lower upper)
rand_next-Gives draw lower upper h =
    verify-Gives _ _ (lt→ltb lower upper h) (gives (omega arith, grind arith))

shuffle-Same :
    (draws : List ℕ) (i n : ℕ) (order : List ℕ)
    → length order ≡ n
    → i + length draws ≤ n - 1
    → Gives (Same order) (shuffle draws i n order)
unfolding shuffle
shuffle-Same [] i n order size rounds = gives (refl, λ x. refl)
shuffle-Same (draw ∷ draws) i n order size rounds =
    Gives-bind (rand_next-Gives draw i n (omega arith)) λ j (low, high).
      Gives-bind (exchange-Same i j order (omega arith) (omega arith)) λ order' (size', same).
        Gives-mono (shuffle-Same draws (i + 1) n order' (size' ∙ size) (omega arith))
          λ order'' (size'', same'). (size'' ∙ size', λ x. same' x ∙ same x)

length-in_order : (i n : ℕ) → length (in_order i n) ≡ n
length-in_order i zero = refl
length-in_order i (suc n) = ap suc (length-in_order (i + 1) n)

-- Whatever the draws are, the order of stealing has each thread of the pool as often as 0, 1, 2 up to `n` have it,
-- and no index is out of bounds.
pub steal_order-Same :
    (n : ℕ) (draws : List ℕ)
    → length draws ≡ n - 1
    → Gives (Same (in_order 0 n)) (steal_order n draws)
unfolding steal_order
steal_order-Same n draws rounds =
    verify-Gives _ _ ((==_iff (length draws) (n - 1)).1 rounds)
      (shuffle-Same draws 0 n (in_order 0 n) (length-in_order 0 n) (omega arith))
