-- ===== src/Base/Merged/Order.antt =====
-- What a MergedEnumerator of base/basetypes.h makes of sorted sources.
use simple_rpc.Prelude.{
  ℕ, zero, suc, ◌≤◌, ◌≡◌, refl, ap, subst, ◌∙◌, List, [], ◌∷◌, ◌++◌, Option, some, All, length,
  arith,
}
use simple_rpc.Prelude.Fault.{Gives, gives, Gives-bind, Gives-mono, ◌>>=◌}
use simple_rpc.Prelude.Perms.{
  Permᴰ, Permᴰ-refl, Permᴰ_skip, Permᴰ_sym, Permᴰ_prepend, Permᴰ_exchange, All-perm, All-append,
  length-Permᴰ,
}
use simple_rpc.Prelude.Least.{take_top, take_top-perm, take_top-All}
use simple_rpc.Base.Merged.{MergeHelper, MergeQueue, comes_after, add_source, next, drain, add_all}

abbrev pub IsSorted : List ℕ → Type 0
IsSorted [] = Unit {0}
IsSorted (x ∷ xs) = All (λ y. x ≤ y) xs × IsSorted xs

-- Everything that is still to come.
abbrev pub contents : MergeQueue → List ℕ
contents [] = []
contents (e ∷ q) = (e.datum ∷ e.src) ++ contents q

abbrev IsOrdered : MergeHelper → Type 0
IsOrdered e = IsSorted (e.datum ∷ e.src)

abbrev First : MergeHelper → MergeHelper → Type 0
First e f = e.datum ≤ f.datum

take_top-First :
    (e : MergeHelper) (q : MergeQueue) → (let r = take_top comes_after e q in All (First r.0) r.1)
take_top-First e q =
    take_top-All comes_after First (λ a b c h k. omega arith) (λ a b h. ground arith)
      (λ a b h. ground arith) e q

contents-perm : {q q' : MergeQueue} → Permᴰ q q' → Permᴰ (contents q) (contents q')
contents-perm Permᴰ.nil = Permᴰ.nil
contents-perm (Permᴰ.cons {a = a} {l₂ = l₂} e p) =
    Permᴰ.trans (Permᴰ_prepend (a.datum ∷ a.src) (contents-perm p)) (
      subst (λ b. Permᴰ ((a.datum ∷ a.src) ++ contents l₂) ((b.datum ∷ b.src) ++ contents l₂)) e
        (Permᴰ-refl _))
contents-perm (Permᴰ.swap {a = a} {b = b} {a' = a'} {l = l} e f) =
    subst (λ d. Permᴰ (contents (a ∷ b ∷ l)) (contents (a' ∷ d ∷ l))) e
      (subst (λ c. Permᴰ (contents (a ∷ b ∷ l)) (contents (c ∷ a ∷ l))) f
        (Permᴰ_exchange (a.datum ∷ a.src) (b.datum ∷ b.src) (contents l)))
contents-perm (Permᴰ.trans p q) = Permᴰ.trans (contents-perm p) (contents-perm q)

contents-add_source :
    (src : List ℕ) (q : MergeQueue) → contents (add_source src q) ≡ src ++ contents q
contents-add_source [] q = refl
contents-add_source (x ∷ src) q = refl

add_source-IsOrdered :
    (src : List ℕ) (q : MergeQueue)
    → IsSorted src
    → All IsOrdered q
    → All IsOrdered (add_source src q)
add_source-IsOrdered [] q h hs = hs
add_source-IsOrdered (x ∷ src) q h hs = (h, hs)

le_trans_All : (a b : ℕ) (xs : List ℕ) → a ≤ b → All (λ y. b ≤ y) xs → All (λ y. a ≤ y) xs
le_trans_All a b [] h hs = tt
le_trans_All a b (x ∷ xs) h (hx, hs) = (omega arith, le_trans_All a b xs h hs)

contents-First :
    (e : MergeHelper) (q : MergeQueue)
    → All (First e) q
    → All IsOrdered q
    → All (λ y. e.datum ≤ y) (contents q)
contents-First e [] h o = tt
contents-First e (f ∷ q) (h, hs) ((least, _), os) =
    All-append (λ y. e.datum ≤ y) (f.datum ∷ f.src) (contents q)
      (h, le_trans_All e.datum f.datum f.src h least) (contents-First e q hs os)

-- `drain` behind one call of `next`, which has taken `mh`.
abbrev Drained : MergeQueue → Option (List ℕ) → Type 0
Drained q = Gives (λ xs. IsSorted xs × Permᴰ xs (contents q))

cons-Drained :
    (mh : MergeHelper) (rest q : MergeQueue) (more : Option (List ℕ))
    → Permᴰ (mh ∷ rest) q
    → All (First mh) rest
    → All IsOrdered (mh ∷ rest)
    → Drained (add_source mh.src rest) more
    → Drained q (more >>= λ xs. some (mh.datum ∷ xs))
cons-Drained mh rest q more perm least ((low, sorted), ordered) h =
    Gives-bind h λ xs (sorted', perm').
      let all : Permᴰ xs (mh.src ++ contents rest) =
        subst (Permᴰ xs) (contents-add_source mh.src rest) perm' in
      gives (
        (
          All-perm (λ y. mh.datum ≤ y) (Permᴰ_sym all)
              (All-append (λ y. mh.datum ≤ y) mh.src (contents rest) low
                (contents-First mh rest least ordered)),
          sorted',
        ),
        Permᴰ.trans (Permᴰ_skip mh.datum all) (contents-perm perm),
      )

drain-Drained :
    (fuel : ℕ) (q : MergeQueue)
    → All IsOrdered q
    → length (contents q) ≤ fuel
    → Drained q (drain fuel q)
unfolding drain next
drain-Drained zero [] h fits = gives (tt, Permᴰ-refl [])
drain-Drained (suc fuel) [] h fits = gives (tt, Permᴰ-refl [])
drain-Drained zero (e ∷ q) h fits = absurd (omega arith)
drain-Drained (suc fuel) (e ∷ q) h fits =
    let r = take_top comes_after e q in
    let perm = take_top-perm comes_after e q in
    let ordered : All IsOrdered (r.0 ∷ r.1) = All-perm IsOrdered (Permᴰ_sym perm) h in
    let left : length (contents (add_source r.0.src r.1)) ≤ fuel =
      omega
        (arith, length-Permᴰ (contents-perm perm), ap length (contents-add_source r.0.src r.1)) in
    cons-Drained r.0 r.1 (e ∷ q) (drain fuel (add_source r.0.src r.1)) perm (take_top-First e q)
      ordered
      (drain-Drained fuel (add_source r.0.src r.1)
        (add_source-IsOrdered r.0.src r.1 ordered.0.1 ordered.1) left)

abbrev pub flatten : List (List ℕ) → List ℕ
flatten [] = []
flatten (src ∷ srcs) = src ++ flatten srcs

contents-add_all : (srcs : List (List ℕ)) → contents (add_all srcs) ≡ flatten srcs
contents-add_all [] = refl
contents-add_all (src ∷ srcs) =
    contents-add_source src (add_all srcs) ∙ ap (λ t. src ++ t) (contents-add_all srcs)

add_all-IsOrdered : (srcs : List (List ℕ)) → All IsSorted srcs → All IsOrdered (add_all srcs)
add_all-IsOrdered [] h = tt
add_all-IsOrdered (src ∷ srcs) (h, hs) =
    add_source-IsOrdered src (add_all srcs) h (add_all-IsOrdered srcs hs)

-- An enumerator over sorted sources gives, call by call while there is a next value, all that the sources give,
-- each value as often, in ascending order; as many calls as there are values are enough.
pub drain-add_all :
    (srcs : List (List ℕ))
    → All IsSorted srcs
    → Gives
        (λ xs. IsSorted xs × Permᴰ xs (flatten srcs))
        (drain (length (flatten srcs)) (add_all srcs))
drain-add_all srcs h =
    Gives-mono
      (drain-Drained (length (flatten srcs)) (add_all srcs) (add_all-IsOrdered srcs h)
        (omega (arith, ap length (contents-add_all srcs))))
      λ xs (sorted, perm). (sorted, subst (Permᴰ xs) (contents-add_all srcs) perm)
