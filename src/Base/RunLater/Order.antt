-- ===== src/Base/RunLater/Order.antt =====
-- When the thread of a RunLater of base/threading.cc runs which job.
use simple_rpc.Prelude.{
  ℕ, ◌+◌, ◌*◌, ◌-◌, ◌%◌, ◌≤◌, ◌<◌, ◌≡◌, refl, sym, subst, ◌⊎◌, inl, inr, if_case, true, false, List,
  [], ◌∷◌, ltb, All, arith,
}
use simple_rpc.Prelude.Perms.{Permᴰ, All-perm}
use simple_rpc.Prelude.Least.{take_top, take_top-perm, take_top-All}
use simple_rpc.Base.RunLater.{
  RunLater, Job, Turn, waits_to, greater, run_later, stop, abstime, popped, one_job, try_one_job,
}

abbrev pub Before : Job → Job → Type 0
Before i j = i.0 ≤ j.0

abbrev pub IsSorted : List Job → Type 0
IsSorted [] = Unit {0}
IsSorted (j ∷ q) = All (Before j) q × IsSorted q

top-Before : (e : Job) (q : List Job) → (let r = take_top greater e q in All (Before r.0) r.1)
top-Before e q =
    take_top-All greater Before (λ a b c h k. omega arith) (λ a b h. later a b h)
      (λ a b h. earlier a b h) e q
  where
    later : (a b : Job) → greater a b ≡ true → Before b a
    later (t, i) (u, j) h = ground arith

    earlier : (a b : Job) → greater a b ≡ false → Before a b
    earlier (t, i) (u, j) h = ground arith

-- `latest_` is no earlier than any job.
abbrev pub IsCovered : RunLater → Type 0
IsCovered r = All (λ j. j.0 ≤ r.latest_) r.jobs_

raise : (a b : ℕ) (q : List Job) → a ≤ b → All (λ j. j.0 ≤ a) q → All (λ j. j.0 ≤ b) q
raise a b [] h hs = tt
raise a b (j ∷ q) h (hj, hs) = (omega arith, raise a b q h hs)

pub run_later-IsCovered :
    (now sec f : ℕ) (r : RunLater) → IsCovered r → IsCovered (run_later now sec f r).0
unfolding run_later
run_later-IsCovered now sec f r h =
    if_case (λ (t : RunLater × ℕ). IsCovered t.0) r.should_stop_ (λ stopping. h)
      (λ going. (ground arith, raise r.latest_ _ r.jobs_ (ground arith) h))

pub stop-IsCovered : (r : RunLater) → IsCovered r → IsCovered (stop r)
stop-IsCovered r h = (omega arith, h)

-- The turn takes the earliest job, whose time is over, or waits, and changes nothing, while no time is over, to
-- a time that is not behind that of the earliest.
abbrev pub Turned : ℕ → RunLater → RunLater × Turn → Type 0
Turned now r (r', did) =
    ((j : Job) × (j.0 < now)
      × (did ≡ popped j.1)
      × Permᴰ (j ∷ r'.jobs_) r.jobs_
      × All (Before j) r'.jobs_
      × (r' ≡ record r { jobs_ = r'.jobs_ }))
    ⊎ ((r' ≡ r)
        × All (λ j. now ≤ j.0) r.jobs_
        × ((sec nsec : ℕ)
            → did ≡ waits_to sec nsec
            → (nsec ≤ 1000000000) × All (λ j. sec * 1000000000 + nsec ≤ j.0 * 1000) r.jobs_))

-- Seconds and nanoseconds of a wait from `now` to `due`.
abbrev NotPast : ℕ → Turn → Type 0
NotPast due did =
    (sec nsec : ℕ)
    → did ≡ waits_to sec nsec
    → (nsec ≤ 1000000000) × (sec * 1000000000 + nsec ≤ due * 1000)

abstime-NotPast : (now due : ℕ) → now ≤ due → NotPast due (abstime now (due - now))
abstime-NotPast now due h sec nsec =
    if_case
      (λ t. t ≡ waits_to sec nsec → (nsec ≤ 1000000000) × (sec * 1000000000 + nsec ≤ due * 1000))
      (ltb (1000 * 1000 * 1000) (now % 1000000 * 1000 + (due - now) % 1000000 * 1000))
      (λ over e. ground arith) (λ under e. ground arith)

-- What holds of the earliest and passes to the later holds of all.
from_first :
    (P : Job → Type 0) (j : Job) (q : List Job)
    → ((i : Job) → Before j i → P i)
    → All (Before j) q
    → All P (j ∷ q)
from_first P j q f hs = (f j (omega arith), others q hs)
  where
    others : (q : List Job) → All (Before j) q → All P q
    others [] hs = tt
    others (i ∷ q) (hi, hs) = (f i hi, others q hs)

one_job-Turned :
    (now : ℕ) (r : RunLater) (q : List Job) → r.jobs_ ≡ q → Turned now r (one_job now r q)
one_job-Turned now r [] at = inr (refl, subst (All (λ j. now ≤ j.0)) (sym at) tt, λ sec nsec e. cc)
one_job-Turned now r (e ∷ q) at =
    let t = take_top greater e q in
    let perm : Permᴰ (t.0 ∷ t.1) r.jobs_ =
      subst (Permᴰ (t.0 ∷ t.1)) (sym at) (take_top-perm greater e q) in
    let first = top-Before e q in
    if_case (Turned now r) (ltb t.0.0 now) (λ due. inl (t.0, ground arith, refl, perm, first, refl))
      (λ early.
        let rest : now ≤ t.0.0 = ground arith in
        inr (
          refl,
          All-perm (λ j. now ≤ j.0) perm
              (from_first (λ j. now ≤ j.0) t.0 t.1 (λ i h. omega arith) first),
          λ sec nsec did.
              let (proper, early_enough) = abstime-NotPast now t.0.0 rest sec nsec did in
              (
                proper,
                All-perm (λ j. sec * 1000000000 + nsec ≤ j.0 * 1000) perm
                    (from_first (λ j. sec * 1000000000 + nsec ≤ j.0 * 1000) t.0 t.1
                      (λ i h. omega arith) first),
              ),
        ))

-- `try_one_job` runs the earliest job if its time is over, takes it off and keeps the others; if no time is over
-- it changes nothing, and a timed wait ends no later than the time of any job, with nanoseconds of 10^9 at most.
pub try_one_job-Turned : (now : ℕ) (r : RunLater) → Turned now r (try_one_job now r)
unfolding try_one_job
try_one_job-Turned now r = one_job-Turned now r r.jobs_ refl
