-- ===== src/Base/Deadline.antt =====
-- The end of a timed wait, as `CondVar::timed_wait` of base/threading.cc and `Future::timed_wait` of
-- rpc/client.cc reckon it. The whole seconds of the argument and the nanoseconds of the rest are arguments
-- here, and so is the answer of gettimeofday.
mod Runs
use simple_rpc.Prelude.{
  ℕ, ◌+◌, ◌-◌, ◌*◌, ◌<◌, ◌≤◌, ◌≡◌, ◌≢◌, ◌↔◌, ◌^◌, refl, arith, ltb, if◌then◌else◌, if_case,
}

-- `abstime.tv_sec` and `abstime.tv_nsec`
unfoldable pub deadline : ℕ → ℕ → ℕ → ℕ → ℕ × ℕ
deadline tv_sec tv_usec full_sec nsec =
    let tv_nsec = tv_usec * 1000 + nsec in
    if ltb (1000 * 1000 * 1000) tv_nsec
    then (tv_sec + full_sec + 1, tv_nsec - 1000 * 1000 * 1000)
    else (tv_sec + full_sec, tv_nsec)

abbrev pub in_nsec : ℕ × ℕ → ℕ
in_nsec (sec, nsec) = sec * 1000000000 + nsec

-- The deadline is as far after the time of the day as was asked, and its nanoseconds are less than a second
-- except where those of the two are one second together, which gives the value that
-- pthread_cond_timedwait refuses.
pub deadline-sum :
    (tv_sec tv_usec full_sec nsec : ℕ)
    → tv_usec < 1000000
    → nsec < 1000000000
    → (in_nsec (deadline tv_sec tv_usec full_sec nsec)
        ≡ in_nsec (tv_sec, tv_usec * 1000) + in_nsec (full_sec, nsec))
      × (((deadline tv_sec tv_usec full_sec nsec).1 < 1000000000)
          ↔ (tv_usec * 1000 + nsec ≢ 1000000000))
unfolding deadline
deadline-sum tv_sec tv_usec full_sec nsec day part =
    if_case
      (λ at.
        (in_nsec at ≡ in_nsec (tv_sec, tv_usec * 1000) + in_nsec (full_sec, nsec))
        × ((at.1 < 1000000000) ↔ (tv_usec * 1000 + nsec ≢ 1000000000)))
      (ltb (1000 * 1000 * 1000) (tv_usec * 1000 + nsec))
      (λ over. (ground arith, ((λ h e. ground arith), (λ h. ground arith))))
      (λ under. (omega arith, ((λ h e. omega arith), (λ h. ground arith))))
