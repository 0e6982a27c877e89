-- ===== src/Rpc/Client/Futures/Wait.antt =====
-- How a timed wait ends.
use simple_rpc.Prelude.{
  ℕ, ◌+◌, ◌≡◌, ◌≢◌, refl, ap, ap₂, ◌∙◌, arith, true, false, Bool, ◌||◌, ◌==◌, List, [], ◌∷◌, ◌++◌,
  All, Bool-cases, inl, inr, ◌⊎◌, ==_iff, if◌then◌else◌,
}
use simple_rpc.Prelude.Int.{ℤ, pos, negsuc}
use simple_rpc.Base.Deadline.{deadline}
use simple_rpc.Rpc.Client.Futures.{
  Future, Round, Waited, notify_ready, answered, wait_loop, timed_wait, report, etimedout,
}
use simple_rpc.Rpc.Client.Futures.Waited.{waiting, aborted, over}

-- What the kernel answers in a round.
abbrev pub answer : ℕ → ℕ → Round → ℤ
answer full_sec nsec r = r.ret (deadline r.tv_sec r.tv_usec full_sec nsec)

-- A round in which nothing happens: a spurious wakeup.
abbrev pub Spurious : ℕ → ℕ → Round → Type 0
Spurious full_sec nsec r = (r.notified ≡ false) × (answer full_sec nsec r ≡ pos 0)

abbrev one_if : Bool → ℕ
one_if b = if b then 1 else 0

-- What a round leaves in which a notification comes or which ends with another answer than 0.
abbrev pub ended : Bool → ℤ → Future → Waited
ended notified (negsuc ret) fu = aborted
ended notified (pos ret) fu =
    if ret == 110
    then over (record fu {
      ready_ = notified;
      timed_out_ = true;
      error_code_ = etimedout;
      callbacks = fu.callbacks + one_if notified + 1;
    })
    else if ret == 0
    then over (record fu {
      ready_ = notified;
      timed_out_ = false;
      callbacks = fu.callbacks + one_if notified;
    })
    else aborted

-- The Future in the round, behind what `notify_ready` does.
noted : Bool → Future → Future
noted n fu = record fu { ready_ = n; timed_out_ = false; callbacks = fu.callbacks + one_if n }

noted_lem :
    (n : Bool) (fu : Future)
    → fu.ready_ ≡ false
    → fu.timed_out_ ≡ false
    → (if n then notify_ready fu else fu) ≡ noted n fu
unfolding notify_ready noted
noted_lem true fu e e' = rw e' refl
noted_lem false fu e e' =
    ap₂ (λ r t. record fu { ready_ = r; timed_out_ = t }) e e'
    ∙ ap (λ c. record fu { ready_ = false; timed_out_ = false; callbacks = c }) (omega arith)

module _ (full_sec nsec : ℕ) where
  wakeups :
      (before : List Round) (r : Round) (rs : List Round) (fu : Future)
      → fu.ready_ ≡ false
      → fu.timed_out_ ≡ false
      → All (Spurious full_sec nsec) before
      → wait_loop full_sec nsec (before ++ (r ∷ rs)) fu ≡ wait_loop full_sec nsec (r ∷ rs) fu
  unfolding wait_loop
  wakeups [] r rs fu e e' h = refl
  wakeups (b ∷ before) r rs fu e e' ((quiet, woken), h) =
      let going : (fu.ready_ || fu.timed_out_) ≡ false = rw (e, e') refl in
      rw (going, quiet, woken)
        (wakeups before r rs fu e e' h
          ∙ ap
              (λ g.
                if g
                then over fu
                else answered (answer full_sec nsec r) (if r.notified then notify_ready fu else fu)
                    (wait_loop full_sec nsec rs))
              going)

  settled :
      (rs : List Round) (fu : Future)
      → (fu.ready_ || fu.timed_out_) ≡ true
      → wait_loop full_sec nsec rs fu ≡ over fu
  unfolding wait_loop
  settled [] fu h = rw h refl
  settled (r ∷ rs) fu h = rw h refl

  reported : Waited → Waited
  reported w = elim w [ over fu' ↦ over (report fu') | waiting ↦ waiting | aborted ↦ aborted ]

  or-true : (b : Bool) → b || true ≡ true
  or-true true = refl
  or-true false = refl

  here : {ret : ℕ} (n : Bool) → (n ≡ true) ⊎ (pos ret ≢ pos 0) → (ret == 0) ≡ true → n ≡ true
  here n (inl e) woken = e
  here {ret = ret} n (inr apart) woken = absurd (apart (ap pos ((==_iff ret 0).0 woken)))

  once :
      (n : Bool) (a : ℤ) (rs : List Round) (fu : Future)
      → fu.ready_ ≡ false
      → fu.timed_out_ ≡ false
      → (n ≡ true) ⊎ (a ≢ pos 0)
      → reported (answered a (if n then notify_ready fu else fu) (wait_loop full_sec nsec rs))
        ≡ ended n a fu
  unfolding noted reported
  once n (negsuc ret) rs fu e e' h = refl
  once n (pos ret) rs fu e e' h = elim (Bool-cases (ret == 110)) [
    | inl late ↦
        rw
          (
            late,
            noted_lem n fu e e',
            settled rs (record (noted n fu) { timed_out_ = true }) (or-true n),
          )
          refl
    | inr early ↦ elim (Bool-cases (ret == 0)) [
      | inl woken ↦
          rw (early, woken, noted_lem n fu e e', settled rs (noted n fu) (rw (here n h woken) refl))
            refl
      | inr failed ↦ rw (early, failed) refl
    ]
  ]

  -- A timed wait on a Future that is neither ready nor timed out comes to its end, after any number of spurious wakeups,
  -- with the first round that brings a notification or another answer than 0. Where the answer is 0 or ETIMEDOUT the
  -- wait is over: the Future is ready if it was notified, has the error ETIMEDOUT if the wait timed out, and the
  -- callback has run once for each of the two, so that a Future can be both, and its callback run twice. Any other
  -- answer fails the `verify`.
  pub timed_wait-ends :
      (before : List Round) (r : Round) (rs : List Round) (fu : Future)
      → fu.ready_ ≡ false
      → fu.timed_out_ ≡ false
      → All (Spurious full_sec nsec) before
      → (r.notified ≡ true) ⊎ (answer full_sec nsec r ≢ pos 0)
      → timed_wait full_sec nsec (before ++ (r ∷ rs)) fu
        ≡ ended r.notified (answer full_sec nsec r) fu
  unfolding timed_wait wait_loop reported
  timed_wait-ends before r rs fu e e' h last =
      let going : (fu.ready_ || fu.timed_out_) ≡ false = rw (e, e') refl in
      ap reported (wakeups before r rs fu e e' h)
      ∙ ap
          (λ g. reported (
            if g
            then over fu
            else answered (answer full_sec nsec r) (if r.notified then notify_ready fu else fu)
                (wait_loop full_sec nsec rs)))
          going
      ∙ once r.notified (answer full_sec nsec r) rs fu e e' last
