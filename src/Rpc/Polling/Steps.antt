-- ===== src/Rpc/Polling/Steps.antt =====
-- A PollThread of rpc/polling.cc among the threads that use it: the runs of what its functions do under each lock and
-- between the locks, in any order.
use simple_rpc.Prelude.{
  ℕ, ◌+◌, ◌≤◌, ◌≡◌, refl, sym, ap, subst, ◌∙◌, Bool, true, false, map, List, [], ◌∷◌, ◌++◌, some,
  arith, if◌then◌else◌,
}
use simple_rpc.Prelude.Fault.{Keeps-some}
use simple_rpc.Prelude.Dict.{count-append, keys, count, Distinct}
use simple_rpc.Rpc.Polling.{
  PollThread, Refcnt, ref_copy, release, enroll, watch, unregister, postpone, update_mode, collect,
  forget_fd,
}
use simple_rpc.Rpc.Polling.Invariant.{
  IsPaired, enroll-IsPaired, unregister-Keeps, postpone-IsPaired, update_mode-Keeps,
}
use simple_rpc.Rpc.Polling.Refs.{
  enroll-count, unregister-count, postpone-count, update_mode-count, release-Keeps, Same,
  watch-Same, forget_fd-Same,
}

-- `held` is how many references to a Pollable are not the thread's. `leaving` has the Pollables that calls of `remove`
-- have found and not yet put into `pending_remove_`; `sweeping` those that the end of a round has still to release, and
-- `looked` is whether it has dealt with the fd of the first of them.
pub record World : Type 0 where
  pub thread : PollThread
  pub refs : Refcnt
  pub held : ℕ → ℕ
  pub leaving : List ℕ
  pub sweeping : List ℕ
  pub looked : Bool

-- The references that are the thread's: to what it watches, and to what it will release.
abbrev pub owned : ℕ → World → ℕ
owned x w =
    count x w.thread.poll_set_
    + count x w.leaving
    + count x w.thread.pending_remove_
    + count x w.sweeping

module _ (fd_of : ℕ → ℕ) where
  -- `take` and `drop` are a `ref_copy` and a `release` of someone else. `add` is `take`, `enter`, which gives the
  -- reference to the thread, and `watched`; `remove` is `leave` and `defer`; the end of a round is `gather`, and for each
  -- Pollable `look` and `let_go`.
  pub data Step : World → World → Type 0 where
    take :
        (poll : ℕ) {w : World}
        → Step w (record w { refs = ref_copy poll w.refs; held = ref_copy poll w.held })
    drop :
        (poll : ℕ) {w : World} {refs' : Refcnt} {held' : ℕ → ℕ}
        → release poll w.held ≡ some held'
        → release poll w.refs ≡ some refs'
        → Step w (record w { refs = refs'; held = held' })
    enter :
        (poll mode : ℕ) {w : World} {t' : PollThread} {held' : ℕ → ℕ}
        → release poll w.held ≡ some held'
        → enroll poll (fd_of poll) mode w.thread ≡ some t'
        → Step w (record w { thread = t'; held = held' })
    watched :
        (ok : Bool) (fd mode : ℕ) {w : World} {t' : PollThread}
        → watch ok fd mode w.thread ≡ some t'
        → Step w (record w { thread = t' })
    leave :
        (poll : ℕ) {w : World} {found : Bool} {t' : PollThread}
        → unregister poll (fd_of poll) w.thread ≡ some (found, t')
        → Step w
            (record w { thread = t'; leaving = (if found then poll ∷ [] else []) ++ w.leaving })
    defer :
        (poll : ℕ) (before after : List ℕ) {w : World}
        → w.leaving ≡ before ++ (poll ∷ after)
        → Step w (record w { thread = postpone poll w.thread; leaving = before ++ after })
    change :
        (ok : Bool) (poll new_mode : ℕ) {w : World} {t' : PollThread}
        → update_mode ok poll (fd_of poll) new_mode w.thread ≡ some t'
        → Step w (record w { thread = t' })
    gather :
        {w : World}
        → w.sweeping ≡ []
        → Step w (record w {
          thread = (collect w.thread).1;
          sweeping = (collect w.thread).0;
          looked = false;
        })
    look :
        (poll : ℕ) (polls : List ℕ) {w : World}
        → w.sweeping ≡ poll ∷ polls
        → w.looked ≡ false
        → Step w (record w { thread = forget_fd (fd_of poll) w.thread; looked = true })
    let_go :
        (poll : ℕ) (polls : List ℕ) {w : World} {refs' : Refcnt}
        → w.sweeping ≡ poll ∷ polls
        → w.looked ≡ true
        → release poll w.refs ≡ some refs'
        → Step w (record w { refs = refs'; sweeping = polls; looked = false })

  pub data Reachable (start : World) : World → Type 0 where
    begin : Reachable start start
    next : {w w' : World} → Reachable start w → Step w w' → Reachable start w'

  -- The count of a Pollable covers those that the thread and the others hold.
  pub record IsSafe (w : World) : Type 0 where
    pub paired : IsPaired fd_of w.thread
    pub covered : (x : ℕ) → w.held x + owned x w ≤ w.refs x

  kept-IsPaired : {t t' : PollThread} → IsPaired fd_of t → Same t t' → IsPaired fd_of t'
  kept-IsPaired p (m, e, r) = record {
    paired = ap keys m ∙ p.paired ∙ ap (map fd_of) (sym e);
    distinct_fds = subst (λ k. Distinct (keys k)) (sym m) p.distinct_fds;
    distinct_polls = subst Distinct (sym e) p.distinct_polls;
    distinct_pending = subst Distinct (sym r) p.distinct_pending;
  }

  collect-IsPaired : {t : PollThread} → IsPaired fd_of t → IsPaired fd_of (collect t).1
  unfolding collect
  collect-IsPaired p = record {
    paired = p.paired;
    distinct_fds = p.distinct_fds;
    distinct_polls = p.distinct_polls;
    distinct_pending = tt;
  }

  gathered_count :
      (x : ℕ) (t : PollThread)
      → count x (collect t).1.poll_set_
          + count x (collect t).1.pending_remove_
          + count x (collect t).0
        ≡ count x t.poll_set_ + count x t.pending_remove_
  unfolding collect
  gathered_count x t = omega arith

  postponed_set : (poll : ℕ) (t : PollThread) → (postpone poll t).poll_set_ ≡ t.poll_set_
  unfolding postpone
  postponed_set poll t = refl

  step-IsSafe : {w w' : World} → IsSafe w → Step w w' → IsSafe w'
  step-IsSafe s (take poll) = record {
    paired = s.paired;
    covered = λ x. (let c = s.covered x in ground arith);
  }
  step-IsSafe {w} s (drop poll e e') =
      let less = Keeps-some _ e (release-Keeps poll w.held) in
      let less' = Keeps-some _ e' (release-Keeps poll w.refs) in
      record { paired = s.paired; covered = λ x. omega (arith, s.covered x, less x, less' x) }
  step-IsSafe {w} s (enter poll mode e e') =
      let less = Keeps-some _ e (release-Keeps poll w.held) in
      let (more, same) = Keeps-some _ e' (enroll-count poll (fd_of poll) mode w.thread) in
      record {
        paired = Keeps-some _ e' (enroll-IsPaired fd_of poll mode w.thread s.paired);
        covered = λ x. omega (arith, s.covered x, less x, more x, ap (count x) same);
      }
  step-IsSafe {w} s (watched ok fd mode e) =
      let (m, same, same') = Keeps-some _ e (watch-Same ok fd mode w.thread) in
      record {
        paired = kept-IsPaired s.paired (m, same, same');
        covered = λ x. omega (arith, s.covered x, ap (count x) same, ap (count x) same');
      }
  step-IsSafe {w} s (leave poll e) =
      let (moved, same) =
        Keeps-some _ e (unregister-count poll (fd_of poll) w.thread s.paired.distinct_polls) in
      record {
        paired = Keeps-some _ e (unregister-Keeps fd_of poll w.thread s.paired);
        covered =
            λ x. omega (arith, s.covered x, moved x, ap (count x) same, count-append x _ w.leaving);
      }
  step-IsSafe {w} s (defer poll before after e) = record {
    paired = postpone-IsPaired poll s.paired;
    covered = λ x. omega (
      arith,
      s.covered x,
      ap (count x) e,
      count-append x before (poll ∷ after),
      count-append x before after,
      postpone-count x poll w.thread,
      ap (count x) (postponed_set poll w.thread),
    );
  }
  step-IsSafe {w} s (change ok poll new_mode e) =
      let (same, same') =
        Keeps-some _ e (update_mode-count ok poll (fd_of poll) new_mode w.thread) in
      record {
        paired = Keeps-some _ e (update_mode-Keeps fd_of ok poll new_mode w.thread s.paired);
        covered = λ x. omega (arith, s.covered x, ap (count x) same, ap (count x) same');
      }
  step-IsSafe {w} s (gather e) = record {
    paired = collect-IsPaired s.paired;
    covered = λ x. omega (arith, s.covered x, ap (count x) e, gathered_count x w.thread);
  }
  step-IsSafe {w} s (look poll polls e e') =
      let (m, same, same') = forget_fd-Same (fd_of poll) w.thread in
      record {
        paired = kept-IsPaired s.paired (m, same, same');
        covered = λ x. omega (arith, s.covered x, ap (count x) same, ap (count x) same');
      }
  step-IsSafe {w} s (let_go poll polls e e' released) =
      let less = Keeps-some _ released (release-Keeps poll w.refs) in
      record {
        paired = s.paired;
        covered = λ x. omega (arith, s.covered x, ap (count x) e, less x);
      }

  -- From a safe state, every order of what the functions do under their locks and between them, and of what others do
  -- with the references that they have, leads to a safe one: the fds in `mode_` are those of the Pollables in
  -- `poll_set_`, each once, and no Pollable that the thread watches or will release, or that somebody holds, has been
  -- freed.
  pub Reachable-IsSafe : {start w : World} → IsSafe start → Reachable start w → IsSafe w
  Reachable-IsSafe s begin = s
  Reachable-IsSafe s (next run step) = step-IsSafe (Reachable-IsSafe s run) step
