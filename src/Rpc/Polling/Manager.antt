-- ===== src/Rpc/Polling/Manager.antt =====
-- The threads of a PollMgr of rpc/polling.cc.
use simple_rpc.Prelude.{
  ℕ, ◌%◌, ◌<◌, true, List, [], ◌∷◌, some, zero, suc, get_elem?, set, length, All, arith,
}
use simple_rpc.Prelude.Fault.{Gives, gives, Gives-bind}
use simple_rpc.Rpc.Polling.{
  PollThread, Refcnt, ThreadOp, hash_fd, thread_op, mgr_remove, mgr_update_mode,
}
use simple_rpc.Rpc.Polling.Invariant.{IsPaired, IsAlone, remove_poll-IsPaired, update_mode-IsPaired}

in_bounds :
    (P : PollThread → Type 0) (ts : List PollThread) (i : ℕ)
    → i < length ts
    → All P ts
    → Gives P (get_elem? ts i)
in_bounds P [] i h ps = absurd (omega arith)
in_bounds P (t ∷ ts) zero h (p, ps) = gives p
in_bounds P (t ∷ ts) (suc i) h (p, ps) = in_bounds P ts i (omega arith) ps

All-set :
    (P : PollThread → Type 0) (ts : List PollThread) (i : ℕ) {t' : PollThread}
    → All P ts
    → P t'
    → All P (set ts i t')
All-set P [] i ps p' = tt
All-set P (t ∷ ts) zero (p, ps) p' = (p', ps)
All-set P (t ∷ ts) (suc i) (p, ps) p' = (p, All-set P ts i ps p')

thread_op-All :
    (P : PollThread → Type 0) (op : ℕ → ThreadOp) (fd : ℕ) (ts : List PollThread) (rc : Refcnt)
    → 0 < length ts
    → All (λ t. P t × Gives (λ (t', rc'). P t') (op fd t rc)) ts
    → All P ts
    → Gives (λ (ts', rc'). All P ts') (thread_op op (some fd) ts rc)
unfolding thread_op
thread_op-All P op fd ts rc threads steps ps =
    let tid = hash_fd fd % length ts in
    Gives-bind (in_bounds _ ts tid (omega arith) steps)
      λ t (p, step). Gives-bind step λ (t', rc') p'. gives (All-set P ts tid ps p')

each :
    {P Q : PollThread → Type 0} (ts : List PollThread)
    → ((t : PollThread) → P t → Q t)
    → All P ts
    → All Q ts
each [] f ps = tt
each (t ∷ ts) f (p, ps) = (f t p, each ts f ps)

-- `PollMgr::update_mode` with one thread or more, where epoll_ctl succeeds: it picks a thread within bounds,
-- whatever the fd, no check fails, and the sets of all threads fit together as before.
pub mgr_update_mode-All :
    (fd_of : ℕ → ℕ) (poll new_mode : ℕ) (ts : List PollThread) (rc : Refcnt)
    → 0 < length ts
    → All (IsPaired fd_of) ts
    → Gives
        (λ (ts', rc'). All (IsPaired fd_of) ts')
        (mgr_update_mode true poll new_mode (some (fd_of poll)) ts rc)
unfolding mgr_update_mode
mgr_update_mode-All fd_of poll new_mode ts rc threads ps =
    thread_op-All (IsPaired fd_of) _ (fd_of poll) ts rc threads
      (each ts
        (λ t p. (p, Gives-bind (update_mode-IsPaired fd_of poll new_mode t p) λ t' p'. gives p'))
        ps)
      ps

-- The same for `PollMgr::remove`.
pub mgr_remove-All :
    (fd_of : ℕ → ℕ) (poll : ℕ) (ts : List PollThread) (rc : Refcnt)
    → 0 < length ts
    → All (λ t. IsPaired fd_of t × IsAlone fd_of poll t) ts
    → Gives (λ (ts', rc'). All (IsPaired fd_of) ts') (mgr_remove poll (some (fd_of poll)) ts rc)
unfolding mgr_remove
mgr_remove-All fd_of poll ts rc threads ps =
    thread_op-All (IsPaired fd_of) _ (fd_of poll) ts rc threads
      (each ts
        (λ t (p, alone).
          (p, Gives-bind (remove_poll-IsPaired fd_of poll t p alone) λ t' p'. gives p'))
        ps)
      (each ts (λ t (p, alone). p) ps)
