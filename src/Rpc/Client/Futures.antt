-- ===== src/Rpc/Client/Futures.antt =====
-- Future of rpc/client.h and rpc/client.cc, and the table of them that a Client has. `callbacks` counts the calls of `attr_.callback`, which there
-- is. A round of a wait is what happens in pthread_cond_timedwait: whether `notify_ready` runs, and its
-- answer, which can be ETIMEDOUT although `notify_ready` has run before the mutex was free again. The whole seconds
-- and the nanoseconds of `sec` are arguments.
pub mod Wait
pub mod Table
use simple_rpc.Prelude.{
  ℕ, ◌+◌, ◌-◌, true, false, Bool, ◌||◌, ltb, ◌==◌, List, [], ◌∷◌, Option, none, some, if◌then◌else◌,
}
use simple_rpc.Prelude.Int.{ℤ, pos, negsuc}
use simple_rpc.Base.Deadline.{deadline}
use simple_rpc.Prelude.Fault.{◌>>=◌, ◌>>◌, verify}

pub record Future : Type 0 where
  pub error_code_ : ℤ
  pub ready_ : Bool
  pub timed_out_ : Bool
  pub callbacks : ℕ
  pub refcnt_ : ℕ

abbrev pub new_future : Future
new_future = record {
  error_code_ = pos 0;
  ready_ = false;
  timed_out_ = false;
  callbacks = 0;
  refcnt_ = 1;
}

-- ENOTCONN and ETIMEDOUT
abbrev pub enotconn : ℤ
enotconn = pos 107

abbrev pub etimedout : ℤ
etimedout = pos 110

abbrev pub ref_copy : Future → Future
ref_copy fu = record fu { refcnt_ = fu.refcnt_ + 1 }

-- `verify(r >= 0)` fails at the count 0.
abbrev pub release : Future → Option Future
release fu = do verify (ltb 0 fu.refcnt_); some (record fu { refcnt_ = fu.refcnt_ - 1 })

unfoldable pub notify_ready : Future → Future
notify_ready fu =
    let r = if fu.timed_out_ then fu.ready_ else true in
    record fu { ready_ = r; callbacks = if r then fu.callbacks + 1 else fu.callbacks }

-- EINVAL is 22, and 0 that the wait was woken. `ret` is the answer of pthread_cond_timedwait to a deadline; the time
-- of the day is what gettimeofday has given before.
pub record Round : Type 0 where
  pub tv_sec : ℕ
  pub tv_usec : ℕ
  pub notified : Bool
  pub ret : ℕ × ℕ → ℤ

-- A wait that is not over when the rounds are, one whose `verify` has failed, and one that is over.
pub data Waited : Type 0 where
  waiting aborted : Waited
  over : Future → Waited

-- What `ret` does to the Future, with the rounds that follow.
abbrev pub answered : ℤ → Future → (Future → Waited) → Waited
answered (pos ret) fu next =
    if ret == 110
    then next (record fu { timed_out_ = true })
    else if ret == 0
    then next fu
    else aborted
answered (negsuc ret) fu next = aborted

-- `while (!ready_ && !timed_out_)`
unfoldable pub wait_loop : ℕ → ℕ → List Round → Future → Waited
wait_loop full_sec nsec [] fu = if fu.ready_ || fu.timed_out_ then over fu else waiting
wait_loop full_sec nsec (r ∷ rs) fu =
    let abstime = deadline r.tv_sec r.tv_usec full_sec nsec in
    let fu' = if r.notified then notify_ready fu else fu in
    let rest = answered (r.ret abstime) fu' (wait_loop full_sec nsec rs) in
    if fu.ready_ || fu.timed_out_ then over fu else rest

abbrev pub report : Future → Future
report fu =
    if fu.timed_out_
    then record fu { error_code_ = etimedout; callbacks = fu.callbacks + 1 }
    else fu

unfoldable pub timed_wait : ℕ → ℕ → List Round → Future → Waited
timed_wait full_sec nsec rs fu = elim (wait_loop full_sec nsec rs fu) [
  | over fu' ↦ over (report fu')
  | waiting ↦ waiting
  | aborted ↦ aborted
]

-- A Future is known by its xid.
abbrev pub FutureTable : Type 0
FutureTable = ℕ → Future

abbrev pub with_future : ℕ → Future → FutureTable → FutureTable
with_future xid fu futures x = if x == xid then fu else futures x

abbrev pub release_at : ℕ → FutureTable → Option FutureTable
release_at xid futures = do fu ← release (futures xid); some (with_future xid fu futures)

-- The loop of `invalidate_pending_futures`, over the Futures that were in the table.
unfoldable pub invalidate_all : List ℕ → FutureTable → Option FutureTable
invalidate_all [] futures = some futures
invalidate_all (xid ∷ xids) futures = do
  let fu = record (futures xid) { error_code_ = enotconn }
  futures' ← release_at xid (with_future xid (notify_ready fu) futures)
  invalidate_all xids futures'
