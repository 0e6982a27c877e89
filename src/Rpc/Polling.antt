-- ===== src/Rpc/Polling.antt =====
-- PollMgr and PollMgr::PollThread of rpc/polling.h and rpc/polling.cc, as compiled for epoll. A Pollable
-- is a number, and its `fd()` is an argument; the answers of epoll_ctl are an argument too, and the calls
-- of it are recorded, latest first. What a function does under one lock is a function of its own, and so is what it does under none: `add` is
-- `ref_copy`, `enroll` and `watch`, `remove` is `unregister` and `postpone`, and the end of a round is `collect` and, for
-- each Pollable, `forget_fd` and `release`.
pub mod Invariant
pub mod Refs
pub mod Steps
pub mod Manager
mod Runs
use simple_rpc.Prelude.{
  ℕ, zero, suc, ◌+◌, ◌-◌, ◌*◌, ◌/◌, ◌%◌, ◌^◌, Bool, true, false, not, List, [], ◌∷◌, Option, none,
  some, ltb, ◌==◌, if◌then◌else◌, get_elem?, set, length, ◌++◌,
}
use Prim.Native.Nat.{bit_and, bit_xor}
use simple_rpc.Prelude.Fault.{◌>>=◌, ◌>>◌, verify}
use simple_rpc.Prelude.Dict.{mem, erase, include, lookup, keys, remove, replace}

-- EPOLLIN and EPOLLOUT of `ev.events`; EPOLLET and EPOLLRDHUP are always there.
pub record Interest : Type 0 where
  pub input : Bool
  pub output : Bool

-- The calls of epoll_ctl: EPOLL_CTL_ADD, EPOLL_CTL_MOD and EPOLL_CTL_DEL, for an fd.
pub data Ctl : Type 0 where
  ctl_add : ℕ → Interest → Ctl
  ctl_mod : ℕ → Interest → Ctl
  ctl_del : ℕ → Ctl

-- `mode & Pollable::READ` and `mode & Pollable::WRITE`.
abbrev pub wants_read : ℕ → Bool
wants_read mode = mode % 2 == 1

abbrev pub wants_write : ℕ → Bool
wants_write mode = mode / 2 % 2 == 1

pub record PollThread : Type 0 where
  pub mode_ : List (ℕ × ℕ)
  pub poll_set_ : List ℕ
  pub pending_remove_ : List ℕ
  pub calls : List Ctl

-- The reference counts of all Pollables.
abbrev pub Refcnt : Type 0
Refcnt = ℕ → ℕ

abbrev pub ref_copy : ℕ → Refcnt → Refcnt
ref_copy x rc y = if y == x then rc y + 1 else rc y

-- `verify(r >= 0)` fails at the count 0.
abbrev pub release : ℕ → Refcnt → Option Refcnt
release x rc = do verify (ltb 0 (rc x)); some (λ y. if y == x then rc y - 1 else rc y)

-- `add`, under `l_`.
unfoldable pub enroll : ℕ → ℕ → ℕ → PollThread → Option PollThread
enroll poll fd mode t = do
  verify (not (mem poll t.poll_set_))
  verify (not (mem fd (keys t.mode_)))
  some (record t { poll_set_ = poll ∷ t.poll_set_; mode_ = (fd, mode) ∷ t.mode_ })

-- `add`, behind `l_`.
unfoldable pub watch : Bool → ℕ → ℕ → PollThread → Option PollThread
watch ok fd mode t = do
  verify ok
  some (record t {
    calls = ctl_add fd (record { input = true; output = wants_write mode }) ∷ t.calls;
  })

unfoldable pub add_poll : Bool → ℕ → ℕ → ℕ → PollThread → Refcnt → Option (PollThread × Refcnt)
add_poll ok poll fd mode t rc = do
  let rc' = ref_copy poll rc
  t' ← enroll poll fd mode t
  t'' ← watch ok fd mode t'
  some (t'', rc')

-- `remove`, under `l_`: `found`.
unfoldable pub unregister : ℕ → ℕ → PollThread → Option (Bool × PollThread)
unregister poll fd t =
    if mem poll t.poll_set_
    then (do
      verify (mem fd (keys t.mode_))
      some (true, record t { poll_set_ = erase poll t.poll_set_; mode_ = remove fd t.mode_ }))
    else (do verify (not (mem fd (keys t.mode_))); some (false, t))

-- `remove`, under `pending_remove_l_`.
unfoldable pub postpone : ℕ → PollThread → PollThread
postpone poll t = record t { pending_remove_ = include poll t.pending_remove_ }

unfoldable pub remove_poll : ℕ → ℕ → PollThread → Option PollThread
remove_poll poll fd t = do
  (found, t') ← unregister poll fd t
  some (if found then postpone poll t' else t')

abbrev update_found : Bool → ℕ → ℕ → PollThread → Option ℕ → Option PollThread
update_found ok fd new_mode t none = none
update_found ok fd new_mode t (some old_mode) =
    let t' = record t { mode_ = replace fd new_mode t.mode_ } in
    if new_mode == old_mode then some t' else (do
      verify ok
      some (record t' {
        calls =
            ctl_mod fd (record { input = wants_read new_mode; output = wants_write new_mode })
            ∷ t.calls;
      }))

unfoldable pub update_mode : Bool → ℕ → ℕ → ℕ → PollThread → Option PollThread
update_mode ok poll fd new_mode t =
    if mem poll t.poll_set_ then update_found ok fd new_mode t (lookup fd t.mode_) else some t

-- The end of a round of `poll_loop`, under `pending_remove_l_`: `remove_poll`.
unfoldable pub collect : PollThread → List ℕ × PollThread
collect t = (t.pending_remove_, record t { pending_remove_ = [] })

-- For one Pollable, under `l_`: its fd is deleted unless it is registered again.
unfoldable pub forget_fd : ℕ → PollThread → PollThread
forget_fd fd t = if mem fd (keys t.mode_) then t else record t { calls = ctl_del fd ∷ t.calls }

unfoldable pub sweep : (ℕ → ℕ) → List ℕ → PollThread → Refcnt → Option (PollThread × Refcnt)
sweep fd_of [] t rc = some (t, rc)
sweep fd_of (poll ∷ polls) t rc = do
  let t' = forget_fd (fd_of poll) t
  rc' ← release poll rc
  sweep fd_of polls t' rc'

unfoldable pub remove_pending : (ℕ → ℕ) → PollThread → Refcnt → Option (PollThread × Refcnt)
remove_pending fd_of t rc = let (polls, t') = collect t in sweep fd_of polls t' rc

-- What epoll_wait reports of a Pollable, and the handlers that are called, in their order.
pub record Event : Type 0 where
  pub poll : ℕ
  pub readable : Bool
  pub writable : Bool
  pub failed : Bool

pub data Handler : Type 0 where
  handle_read handle_write handle_error : ℕ → Handler

abbrev handlers : Event → List Handler
handlers ev =
    (if ev.readable then handle_read ev.poll ∷ [] else [])
    ++ ((if ev.writable then handle_write ev.poll ∷ [] else [])
        ++ (if ev.failed then handle_error ev.poll ∷ [] else []))

-- The loop over the `nev` events of a round.
unfoldable pub dispatch : List Event → List Handler
dispatch [] = []
dispatch (ev ∷ evs) = handlers ev ++ dispatch evs

-- MurmurHash3's mix of the 32 bits of `h0`.
unfoldable pub hash_fd : ℕ → ℕ
hash_fd h0 =
    let h1 = bit_xor h0 (h0 / 2 ^ 16) in
    let h2 = h1 * 0x85ebca6b % 2 ^ 32 in
    let h3 = bit_xor h2 (h2 / 2 ^ 13) in
    let h4 = h3 * 0xc2b2ae35 % 2 ^ 32 in bit_xor h4 (h4 / 2 ^ 16)

-- What an operation on a thread makes of it and of the reference counts.
abbrev pub ThreadOp : Type 0
ThreadOp = PollThread → Refcnt → Option (PollThread × Refcnt)

-- `poll_threads_[tid]`: an index out of bounds is a fault. A negative fd is `none`.
unfoldable pub thread_op :
    (ℕ → ThreadOp) → Option ℕ → List PollThread → Refcnt → Option (List PollThread × Refcnt)
thread_op op none threads rc = some (threads, rc)
thread_op op (some fd) threads rc = do
  let tid = hash_fd fd % length threads
  t ← get_elem? threads tid
  (t', rc') ← op fd t rc
  some (set threads tid t', rc')

abbrev with_refs : (PollThread → Option PollThread) → ThreadOp
with_refs op t rc = do t' ← op t; some (t', rc)

unfoldable pub mgr_add :
    Bool → ℕ → ℕ → Option ℕ → List PollThread → Refcnt → Option (List PollThread × Refcnt)
mgr_add ok poll mode = thread_op (λ fd. add_poll ok poll fd mode)

unfoldable pub mgr_remove :
    ℕ → Option ℕ → List PollThread → Refcnt → Option (List PollThread × Refcnt)
mgr_remove poll = thread_op (λ fd. with_refs (remove_poll poll fd))

unfoldable pub mgr_update_mode :
    Bool → ℕ → ℕ → Option ℕ → List PollThread → Refcnt → Option (List PollThread × Refcnt)
mgr_update_mode ok poll new_mode = thread_op (λ fd. with_refs (update_mode ok poll fd new_mode))
