-- ===== src/Rpc/Client/Pool.antt =====
-- ClientPool of rpc/client.h and rpc/client.cc, with its clients as far as Client/Connect has them. `draw` is what
-- Rand gives, and what the network answers to each `connect` is an argument.
pub mod Opens
pub mod Given
mod Runs
use simple_rpc.Prelude.{
  ℕ, zero, suc, ◌+◌, ◌%◌, ◌<◌, ◌≡◌, ◌==◌, refl, sym, ap, subst, ◌∙◌, ◌⊎◌, inl, inr, arith, if_case,
  Bool, true, false, ◌&&◌, List, [], ◌∷◌, Option, none, some, if◌then◌else◌, ltb, lt→ltb, get_elem?,
  length, All,
}
use simple_rpc.Prelude.Fault.{◌>>=◌, ◌>>◌, verify, Gives, gives, Gives-bind, verify-Gives}
use simple_rpc.Rpc.Client.{new, connected}
use simple_rpc.Rpc.Client.Connect.{Link, connect, close_link, Connects, connect-Connects, enotconn}
use simple_rpc.Rpc.Sockets.{Fds, Resolver, same_bytes}
use simple_rpc.Rpc.Sockets.Opens.{SetUp}

pub record Network : Type 0 where
  pub tcp : ℕ → Resolver
  pub udp : ℕ → Resolver

pub record ClientPool : Type 0 where
  pub cache_ : List (List ℕ × List Link)
  pub parallel_connections_ : ℕ

abbrev pub new_link : Link
new_link = record { sock_ = none; udp_sock_ = none; status_ = new }

-- The constructor.
abbrev pub new_pool : ℕ → Option ClientPool
new_pool parallel_connections =
    verify (ltb 0 parallel_connections)
    >> some (record { cache_ = []; parallel_connections_ = parallel_connections })

abbrev pub find_addr : List ℕ → List (List ℕ × List Link) → Option (List Link)
find_addr addr [] = none
find_addr addr ((a, clients) ∷ cache) =
    if same_bytes addr a then some clients else find_addr addr cache

-- The clients from number `i` on, up to the first that does not connect, which is made too.
unfoldable pub open_clients : Network → List ℕ → ℕ → ℕ → Fds → Option (Bool × List Link × Fds)
open_clients net addr i zero fds = some (true, [], fds)
open_clients net addr i (suc n) fds = do
  (c, fds', ret) ← connect (net.tcp i) (net.udp i) true addr new_link fds
  let rest = (do
    (ok, clients, fds'') ← open_clients net addr (i + 1) n fds'
    some (ok, c ∷ clients, fds''))
  if ret == 0 then rest else some (false, c ∷ [], fds')

-- `close_and_release`, from the last to the first.
abbrev pub close_back : List Link → Fds → Fds
close_back [] fds = fds
close_back (c ∷ clients) fds = (close_link c (close_back clients fds)).1

abbrev pub choose : ℕ → List Link → ℕ → Option Link
choose draw clients n = verify (ltb 0 n) >> get_elem? clients (draw % n)

-- The end of `get_client` where the address is not in the cache.
abbrev pub keep_or_close :
    ℕ → List ℕ → ClientPool → Bool × List Link × Fds → Option (ClientPool × Option Link × Fds)
keep_or_close draw addr p (true, clients, fds) = do
  cl ← choose draw clients p.parallel_connections_
  some (record p { cache_ = (addr, clients) ∷ p.cache_ }, some cl, fds)
keep_or_close draw addr p (false, clients, fds) = some (p, none, close_back clients fds)

unfoldable pub get_client :
    Network → ℕ → List ℕ → ClientPool → Fds → Option (ClientPool × Option Link × Fds)
get_client net draw addr p fds = elim (find_addr addr p.cache_) [
  | some clients ↦ do cl ← choose draw clients p.parallel_connections_; some (p, some cl, fds)
  | none ↦ open_clients net addr 0 p.parallel_connections_ fds >>= keep_or_close draw addr p
]
