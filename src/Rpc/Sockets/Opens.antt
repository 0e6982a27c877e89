-- ===== src/Rpc/Sockets/Opens.antt =====
-- What `open_socket` of rpc/utils.cc leaves open.
use simple_rpc.Prelude.{
  ℕ, ◌≡◌, refl, sym, subst, if_case, List, [], ◌∷◌, Option, none, some, All, arith,
}
use simple_rpc.Prelude.Fault.{Gives, gives, Gives-bind, verify, ◌>>◌}
use simple_rpc.Rpc.Sockets.{
  Candidate, Fds, Filter, Resolver, close_fd, try_one, try_each, open_socket, tcp_connect,
  udp_connect, udp_bind, resolve,
}

-- The descriptor that is returned is open besides those of before, and no other.
abbrev pub opened : Option ℕ → Fds → Fds
opened none fds = fds
opened (some fd) fds = fd ∷ fds

abbrev pub IsOpened : Fds → Option ℕ × Fds → Type 0
IsOpened fds (fd, fds') = fds' ≡ opened fd fds

abbrev pub Answers : Filter → Candidate → Type 0
Answers filter rp = Gives (λ _. Unit {0}) (filter rp)

pub close_fd-opened : (fd : ℕ) (fds : Fds) → close_fd fd (fd ∷ fds) ≡ fds
close_fd-opened fd fds = ground arith

try_one-IsOpened :
    (filter : Filter) (rp : Candidate) (socket : Option ℕ) (fds : Fds)
    → Answers filter rp
    → Gives (IsOpened fds) (try_one filter rp socket fds)
unfolding try_one
try_one-IsOpened filter rp none fds h = gives refl
try_one-IsOpened filter rp (some sock) fds h =
    Gives-bind h
      λ ok _. gives (if_case (IsOpened fds) ok (λ kept. refl) (λ dropped. close_fd-opened sock fds))

next_address :
    (filter : Filter) (result : List Candidate) (fds : Fds)
    → Gives (IsOpened fds) (try_each filter result fds)
    → (r : Option ℕ × Fds) → IsOpened fds r
    → Gives
        (IsOpened fds)
        (elim r.0 [ none ↦ try_each filter result r.1 | some sock ↦ some (some sock, r.1) ])
next_address filter result fds ih (none, fds') e =
    subst (λ f. Gives (IsOpened fds) (try_each filter result f)) (sym e) ih
next_address filter result fds ih (some sock, fds') e = gives e

try_each-IsOpened :
    (filter : Filter) (result : List Candidate) (fds : Fds)
    → All (Answers filter) result
    → Gives (IsOpened fds) (try_each filter result fds)
unfolding try_each
try_each-IsOpened filter [] fds h = gives refl
try_each-IsOpened filter (rp ∷ result) fds (h, hs) =
    Gives-bind (try_one-IsOpened filter rp rp.socket fds h)
      (next_address filter result fds (try_each-IsOpened filter result fds hs))

abbrev pub AllAnswer : Filter → Option (List Candidate) → Type 0
AllAnswer filter none = Unit {0}
AllAnswer filter (some result) = All (Answers filter) result

resolved :
    (filter : Filter) (result : Option (List Candidate)) (fds : Fds)
    → AllAnswer filter result
    → Gives
        (IsOpened fds)
        (elim result [ none ↦ some (none, fds) | some rps ↦ try_each filter rps fds ])
resolved filter none fds h = gives refl
resolved filter (some rps) fds h = try_each-IsOpened filter rps fds h

pub open_socket-IsOpened :
    (filter : Filter) (getaddrinfo : Resolver) (addr : List ℕ) (fds : Fds)
    → AllAnswer filter (resolve getaddrinfo addr)
    → Gives (IsOpened fds) (open_socket filter getaddrinfo addr fds)
unfolding open_socket
open_socket-IsOpened filter getaddrinfo addr fds h =
    resolved filter (resolve getaddrinfo addr) fds h

-- What is asked of the addresses of a TCP connection: `setsockopt` succeeds.
abbrev pub SetUp : Resolver → List ℕ → Type 0
SetUp getaddrinfo addr =
    AllAnswer (λ rp. verify rp.set_up >> some rp.joined) (resolve getaddrinfo addr)

pub tcp_connect-IsOpened :
    (getaddrinfo : Resolver) (addr : List ℕ) (fds : Fds)
    → SetUp getaddrinfo addr
    → Gives (IsOpened fds) (tcp_connect getaddrinfo addr fds)
unfolding tcp_connect
tcp_connect-IsOpened getaddrinfo addr fds h = open_socket-IsOpened _ getaddrinfo addr fds h

all_answer :
    (filter : Filter) (result : Option (List Candidate))
    → ((rp : Candidate) → Answers filter rp)
    → AllAnswer filter result
all_answer filter none h = tt
all_answer filter (some []) h = tt
all_answer filter (some (rp ∷ result)) h = (h rp, all_answer filter (some result) h)

pub udp_connect-IsOpened :
    (getaddrinfo : Resolver) (addr : List ℕ) (fds : Fds)
    → Gives (IsOpened fds) (udp_connect getaddrinfo addr fds)
unfolding udp_connect
udp_connect-IsOpened getaddrinfo addr fds =
    open_socket-IsOpened _ getaddrinfo addr fds
      (all_answer _ (resolve getaddrinfo addr) (λ rp. gives tt))

pub udp_bind-IsOpened :
    (getaddrinfo : Resolver) (addr : List ℕ) (fds : Fds)
    → Gives (IsOpened fds) (udp_bind getaddrinfo addr fds)
unfolding udp_bind
udp_bind-IsOpened getaddrinfo addr fds =
    open_socket-IsOpened _ getaddrinfo addr fds
      (all_answer _ (resolve getaddrinfo addr) (λ rp. gives tt))
