-- ===== src/Rpc/Sockets.antt =====
-- `open_socket`, `tcp_connect`, `udp_connect` and `udp_bind` of rpc/utils.cc. An address is the list of its
-- bytes. What `getaddrinfo` gives for a host and a port is an argument, and each address it gives has the
-- answers of the kernel with it: the descriptor that `socket` makes, whether `setsockopt` succeeds, and
-- whether `connect` or `bind` does. `Fds` has the descriptors that are open, the latest first.
pub mod Opens
pub mod Closes
use simple_rpc.Prelude.{
  ℕ, suc, ◌+◌, ◌==◌, Bool, true, false, ◌&&◌, List, [], ◌∷◌, Option, none, some, if◌then◌else◌,
  take, drop,
}
use simple_rpc.Prelude.Fault.{◌>>=◌, ◌>>◌, verify}

abbrev pub Fds : Type 0
Fds = List ℕ

pub record Candidate : Type 0 where
  pub socket : Option ℕ
  pub set_up : Bool
  pub joined : Bool

-- No host stands for `nullptr`; no list for an answer other than 0.
abbrev pub Resolver : Type 0
Resolver = Option (List ℕ) → List ℕ → Option (List Candidate)

-- `::close`
abbrev pub close_fd : ℕ → Fds → Fds
close_fd fd [] = []
close_fd fd (f ∷ fds) = let rest = close_fd fd fds in if fd == f then fds else f ∷ rest

-- -1 is `none`, for which nothing is closed.
abbrev pub close_sock : Option ℕ → Fds → Fds
close_sock none fds = fds
close_sock (some fd) fds = close_fd fd fds

abbrev pub find : ℕ → List ℕ → Option ℕ
find c [] = none
find c (d ∷ s) =
    let rest = find c s in
    if c == d then some 0 else elim rest [ none ↦ none | some i ↦ some (suc i) ]

abbrev pub same_bytes : List ℕ → List ℕ → Bool
same_bytes [] [] = true
same_bytes (a ∷ s) (b ∷ t) = (a == b) && same_bytes s t
same_bytes _ _ = false

-- `(host == "0.0.0.0") ? nullptr : host.c_str()`
abbrev pub any_host : List ℕ
any_host = b'0' ∷ b'.' ∷ b'0' ∷ b'.' ∷ b'0' ∷ b'.' ∷ b'0' ∷ []

abbrev pub host_of : List ℕ → Option (List ℕ)
host_of host = if same_bytes host any_host then none else some host

-- The host and the port, and what `getaddrinfo` gives for them.
unfoldable pub resolve : Resolver → List ℕ → Option (List Candidate)
resolve getaddrinfo addr = elim (find b':' addr) [
  | none ↦ none
  | some idx ↦ getaddrinfo (host_of (take idx addr)) (drop (idx + 1) addr)
]

-- A filter may abort.
abbrev pub Filter : Type 0
Filter = Candidate → Option Bool

-- One round of the loop over the addresses: the descriptor, where it is kept.
unfoldable pub try_one : Filter → Candidate → Option ℕ → Fds → Option (Option ℕ × Fds)
try_one filter rp none fds = some (none, fds)
try_one filter rp (some sock) fds = do
  let opened = sock ∷ fds
  ok ← filter rp
  some (if ok then (some sock, opened) else (none, close_fd sock opened))

unfoldable pub try_each : Filter → List Candidate → Fds → Option (Option ℕ × Fds)
try_each filter [] fds = some (none, fds)
try_each filter (rp ∷ result) fds = do
  let rest = try_each filter result
  (got, fds') ← try_one filter rp rp.socket fds
  elim got [ none ↦ rest fds' | some sock ↦ some (some sock, fds') ]

unfoldable pub open_socket : Filter → Resolver → List ℕ → Fds → Option (Option ℕ × Fds)
open_socket filter getaddrinfo addr fds = elim (resolve getaddrinfo addr) [
  | none ↦ some (none, fds)
  | some result ↦ try_each filter result fds
]

unfoldable pub tcp_connect : Resolver → List ℕ → Fds → Option (Option ℕ × Fds)
tcp_connect = open_socket (λ rp. verify rp.set_up >> some rp.joined)

unfoldable pub udp_connect : Resolver → List ℕ → Fds → Option (Option ℕ × Fds)
udp_connect = open_socket (λ rp. some true)

unfoldable pub udp_bind : Resolver → List ℕ → Fds → Option (Option ℕ × Fds)
udp_bind = open_socket (λ rp. some rp.joined)
