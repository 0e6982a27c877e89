-- ===== src/Rpc/Server/Life.antt =====
-- The life of a Server of rpc/server.cc: `start`, the thread that accepts connections, and the destructor.
-- -1 is `none`. What `getaddrinfo`, `socket`, `setsockopt`, `bind`, `listen`, `fcntl`, `select` and `accept`
-- answer are arguments, and `fds` has the open descriptors. A connection is known by its descriptor, and the
-- calls of the PollMgr are left out.
pub mod Opens
pub mod Loop
mod Runs
use simple_rpc.Prelude.{
  ℕ, ◌==◌, Bool, true, false, not, ◌||◌, List, [], ◌∷◌, Option, none, some, if◌then◌else◌,
}
use simple_rpc.Prelude.Fault.{◌>>=◌, ◌>>◌, verify}
use simple_rpc.Rpc.Sockets.{Candidate, Fds, Resolver, close_fd, close_sock, resolve, udp_bind}

pub data ServerStatus : Type 0 where
  new running stopping stopped : ServerStatus

abbrev pub is_running : ServerStatus → Bool
is_running running = true
is_running _ = false

pub record Server : Type 0 where
  pub server_sock_ : Option ℕ
  pub udp_ : Bool
  pub udp_sock_ : Option ℕ
  pub status_ : ServerStatus
  pub sconns_ : List ℕ

abbrev pub einval : ℕ
einval = 22

-- One address of the list: the socket, if it is bound.
unfoldable pub try_bind : Candidate → Option ℕ → Fds → Option (Option ℕ × Fds)
try_bind rp none fds = some (none, fds)
try_bind rp (some sock) fds = do
  let opened = sock ∷ fds
  verify rp.set_up
  some (if rp.joined then (some sock, opened) else (none, close_fd sock opened))

unfoldable pub bind_each : List Candidate → Fds → Option (Option ℕ × Fds)
bind_each [] fds = some (none, fds)
bind_each (rp ∷ result) fds = do
  let rest = bind_each result
  (got, fds') ← try_bind rp rp.socket fds
  elim got [ none ↦ rest fds' | some sock ↦ some (some sock, fds') ]

-- The UDP socket, if there is to be one. `s` has its TCP socket.
unfoldable pub start_udp : Resolver → List ℕ → Server → Fds → Option (Server × Fds × ℕ)
start_udp getaddrinfo_udp bind_addr s fds =
    if s.udp_
    then (do
      (udp_sock, fds') ← udp_bind getaddrinfo_udp bind_addr fds
      let s' : Server = record s { udp_sock_ = udp_sock }
      some (elim udp_sock [
        | none ↦ (record s' { server_sock_ = none }, close_sock s.server_sock_ fds', einval)
        | some _ ↦ (record s' { status_ = running }, fds', 0)
      ]))
    else some (record s { status_ = running }, fds, 0)

-- `prepared` says whether `listen` and `set_nonblocking` succeed.
unfoldable pub start :
    Resolver → Resolver → Bool → List ℕ → Server → Fds → Option (Server × Fds × ℕ)
start getaddrinfo getaddrinfo_udp prepared bind_addr s fds = elim (resolve getaddrinfo bind_addr) [
  | none ↦ some (s, fds, einval)
  | some result ↦ do
    (sock, fds') ← bind_each result fds
    let s' : Server = record s { server_sock_ = sock }
    elim sock [
      | none ↦ some (s', fds', einval)
      | some _ ↦ verify prepared >> start_udp getaddrinfo_udp bind_addr s' fds'
    ]
]

-- Where the destructor sets STOPPING in a round: not at all, during `select`, or during `accept`.
pub data Stop : Type 0 where
  never in_select in_accept : Stop

-- A round of the loop: whether `select` answers other than 0, and what `accept` gives. `set_nonblocking`
-- succeeds, as its `verify` asks.
pub record Round : Type 0 where
  pub ready : Bool
  pub accepted : Option ℕ
  pub stop : Stop

-- A client comes, while the server still runs.
abbrev pub accept_one : Option ℕ → Server → Fds → Server × Fds
accept_one none s fds = (s, fds)
accept_one (some fd) s fds =
    (if is_running s.status_ then record s { sconns_ = fd ∷ s.sconns_ } else s, fd ∷ fds)

abbrev pub stopping_if : Bool → Server → Server
stopping_if b s = if b then record s { status_ = stopping } else s

abbrev pub is_in_select : Stop → Bool
is_in_select in_select = true
is_in_select _ = false

abbrev pub is_in_accept : Stop → Bool
is_in_accept in_accept = true
is_in_accept _ = false

unfoldable pub round : Round → Server → Fds → Server × Fds
round r s fds =
    let s' = stopping_if (is_in_select r.stop) s in
    if not r.ready || not (is_running s'.status_)
    then (s', fds)
    else accept_one r.accepted (stopping_if (is_in_accept r.stop) s') fds

-- The end of `server_loop`.
unfoldable pub shut : Server → Fds → Server × Fds
shut s fds =
    let fds' = close_sock s.server_sock_ fds in
    (
      record s {
        server_sock_ = none;
        udp_sock_ = if s.udp_ then none else s.udp_sock_;
        status_ = stopped;
      },
      if s.udp_ then close_sock s.udp_sock_ fds' else fds',
    )

-- The destructor stops the loop when the rounds are over, if it has not before.
unfoldable pub server_loop : List Round → Server → Fds → Server × Fds
server_loop [] s fds = shut s fds
server_loop (r ∷ rounds) s fds =
    let (s', fds') = round r s fds in
    let rest = server_loop rounds s' fds' in if is_running s.status_ then rest else shut s fds
