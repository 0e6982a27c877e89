-- ===== src/Rpc/Client/Pool/Runs.antt =====
-- A pool of two connections to an address.
use simple_rpc.Prelude.{ℕ, ◌+◌, ◌≡◌, refl, arith, true, List, [], ◌∷◌, some}
use simple_rpc.Prelude.Fault.{Gives, gives}
use simple_rpc.Rpc.Client.{connected}
use simple_rpc.Rpc.Client.Connect.{connect, connect_udp}
use simple_rpc.Rpc.Sockets.{
  Resolver, resolve, try_one, try_each, open_socket, tcp_connect, udp_connect,
}
use simple_rpc.Rpc.Sockets.Opens.{SetUp}
use simple_rpc.Rpc.Client.Pool.{Network, ClientPool, open_clients, get_client}
use simple_rpc.Rpc.Client.Pool.Given.{Given, get_client-Given}

-- "h:1"
abbrev address : List ℕ
address = b'h' ∷ b':' ∷ b'1' ∷ []

abbrev resolver : ℕ → Resolver
resolver fd host port = some (record { socket = some fd; set_up = true; joined = true } ∷ [])

abbrev net : Network
net = record { tcp = λ i. resolver (10 + i); udp = λ i. resolver (20 + i) }

abbrev pool : ClientPool
pool = record { cache_ = []; parallel_connections_ = 2 }

tcp-SetUp : (i : ℕ) → SetUp (net.tcp i) address
unfolding resolve
tcp-SetUp i = (gives tt, tt)

get_client-Given_example : Gives (Given net 7 address pool []) (get_client net 7 address pool [])
get_client-Given_example =
    get_client-Given net 7 address pool [] (record { parallel = omega arith; filled = tt })
      tcp-SetUp

-- The second one is drawn.
drawn :
    Gives
      (λ (p, cl, fds).
        (cl ≡ some (record { sock_ = some 11; udp_sock_ = some 21; status_ = connected }))
        × (fds ≡ 21 ∷ 11 ∷ 20 ∷ 10 ∷ []))
      (get_client net 7 address pool [])
unfolding get_client open_clients connect connect_udp tcp_connect udp_connect open_socket resolve
    try_each try_one
drawn = gives (refl, refl)
