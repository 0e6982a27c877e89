-- ===== src/Rpc/Server/Life/Opens.antt =====
-- The descriptors of a Server of rpc/server.cc, from `start` to the end of its loop.
use simple_rpc.Prelude.{ℕ, ◌≡◌, ◌⊎◌, true, List, ◌∷◌, Option, none, some, All}
use simple_rpc.Rpc.Sockets.{Candidate, Fds}
use simple_rpc.Rpc.Sockets.Opens.{opened}
use simple_rpc.Rpc.Server.Life.{Server, running, einval}

-- Running on the sockets that have been opened, or not started, and no socket more is open.
abbrev pub Starts : Server → Fds → Server × Fds × ℕ → Type 0
Starts s fds (s', fds', ret) =
    ((tcp : ℕ) × (ret ≡ 0)
      × (s'.status_ ≡ running)
      × (s'.server_sock_ ≡ some tcp)
      × (s'.sconns_ ≡ s.sconns_)
      × ((s.udp_ ≡ true) → (udp : ℕ) × (s'.udp_sock_ ≡ some udp))
      × (fds' ≡ opened s'.udp_sock_ (tcp ∷ fds)))
    ⊎ ((ret ≡ einval) × (s'.status_ ≡ s.status_) × (s'.server_sock_ ≡ none) × (fds' ≡ fds))

abbrev pub AllSetUp : Option (List Candidate) → Type 0
AllSetUp none = Unit {0}
AllSetUp (some result) = All (λ rp. rp.set_up ≡ true) result
