-- ===== src/Rpc/Server/Life/Runs.antt =====
-- Runs of a Server that is started and stopped.
use simple_rpc.Prelude.{ℕ, ◌≡◌, refl, true, false, List, [], ◌∷◌, none, some, arith}
use simple_rpc.Rpc.Sockets.{Candidate, Resolver, resolve, try_one, try_each, open_socket, udp_bind}
use simple_rpc.Rpc.Server.Life.{
  Server, Round, new, running, never, in_accept, try_bind, bind_each, start_udp, start, round, shut,
  server_loop,
}
use simple_rpc.Rpc.Server.Life.Loop.{Closed, server_loop-Closed}

-- "h:1"
abbrev address : List ℕ
address = b'h' ∷ b':' ∷ b'1' ∷ []

abbrev candidate_on : ℕ → Candidate
candidate_on fd = record { socket = some fd; set_up = true; joined = true }

abbrev refused : Candidate
refused = record { socket = some 6; set_up = true; joined = false }

abbrev tcp_result : List Candidate
tcp_result = refused ∷ candidate_on 7 ∷ []

abbrev tcp : Resolver
tcp host port = some tcp_result

abbrev udp : Resolver
udp host port = some (candidate_on 8 ∷ [])

abbrev udp_busy : Resolver
udp_busy host port = some (refused ∷ [])

abbrev idle : Server
idle = record { server_sock_ = none; udp_ = true; udp_sock_ = none; status_ = new; sconns_ = [] }

abbrev started : Server
started = record {
  server_sock_ = some 7;
  udp_ = true;
  udp_sock_ = some 8;
  status_ = running;
  sconns_ = [];
}

starts : start tcp udp true address idle (3 ∷ []) ≡ some (started, 8 ∷ 7 ∷ 3 ∷ [], 0)
unfolding start start_udp bind_each try_bind resolve udp_bind open_socket try_each try_one
starts = refl

-- The UDP port is in use.
does_not_start : start tcp udp_busy true address idle (3 ∷ []) ≡ some (idle, 3 ∷ [], 22)
unfolding start start_udp bind_each try_bind resolve udp_bind open_socket try_each try_one
does_not_start = refl

-- A client, a wait in vain, and a client that comes too late.
abbrev rounds : List Round
rounds =
    record { ready = true; accepted = some 9; stop = never }
    ∷ record { ready = false; accepted = none; stop = never }
    ∷ record { ready = true; accepted = some 10; stop = in_accept }
    ∷ []

server_loop-Closed_example : Closed (3 ∷ []) (server_loop rounds started (8 ∷ 7 ∷ 3 ∷ []))
server_loop-Closed_example =
    server_loop-Closed (3 ∷ []) rounds started (8 ∷ 7 ∷ 3 ∷ [])
      (record { only = λ e. cc; two = λ fd e e'. ground arith })
      (((λ e. cc), (λ e. cc)), (tt, (((λ e. cc), (λ e. cc)), tt)))
      ([], omega arith, (λ up. refl), (tt, tt), refl)

-- The late one is not closed.
late : (server_loop rounds started (8 ∷ 7 ∷ 3 ∷ [])).1 ≡ 10 ∷ 9 ∷ 3 ∷ []
unfolding server_loop round shut
late = refl
