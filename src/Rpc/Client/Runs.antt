-- ===== src/Rpc/Client/Runs.antt =====
-- Concrete requests of a client, and a concrete wait.
use simple_rpc.Prelude.{
  Bool, false, inl, ltb, if◌then◌else◌, ℕ, ◌≡◌, refl, arith, true, List, [], ◌∷◌, ◌++◌, none, some,
  if◌then◌else◌,
}
use simple_rpc.Prelude.Int.{ℤ, pos}
use simple_rpc.Prelude.Bytes.{le_bytes}
use simple_rpc.Prelude.Dict.{mem}
use simple_rpc.Base.SparseInt.Counted.{sparse}
use simple_rpc.Rpc.Buffer.Returns.{Returns}
use simple_rpc.Rpc.Marshal.{empty_marshal}
use simple_rpc.Rpc.Marshal.Chain.{content}
use simple_rpc.Rpc.Packet.{packet, mode_read_write}
use simple_rpc.Rpc.Stream.Codec.Basic.{word}
use simple_rpc.Prelude.Fault.{Gives, gives}
use simple_rpc.Rpc.Sockets.{
  Resolver, resolve, try_one, try_each, open_socket, tcp_connect, udp_connect,
}
use simple_rpc.Rpc.Sockets.Opens.{SetUp}
use simple_rpc.Rpc.Client.Connect.{Link, Connects, enotconn, connect_udp, connect, connect-Connects}
use simple_rpc.Rpc.Client.{Client, new, connected, closed, update_mode, close}
use simple_rpc.Rpc.Client.Futures.{new_future, ref_copy, Round, timed_wait, wait_loop, etimedout}
use simple_rpc.Rpc.Client.Futures.Waited.{over, aborted}
use simple_rpc.Base.Deadline.{deadline}
use simple_rpc.Rpc.Client.Futures.Table.{invalidated}
use simple_rpc.Rpc.Client.Futures.Wait.{timed_wait-ends}
use simple_rpc.Rpc.Client.Request.{IsReady, IsTable, request, request-packet}
use simple_rpc.Rpc.Client.Closing.{close-Returns}

-- The request 0 waits.
abbrev waiting : Client
waiting = record {
  in_ = empty_marshal;
  out_ = empty_marshal;
  bmark_ = none;
  status_ = connected;
  xid_counter_ = 1;
  pending_fu_ = 0 ∷ [];
  futures = λ x. ref_copy new_future;
  polls = [];
}

waiting-IsReady : IsReady [] waiting
waiting-IsReady = record {
  valid = record { chain = tt; counted = refl };
  reset = refl;
  unmarked = refl;
}

waiting-IsTable : IsTable waiting
waiting-IsTable = record {
  distinct = (refl, tt);
  given = λ x h. ground arith;
  held = λ x h. omega arith;
}

request-packet_example :
    Returns
      (λ (c', fu) st'.
        IsReady st' c'
        × IsTable c'
        × (fu ≡ some 1)
        × (content st' c'.out_.chunks
            ≡ [] ++ packet ((sparse (pos 1) ++ le_bytes 4 17) ++ le_bytes 4 9))
        × (c'.pending_fu_ ≡ 1 ∷ 0 ∷ [])
        × (c'.futures 1 ≡ ref_copy new_future)
        × (c'.polls ≡ update_mode mode_read_write ∷ []))
      (request (word 4) 17 9 waiting [])
request-packet_example =
    request-packet (word 4) [] waiting 17 9 waiting-IsReady waiting-IsTable refl
      (omega arith, omega arith)

close-Returns_example :
    Returns
      (λ c' st'.
        (st' ≡ [])
        × (c'.status_ ≡ closed)
        × (c'.pending_fu_ ≡ [])
        × (c'.xid_counter_ ≡ 1)
        × ((x : ℕ)
            → c'.futures x
              ≡ (if mem x (0 ∷ []) then invalidated (waiting.futures x) else waiting.futures x)))
      (close waiting [])
close-Returns_example = close-Returns [] waiting waiting-IsTable

-- A round at half a second past 1000, and what the kernel answers to any deadline.
abbrev at_half : Bool → ℕ → Round
at_half notified ret = record {
  tv_sec = 1000;
  tv_usec = 500000;
  notified = notified;
  ret = λ abstime. pos ret;
}

-- The wait of two seconds ends by a timeout and a reply at once.
timed_wait-ends_example :
    timed_wait 2 0 (at_half false 0 ∷ at_half true 110 ∷ []) new_future
    ≡ over (record new_future {
      ready_ = true;
      timed_out_ = true;
      error_code_ = etimedout;
      callbacks = 2;
    })
timed_wait-ends_example =
    timed_wait-ends 2 0 (at_half false 0 ∷ []) (at_half true 110) [] new_future refl refl
      ((refl, refl), tt) (inl refl)

-- A kernel that refuses a deadline with a whole second of nanoseconds, and takes others.
abbrev refuses : ℕ × ℕ → ℤ
refuses (sec, nsec) = if ltb nsec 1000000000 then pos 110 else pos 22

-- A wait of two seconds and a half, at half a second, fails its check.
whole_second_aborts :
    timed_wait 2 500000000
      (record { tv_sec = 1000; tv_usec = 500000; notified = false; ret = refuses } ∷ [])
      new_future
    ≡ aborted
unfolding timed_wait wait_loop deadline
whole_second_aborts = refl

-- "h:1"
abbrev address : List ℕ
address = b'h' ∷ b':' ∷ b'1' ∷ []

abbrev tcp : Resolver
tcp host port = some (record { socket = some 7; set_up = true; joined = true } ∷ [])

abbrev udp : Resolver
udp host port = some (record { socket = some 8; set_up = true; joined = true } ∷ [])

abbrev no_udp : Resolver
no_udp host port = some (record { socket = none; set_up = true; joined = true } ∷ [])

abbrev idle : Link
idle = record { sock_ = none; udp_sock_ = none; status_ = new }

tcp-SetUp : SetUp tcp address
unfolding resolve
tcp-SetUp = (gives tt, tt)

connect-Connects_example :
    Gives (Connects idle (3 ∷ [])) (connect tcp udp true address idle (3 ∷ []))
connect-Connects_example = connect-Connects tcp udp address idle (3 ∷ []) refl refl tcp-SetUp

abbrev linked : Link
linked = record { sock_ = some 7; udp_sock_ = some 8; status_ = connected }

connects : connect tcp udp true address idle (3 ∷ []) ≡ some (linked, 8 ∷ 7 ∷ 3 ∷ [], 0)
unfolding connect connect_udp tcp_connect udp_connect open_socket resolve try_each try_one
connects = refl

-- Without a UDP socket the TCP socket is closed again.
does_not_connect :
    connect tcp no_udp true address idle (3 ∷ [])
    ≡ some (record { sock_ = some 7; udp_sock_ = none; status_ = new }, 3 ∷ [], enotconn)
unfolding connect connect_udp tcp_connect udp_connect open_socket resolve try_each try_one
does_not_connect = refl
