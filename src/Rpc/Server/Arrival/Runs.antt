-- ===== src/Rpc/Server/Arrival/Runs.antt =====
-- A concrete packet of a client, as the server reads it.
use simple_rpc.Prelude.{none, [], ◌∷◌}
use simple_rpc.Rpc.Buffer.Store.{Store}
use simple_rpc.Rpc.Buffer.Returns.{Returns}
use simple_rpc.Rpc.Marshal.{Marshal, empty_marshal}
use simple_rpc.Rpc.Server.{TcpConnection, connected}
use simple_rpc.Rpc.Server.Table.{Handlers}

-- Request 1 for the function 17 with the argument 9, and the first byte of another packet.
abbrev store : Store
store =
    record { bytes = 9 ∷ 0 ∷ 0 ∷ 0 ∷ 1 ∷ 17 ∷ 0 ∷ 0 ∷ 0 ∷ 9 ∷ 0 ∷ 0 ∷ 0 ∷ 5 ∷ 0 ∷ []; refcnt = 1 }
    ∷ []

abbrev input : Marshal
input = record {
  chunks = record { data_ = 0; read_idx = 0; write_idx = 14 } ∷ [];
  write_cnt = 14;
  content_size_ = 14;
}

abbrev handlers : Handlers
handlers = (17, 3) ∷ []

abbrev quiet : TcpConnection
quiet = record {
  in_ = empty_marshal;
  out_ = empty_marshal;
  bmark_ = none;
  status_ = connected;
  modes = [];
}
