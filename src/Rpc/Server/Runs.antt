-- ===== src/Rpc/Server/Runs.antt =====
-- Concrete replies of a connection.
use simple_rpc.Prelude.{◌≡◌, refl, arith, [], ◌∷◌, ◌++◌, none}
use simple_rpc.Prelude.Int.{pos}
use simple_rpc.Prelude.Bytes.{le_bytes}
use simple_rpc.Base.SparseInt.Counted.{sparse, sparse32}
use simple_rpc.Rpc.Buffer.Returns.{Returns}
use simple_rpc.Rpc.Marshal.{empty_marshal}
use simple_rpc.Rpc.Marshal.Chain.{content}
use simple_rpc.Rpc.Packet.{packet, mode_read_write}
use simple_rpc.Rpc.Stream.Codec.Basic.{word}
use simple_rpc.Rpc.Server.{TcpConnection, connected}
use simple_rpc.Rpc.Server.Table.{Handlers}
use simple_rpc.Rpc.Server.Reply.{IsReady, reply, reply-packet}

abbrev quiet : TcpConnection
quiet = record {
  in_ = empty_marshal;
  out_ = empty_marshal;
  bmark_ = none;
  status_ = connected;
  modes = [];
}

quiet-IsReady : IsReady [] quiet
quiet-IsReady = record {
  valid = record { chain = tt; counted = refl };
  reset = refl;
  unmarked = refl;
}

reply-packet_example :
    Returns
      (λ c' st'.
        IsReady st' c'
        × (content st' c'.out_.chunks
            ≡ [] ++ packet ((sparse (pos 1) ++ sparse32 (pos 0)) ++ le_bytes 4 9))
        × (c'.modes ≡ mode_read_write ∷ []))
      (reply (word 4) (pos 1) (pos 0) 9 quiet [])
reply-packet_example =
    reply-packet (word 4) [] quiet (pos 1) (pos 0) 9 quiet-IsReady (omega arith, omega arith)

abbrev echo : Handlers
echo = (17, 1) ∷ []
