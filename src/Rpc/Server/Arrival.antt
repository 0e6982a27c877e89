-- ===== src/Rpc/Server/Arrival.antt =====
-- What `requests` and `answer` of a connection of rpc/server.cc make of a packet that a Client of rpc/client.cc wrote.
mod Runs
use simple_rpc.Prelude.{
  ℕ, suc, ◌+◌, ◌<◌, ◌≡◌, refl, ap, subst, ◌∙◌, arith, List, [], ◌∷◌, ◌++◌, length, take, drop, none,
  length-append, append_assoc, take-append_exact, drop-append_exact, ==_iff, take_all,
  if◌then◌else◌, ◌==◌,
}
use simple_rpc.Prelude.Int.{ℤ, pos}
use simple_rpc.Prelude.Bytes.{le_bytes, length-le_bytes}
use simple_rpc.Rpc.Buffer.Store.{Store, Cmd, pure, ◌>>=◌, ◌>>◌, assert}
use simple_rpc.Rpc.Buffer.Returns
use simple_rpc.Rpc.Buffer.Returns.{Returns}
use simple_rpc.Rpc.Marshal.{Marshal, empty_marshal}
use simple_rpc.Rpc.Marshal.Chain.{content, IsValid}
use simple_rpc.Rpc.Marshal.Read.{read-Takes}
use simple_rpc.Rpc.Marshal.Slice.Move.{read_from_marshal-Moves}
use simple_rpc.Rpc.Stream.{get_v64, get_word}
use simple_rpc.Rpc.Stream.Codec.{Codec}
use simple_rpc.Rpc.Packet.{packet, complete}
use simple_rpc.Rpc.Server.Requests.{Request, Call, take_packet, requests}
use simple_rpc.Rpc.Server.{TcpConnection}

pub take_packet-Moves :
    (st : Store) (m : Marshal) (p rest : List ℕ)
    → IsValid st m
    → 0 < length p
    → content st m.chunks ≡ packet p ++ rest
    → Returns
        (λ (req, m') st'.
          IsValid st' req
          × IsValid st' m'
          × (content st' req.chunks ≡ p)
          × (content st' m'.chunks ≡ rest))
        (take_packet (length p) m st)
unfolding take_packet
take_packet-Moves st m p rest v some_bytes e =
    let e' : content st m.chunks ≡ le_bytes 4 (length p) ++ (p ++ rest) =
      e ∙ append_assoc (le_bytes 4 (length p)) p rest in
    Returns.bind (read-Takes m 4 v) λ (m1, q) st1 (v1, taken, left, _, _).
      let size : length q ≡ 4 =
        ap length (
          taken
          ∙ ap (take 4) e'
          ∙ take-append_exact 4 (le_bytes 4 (length p)) (p ++ rest) (length-le_bytes 4 (length p)))
        ∙ length-le_bytes 4 (length p) in
      let behind : content st1 m1.chunks ≡ p ++ rest =
        left
        ∙ ap (drop 4) e'
        ∙ drop-append_exact 4 (le_bytes 4 (length p)) (p ++ rest) (length-le_bytes 4 (length p)) in
      rw ((==_iff (length q) 4).1 size) (
        Returns.mono
          (read_from_marshal-Moves empty_marshal m1 (length p)
            (record { chain = tt; counted = refl }) v1 tt some_bytes
            (omega (arith, ap length behind, length-append p rest)))
          λ (req, m2) st2 w. (
            w.dst_IsValid,
            w.src_IsValid,
            w.arrived ∙ ap (take (length p)) behind ∙ take-append_exact (length p) p rest refl,
            w.left ∙ ap (drop (length p)) behind ∙ drop-append_exact (length p) p rest refl,
          ))

-- What `requests` does with a first packet: it goes on with the rest of the input, and the request that it puts in front
-- has the xid, and an object with the rpc_id and the arguments.
abbrev pub First : ℤ → List ℕ → ℕ → Marshal → Store → Type 0
First xid args fuel m st =
    (req : Marshal) × (m' : Marshal) × (st' : Store) × (requests (suc fuel) m st
      ≡ (requests fuel m' >>= λ r. pure (r.0, record { m = req; xid = xid } ∷ r.1)) st')
    × IsValid st' req
    × (content st' req.chunks ≡ args)

-- What `answer` does with a request that has a handler: the handler is called with the request, and reads the
-- arguments as they were written.
abbrev pub Called :
    {A : Type 0}
    → Codec A
    → ℤ
    → A
    → ℕ
    → TcpConnection
    → List ℕ
    → TcpConnection × List ℕ × List Call
    → Store
    → Type 0
Called codec xid a func c missing (c', missing', calls) st =
    (args : Marshal) × (c' ≡ c)
    × (missing' ≡ missing)
    × (calls ≡ record { func = func; req = record { m = args; xid = xid } } ∷ [])
    × Returns (λ (m', b) st'. b ≡ a) (codec.get args st)
