-- ===== src/Rpc/Server/Requests.antt =====
-- The requests that a connection of rpc/server.cc reads, over TCP and over UDP, and what becomes of them.
-- The calls of handlers are recorded in their order.
use simple_rpc.Prelude.{
  ℕ, zero, suc, ◌+◌, List, [], ◌∷◌, ◌++◌, length, none, some, if◌then◌else◌, ltb, ◌==◌,
}
use simple_rpc.Prelude.Int.{ℤ, pos, negsuc}
use simple_rpc.Prelude.Dict.{mem, lookup}
use simple_rpc.Rpc.Buffer.Store.{Cmd, pure, ◌>>=◌, ◌>>◌, assert}
use simple_rpc.Rpc.Marshal
use simple_rpc.Rpc.Marshal.{Marshal, empty_marshal, content_size}
use simple_rpc.Rpc.Marshal.Slice.{read_from_marshal}
use simple_rpc.Rpc.Marshal.Receive.{read_from_fd}
use simple_rpc.Rpc.Stream.{get_v64, get_word}
use simple_rpc.Rpc.Packet.{complete}
use simple_rpc.Rpc.Server.{TcpConnection, connected, closed, begin_reply, end_reply}
use simple_rpc.Rpc.Server.Table.{Handlers}

pub record Request : Type 0 where
  pub m : Marshal
  pub xid : ℤ

-- EINVAL and ENOENT
abbrev pub einval : ℤ
einval = pos 22

abbrev pub enoent : ℤ
enoent = pos 2

-- The size is consumed and the packet becomes an object of its own.
unfoldable pub take_packet : ℕ → Marshal → Cmd (Marshal × Marshal)
take_packet packet_size m = do
  (m', p) ← Marshal.read m 4
  assert (length p == 4)
  read_from_marshal 2 empty_marshal m' packet_size

-- The loop of `handle_read`, for TCP: the rest of `in_`, and `complete_requests`. A round takes four bytes
-- at least; out of fuel is a fault.
unfoldable pub requests : ℕ → Marshal → Cmd (Marshal × List Request)
requests zero m = λ _. none
requests (suc fuel) m = do
  size ← complete m
  elim size [
    | none ↦ pure (m, [])
    | some packet_size ↦ do
      (req, m') ← take_packet packet_size m
      (req', v_xid) ← get_v64 req
      (m'', later) ← requests fuel m'
      pure (m'', record { m = req'; xid = v_xid } ∷ later)
  ]

-- The same loop of `ServerUdpConnection::handle_read`.
unfoldable pub udp_requests : ℕ → Marshal → Cmd (Marshal × List Request)
udp_requests zero m = λ _. none
udp_requests (suc fuel) m = do
  size ← complete m
  elim size [
    | none ↦ pure (m, [])
    | some packet_size ↦ do
      (req, m') ← take_packet packet_size m
      (m'', later) ← udp_requests fuel m'
      pure (m'', record { m = req; xid = negsuc 0 } ∷ later)
  ]

-- A call of a handler: the rpc_id and what it is given.
pub record Call : Type 0 where
  pub func : ℕ
  pub req : Request

abbrev reject : Request → ℤ → TcpConnection → Cmd TcpConnection
reject req error_code c = do c' ← begin_reply req.xid error_code c; end_reply c'

-- `missing` is `rpc_id_missing_s`.
unfoldable pub answer :
    Handlers → Request → TcpConnection → List ℕ → Cmd (TcpConnection × List ℕ × List Call)
answer handlers_ req c missing = do
  total ← content_size req.m
  if ltb total 4 then (do c' ← reject req einval c; pure (c', missing, [])) else (do
    (m', rpc_id) ← get_word 4 req.m
    elim (lookup rpc_id handlers_) [
      | some func ↦ pure (c, missing, record { func = func; req = record req { m = m' } } ∷ [])
      | none ↦ do
        c' ← reject req enoent c
        pure (c', (if mem rpc_id missing then missing else rpc_id ∷ missing), [])
    ])

unfoldable pub answer_all :
    Handlers → List Request → TcpConnection → List ℕ → Cmd (TcpConnection × List ℕ × List Call)
answer_all handlers_ [] c missing = pure (c, missing, [])
answer_all handlers_ (req ∷ reqs) c missing = do
  (c', missing', calls) ← answer handlers_ req c missing
  (c'', missing'', later) ← answer_all handlers_ reqs c' missing'
  pure (c'', missing'', calls ++ later)

unfoldable pub read_requests :
    Handlers → List (List ℕ) → TcpConnection → List ℕ → Cmd (TcpConnection × List ℕ × List Call)
read_requests handlers_ answers c missing = do
  (m, came) ← read_from_fd answers c.in_
  if length came == 0 then pure (record c { in_ = m }, missing, []) else (do
    total ← content_size m
    (m', reqs) ← requests (total + 1) m
    answer_all handlers_ reqs (record c { in_ = m' }) missing)

unfoldable pub handle_read :
    Handlers → List (List ℕ) → TcpConnection → List ℕ → Cmd (TcpConnection × List ℕ × List Call)
handle_read handlers_ answers c missing = elim c.status_ [
  | closed ↦ pure (c, missing, [])
  | connected ↦ read_requests handlers_ answers c missing
]

-- A request that cannot be answered is dropped.
unfoldable pub udp_answer : Handlers → Request → Cmd (List Call)
udp_answer handlers_ req = do
  total ← content_size req.m
  if ltb total 4 then pure [] else (do
    (m', rpc_id) ← get_word 4 req.m
    elim (lookup rpc_id handlers_) [
      | some func ↦ pure (record { func = func; req = record req { m = m' } } ∷ [])
      | none ↦ pure []
    ])

unfoldable pub udp_answer_all : Handlers → List Request → Cmd (List Call)
udp_answer_all handlers_ [] = pure []
udp_answer_all handlers_ (req ∷ reqs) = do
  calls ← udp_answer handlers_ req
  later ← udp_answer_all handlers_ reqs
  pure (calls ++ later)

-- `handle_read` of a ServerUdpConnection, for the bytes that recvfrom gives.
unfoldable pub udp_handle_read : Handlers → List ℕ → Cmd (List Call)
udp_handle_read handlers_ datagram = do
  (m, _) ← Marshal.write empty_marshal datagram
  total ← content_size m
  (_, reqs) ← udp_requests (total + 1) m
  udp_answer_all handlers_ reqs
