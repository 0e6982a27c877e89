-- ===== src/Rpc/Server.antt =====
-- ServerTcpConnection of rpc/server.cc: the replies, and what is sent. `modes` has the arguments of
-- PollMgr::update_mode, latest first; the answers of the kernel to `write` are an argument. `out_l_` is held
-- around each function, from `begin_reply` to `end_reply` around both.
pub mod Reply
pub mod Requests
pub mod Arrival
pub mod Table
pub mod Life
mod Runs
use simple_rpc.Prelude.{ℕ, true, false, Bool, List, [], ◌∷◌, Option, none, some, if◌then◌else◌}
use simple_rpc.Prelude.Int.{ℤ}
use simple_rpc.Rpc.Buffer.Store.{Cmd, pure, ◌>>=◌}
use simple_rpc.Rpc.Marshal.{Marshal, empty}
use simple_rpc.Rpc.Marshal.Bookmark.{set_bookmark}
use simple_rpc.Rpc.Marshal.Send.{write_to_fd}
use simple_rpc.Rpc.Stream.{put_v64, put_v32}
use simple_rpc.Rpc.Packet.{end_packet, mode_read, mode_read_write}

pub data ConnStatus : Type 0 where
  connected closed : ConnStatus

pub record TcpConnection : Type 0 where
  pub in_ : Marshal
  pub out_ : Marshal
  pub bmark_ : Option (List (ℕ × ℕ))
  pub status_ : ConnStatus
  pub modes : List ℕ

unfoldable pub begin_reply : ℤ → ℤ → TcpConnection → Cmd TcpConnection
begin_reply xid error_code c = do
  (m, bm) ← set_bookmark 4 c.out_
  m' ← put_v64 xid m
  m'' ← put_v32 error_code m'
  pure (record c { out_ = m''; bmark_ = some bm })

unfoldable pub end_reply : TcpConnection → Cmd TcpConnection
end_reply c = do
  m ← end_packet c.bmark_ c.out_
  pure (record c { out_ = m; bmark_ = none; modes = mode_read_write ∷ c.modes })

unfoldable pub poll_mode : TcpConnection → Cmd ℕ
poll_mode c = do e ← empty c.out_; pure (if e then mode_read else mode_read_write)

-- The rest of `handle_write`, where the connection is not closed.
unfoldable pub send_out : List ℕ → TcpConnection → Cmd (TcpConnection × List ℕ)
send_out answers c = do
  (m, sent) ← write_to_fd answers c.out_
  e ← empty m
  pure (record c { out_ = m; modes = if e then mode_read ∷ c.modes else c.modes }, sent)

unfoldable pub handle_write : List ℕ → TcpConnection → Cmd (TcpConnection × List ℕ)
handle_write answers c = elim c.status_ [ closed ↦ pure (c, []) | connected ↦ send_out answers c ]
