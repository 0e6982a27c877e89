-- ===== src/Rpc/Client/Replies.antt =====
-- `Client::handle_read` of rpc/client.cc. The replies that go to Futures are told with their xids; a
-- `reply_` is empty before.
use simple_rpc.Prelude.{
  ℕ, zero, suc, ◌+◌, ◌-◌, ◌%◌, ◌^◌, List, [], ◌∷◌, ◌++◌, length, Option, none, some, if◌then◌else◌,
  ◌==◌,
}
use simple_rpc.Prelude.Int.{ℤ, pos, negsuc}
use simple_rpc.Prelude.Dict.{mem, erase}
use simple_rpc.Base.SparseInt.{val_size}
use simple_rpc.Rpc.Buffer.Store.{Cmd, pure, ◌>>=◌, ◌>>◌, assert}
use simple_rpc.Rpc.Marshal
use simple_rpc.Rpc.Marshal.{Marshal, empty_marshal, content_size}
use simple_rpc.Rpc.Marshal.Slice.{read_from_marshal}
use simple_rpc.Rpc.Marshal.Receive.{read_from_fd}
use simple_rpc.Rpc.Stream.{get_v64, get_v32}
use simple_rpc.Rpc.Packet.{complete}
use simple_rpc.Rpc.Client.{Client, is_connected, on_futures}
use simple_rpc.Rpc.Client.Futures.{notify_ready, with_future, release_at}

-- `pending_fu_.find(v_reply_xid.get())`
abbrev find : ℤ → List ℕ → Option ℕ
find (pos xid) pending = if mem xid pending then some xid else none
find (negsuc _) pending = none

-- `packet_size - v_reply_xid.val_size() - v_error_code.val_size()`, in size_t.
abbrev pub body_size : ℕ → ℤ → ℤ → ℕ
body_size packet_size xid error_code =
    (packet_size + 2 ^ 64 - val_size xid + 2 ^ 64 - val_size error_code) % 2 ^ 64

-- Without a Future the bytes behind the two integers stay where they are.
unfoldable pub deliver : ℕ → ℤ → ℤ → Client → Cmd (Client × List (ℕ × Marshal))
deliver packet_size v_reply_xid v_error_code c = elim (find v_reply_xid c.pending_fu_) [
  | none ↦ pure (c, [])
  | some xid ↦ do
    let fu = record (c.futures xid) { error_code_ = v_error_code }
    (reply_, m) ←
        read_from_marshal 2 empty_marshal c.in_ (body_size packet_size v_reply_xid v_error_code)
    futures ← on_futures (release_at xid (with_future xid (notify_ready fu) c.futures))
    pure (
      record c { in_ = m; pending_fu_ = erase xid c.pending_fu_; futures = futures },
      (xid, reply_) ∷ [],
    )
]

-- Out of fuel is a fault; a round takes four bytes at least.
unfoldable pub replies : ℕ → Client → Cmd (Client × List (ℕ × Marshal))
replies zero c = λ _. none
replies (suc fuel) c = do
  size ← complete c.in_
  elim size [
    | none ↦ pure (c, [])
    | some packet_size ↦ do
      (m, p) ← Marshal.read c.in_ 4
      assert (length p == 4)
      (m', v_reply_xid) ← get_v64 m
      (m'', v_error_code) ← get_v32 m'
      (c', delivered) ← deliver packet_size v_reply_xid v_error_code (record c { in_ = m'' })
      (c'', later) ← replies fuel c'
      pure (c'', delivered ++ later)
  ]

unfoldable pub handle_read : List (List ℕ) → Client → Cmd (Client × List (ℕ × Marshal))
handle_read answers c =
    if is_connected c.status_
    then (do
      (m, came) ← read_from_fd answers c.in_
      if length came == 0
          then pure (record c { in_ = m }, [])
          else (do total ← content_size m; replies (total + 1) (record c { in_ = m })))
    else pure (c, [])
