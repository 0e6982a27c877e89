-- ===== src/Rpc/Client.antt =====
-- Future and Client of rpc/client.h and rpc/client.cc: the requests, the table of those that wait for a
-- reply, and what is sent. `polls` has the calls of the PollMgr, latest first. A Future is known by its
-- xid: `pending_fu_` has the keys of the map, and `futures` what each xid's Future is.
pub mod Futures
pub mod Request
pub mod Closing
pub mod Replies
pub mod Connect
pub mod Pool
mod Runs
use simple_rpc.Prelude.{
  ℕ, ◌+◌, ◌==◌, true, false, Bool, List, [], ◌∷◌, Option, none, some, if◌then◌else◌,
}
use simple_rpc.Prelude.Int.{pos}
use simple_rpc.Prelude.Dict.{mem, erase, include}
use simple_rpc.Rpc.Buffer.Store.{Cmd, pure, ◌>>=◌}
use simple_rpc.Rpc.Marshal.{Marshal, empty}
use simple_rpc.Rpc.Marshal.Bookmark.{set_bookmark}
use simple_rpc.Rpc.Marshal.Send.{write_to_fd}
use simple_rpc.Rpc.Stream.{put_v64, put_word}
use simple_rpc.Rpc.Packet.{end_packet, mode_read, mode_read_write}
use simple_rpc.Rpc.Client.Futures.{
  Future, FutureTable, new_future, ref_copy, with_future, release_at, invalidate_all,
}

pub data Status : Type 0 where
  new connected closed : Status

abbrev pub is_connected : Status → Bool
is_connected connected = true
is_connected _ = false

pub data PollCall : Type 0 where
  update_mode : ℕ → PollCall
  remove : PollCall

pub record Client : Type 0 where
  pub in_ : Marshal
  pub out_ : Marshal
  pub bmark_ : Option (List (ℕ × ℕ))
  pub status_ : Status
  pub xid_counter_ : ℕ
  pub pending_fu_ : List ℕ
  pub futures : FutureTable
  pub polls : List PollCall

-- A failed `verify` on the table aborts as all others do.
abbrev pub on_futures : Option FutureTable → Cmd FutureTable
on_futures none = λ _. none
on_futures (some futures) = pure futures

unfoldable pub invalidate_pending_futures : Client → Cmd Client
invalidate_pending_futures c = do
  futures ← on_futures (invalidate_all c.pending_fu_ c.futures)
  pure (record c { pending_fu_ = []; futures = futures })

unfoldable pub close : Client → Cmd Client
close c = invalidate_pending_futures (record c {
  polls = if is_connected c.status_ then remove ∷ c.polls else c.polls;
  status_ = closed;
})

-- `begin_request` where the client gets closed in the meantime.
abbrev give_up : ℕ → Client → Cmd Client
give_up xid c =
    if mem xid c.pending_fu_
    then (do
      futures ← on_futures (release_at xid c.futures)
      pure (record c { futures = futures; pending_fu_ = erase xid c.pending_fu_ }))
    else pure c

-- The rest of `begin_request`, where the client is connected: `*this << v64(fu->xid_)`, `*this << rpc_id`.
unfoldable pub start_packet : ℕ → ℕ → Client → Cmd Client
start_packet rpc_id xid c = do
  (m, bm) ← set_bookmark 4 c.out_
  m' ← put_v64 (pos xid) m
  m'' ← put_word 4 rpc_id m'
  pure (record c {
    out_ = m'';
    bmark_ = some bm;
    futures = with_future xid (ref_copy (c.futures xid)) c.futures;
  })

-- `closes` says whether another thread calls `close` after the Future is in the table.
unfoldable pub begin_request : Bool → ℕ → Client → Cmd (Client × Option ℕ)
begin_request closes rpc_id c =
    if is_connected c.status_
    then (let xid = c.xid_counter_ in
        let c1 = record c {
          xid_counter_ = xid + 1;
          pending_fu_ = include xid c.pending_fu_;
          futures = with_future xid new_future c.futures;
        } in
        do
          c2 ← if closes then close c1 else pure c1
          if is_connected c2.status_
              then (do c3 ← start_packet rpc_id xid c2; pure (c3, some xid))
              else (do c3 ← give_up xid c2; pure (c3, none)))
    else pure (c, none)

unfoldable pub end_request : Client → Cmd Client
end_request c = do
  m ← end_packet c.bmark_ c.out_
  pure (record c { out_ = m; bmark_ = none; polls = update_mode mode_read_write ∷ c.polls })

unfoldable pub poll_mode : Client → Cmd ℕ
poll_mode c = do e ← empty c.out_; pure (if e then mode_read else mode_read_write)

unfoldable pub send_out : List ℕ → Client → Cmd (Client × List ℕ)
send_out answers c = do
  (m, sent) ← write_to_fd answers c.out_
  e ← empty m
  pure (record c { out_ = m; polls = if e then update_mode mode_read ∷ c.polls else c.polls }, sent)

unfoldable pub handle_write : List ℕ → Client → Cmd (Client × List ℕ)
handle_write answers c = if is_connected c.status_ then send_out answers c else pure (c, [])
