-- ===== src/Rpc/Client/Closing.antt =====
-- What becomes of the Futures of a Client of rpc/client.cc when it is closed.
use simple_rpc.Prelude.{ℕ, ◌≡◌, refl, [], Option, if◌then◌else◌}
use simple_rpc.Prelude.Dict.{mem}
use simple_rpc.Prelude.Fault.{Gives, gives}
use simple_rpc.Rpc.Buffer.Store.{Store}
use simple_rpc.Rpc.Buffer.Returns
use simple_rpc.Rpc.Buffer.Returns.{Returns, returns}
use simple_rpc.Rpc.Client.{Client, closed, on_futures, close, invalidate_pending_futures}
use simple_rpc.Rpc.Client.Futures.{FutureTable}
use simple_rpc.Rpc.Client.Futures.Table.{invalidated, invalidate_all-Gives}
use simple_rpc.Rpc.Client.Request.{IsTable}

on_futures-Returns :
    {P : FutureTable → Type 0} {o : Option FutureTable} (st : Store)
    → Gives P o
    → Returns (λ futures st'. (st' ≡ st) × P futures) (on_futures o st)
on_futures-Returns st (gives p) = returns (refl, p)

-- `close` on a client whose table is in order: no check fails, the table is empty, and each Future that was in
-- it has the error ENOTCONN, is ready unless it has timed out, has its callback run once where it is ready, and
-- loses one reference. No other Future changes.
pub close-Returns :
    (st : Store) (c : Client)
    → IsTable c
    → Returns
        (λ c' st'.
          (st' ≡ st)
          × (c'.status_ ≡ closed)
          × (c'.pending_fu_ ≡ [])
          × (c'.xid_counter_ ≡ c.xid_counter_)
          × ((x : ℕ)
              → c'.futures x
                ≡ (if mem x c.pending_fu_ then invalidated (c.futures x) else c.futures x)))
        (close c st)
unfolding close invalidate_pending_futures
close-Returns st c t =
    Returns.bind
      (on_futures-Returns st (invalidate_all-Gives c.pending_fu_ c.futures t.distinct t.held))
      λ futures st' (same, each). returns (same, refl, refl, refl, each)
