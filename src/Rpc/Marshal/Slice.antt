-- ===== src/Rpc/Marshal/Slice.antt =====
-- `Marshal::read_from_marshal` of rpc/marshal.cc: it moves bytes from one Marshal to another, and shares
-- the raw_bytes instead of copying where it can. The two objects are different ones.
pub mod Shared
pub mod Fetch
pub mod Share
pub mod Join
pub mod Open
pub mod Frames
pub mod Move
use simple_rpc.Prelude.{
  ℕ, zero, suc, ◌+◌, ◌-◌, ◌%◌, ◌^◌, ◌≡◌, min, Bool, true, false, List, [], ◌∷◌, ◌++◌, length, ltb,
  leb, ◌==◌, if◌then◌else◌, none,
}
use simple_rpc.Rpc.Buffer
use simple_rpc.Rpc.Buffer.{Chunk}
use simple_rpc.Rpc.Buffer.Store.{Cmd, pure, ◌>>=◌, ◌>>◌, assert, size}
use simple_rpc.Rpc.Marshal.{Marshal, content_size, drop_read_head, read, write}

-- A shared copy of the chunk, cut to `left` bytes if it has more.
unfoldable pub cut_copy : Chunk → ℕ → Cmd Chunk
cut_copy c left = do
  chnk ← Buffer.shared_copy c
  sz ← Buffer.content_size chnk
  if ltb left sz then pure (record chnk { write_idx = chnk.write_idx - (sz - left) }) else pure chnk

-- The loop that copies pointers, with `left = n - n_fetch`: the chunks that it appends, and what is left
-- of the source. A null `m.head_` and being out of fuel are faults.
unfoldable pub fetch_loop : ℕ → List Chunk → ℕ → Cmd (List Chunk × List Chunk)
fetch_loop zero src left = λ _. none
fetch_loop (suc fuel) [] left = if left == 0 then pure ([], []) else λ _. none
fetch_loop (suc fuel) (c ∷ cs) left = if left == 0 then pure ([], c ∷ cs) else (do
  chnk ← cut_copy c left
  cnt ← Buffer.content_size chnk
  assert (ltb 0 cnt)
  (c', dropped) ← Buffer.discard c cnt
  assert (dropped == cnt)
  src' ← drop_read_head c' cs
  (copies, src'') ← fetch_loop fuel src' (left - cnt)
  pure (chnk ∷ copies, src''))

-- `(head_ == nullptr && tail_ == nullptr) || tail_->fully_written()`
unfoldable pub tail_full : List Chunk → Cmd Bool
tail_full [] = pure true
tail_full (c ∷ []) = Buffer.fully_written c
tail_full (_ ∷ d ∷ cs) = tail_full (d ∷ cs)

-- `tail_->data->size - tail_->write_idx`
unfoldable pub tail_room : List Chunk → Cmd ℕ
tail_room [] = λ _. none
tail_room (c ∷ []) = do sz ← size c.data_; pure (sz - c.write_idx)
tail_room (_ ∷ d ∷ cs) = tail_room (d ∷ cs)

unfoldable pub share : Marshal → Marshal → ℕ → Cmd (Marshal × Marshal)
share dst m n = do
  (copies, src) ← fetch_loop (length m.chunks + 1) m.chunks n
  assert (leb n m.content_size_)
  let dst' = record dst {
    chunks = dst.chunks ++ copies;
    write_cnt = (dst.write_cnt + n) % 2 ^ 32;
    content_size_ = dst.content_size_ + n;
  }
  content_size dst'
  pure (dst', record m { chunks = src; content_size_ = m.content_size_ - n })

-- The call of itself for what does not fit in the last chunk shares; one more is enough. The result is
-- the two objects afterwards; the number that the code returns is `n`.
unfoldable pub read_from_marshal : ℕ → Marshal → Marshal → ℕ → Cmd (Marshal × Marshal)
read_from_marshal zero dst m n = λ _. none
read_from_marshal (suc fuel) dst m n = do
  total ← content_size m
  assert (leb n total)
  full ← tail_full dst.chunks
  if full then share dst m n else (do
    room ← tail_room dst.chunks
    let copy_n = min room n
    (m', buf) ← read m copy_n
    assert (length buf == copy_n)
    (dst', n_write) ← write dst buf
    assert (n_write == length buf)
    let leftover = n - copy_n
    if ltb 0 leftover
        then (do
          full' ← tail_full dst'.chunks
          assert full'
          (dst'', m'') ← read_from_marshal fuel dst' m' leftover
          content_size dst''
          pure (dst'', m''))
        else (do content_size dst'; pure (dst', m')))
