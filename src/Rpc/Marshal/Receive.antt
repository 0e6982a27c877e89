-- ===== src/Rpc/Marshal/Receive.antt =====
-- `Marshal::read_from_fd` of rpc/marshal.cc and `chunk::read_from_fd` of rpc/buffer.cc. The answers of
-- `::read` are an argument: each is the bytes that are there, of which the call takes as many as it has
-- room for; an answer that is not positive has no bytes, and the end of the list stands for one.
pub mod Arrives
mod Runs
use simple_rpc.Prelude.{
  ℕ, ◌+◌, ◌-◌, ◌%◌, ◌^◌, ◌==◌, List, [], ◌∷◌, ◌++◌, length, min, take, ltb, leb, if◌then◌else◌,
}
use simple_rpc.Rpc.Buffer
use simple_rpc.Rpc.Buffer.{Chunk}
use simple_rpc.Rpc.Buffer.Store.{Cmd, pure, ◌>>=◌, ◌>>◌, assert, store_at, size}
use simple_rpc.Rpc.Marshal.{Marshal, content_size, check_head}

-- The chunk afterwards, and the bytes that came.
unfoldable pub chunk_read_from_fd : List ℕ → Chunk → Cmd (Chunk × List ℕ)
chunk_read_from_fd there c = do
  Buffer.check c
  sz ← size c.data_
  let p = if ltb c.write_idx sz then take (min (length there) (sz - c.write_idx)) there else []
  store_at c.data_ c.write_idx p
  let c' = record c { write_idx = c.write_idx + length p }
  Buffer.check c'
  pure (c', p)

-- One round, with its three cases at the last chunk.
unfoldable pub receive_tail : List ℕ → List Chunk → Cmd (List Chunk × List ℕ)
receive_tail there [] = do
  c ← Buffer.new_chunk
  (c', p) ← chunk_read_from_fd there c
  pure (c' ∷ [], p)
receive_tail there (c ∷ []) = do
  full ← Buffer.fully_written c
  if full
      then (do d ← Buffer.new_chunk; (d', p) ← chunk_read_from_fd there d; pure (c ∷ d' ∷ [], p))
      else (do (c', p) ← chunk_read_from_fd there c; pure (c' ∷ [], p))
receive_tail there (c ∷ d ∷ cs) = do (rest, p) ← receive_tail there (d ∷ cs); pure (c ∷ rest, p)

unfoldable pub receive_loop : List (List ℕ) → List Chunk → Cmd (List Chunk × List ℕ)
receive_loop [] cs = receive_tail [] cs
receive_loop (there ∷ later) cs = do
  (cs', p) ← receive_tail there cs
  if length p == 0
      then pure (cs', [])
      else (do (cs'', q) ← receive_loop later cs'; pure (cs'', p ++ q))

-- The object afterwards, and the bytes that came; their number is what the code returns.
unfoldable pub read_from_fd : List (List ℕ) → Marshal → Cmd (Marshal × List ℕ)
read_from_fd answers m = do
  check_head m
  (cs, p) ← receive_loop answers m.chunks
  let m1 : Marshal = record {
    chunks = cs;
    write_cnt = (m.write_cnt + length p) % 2 ^ 32;
    content_size_ = m.content_size_ + length p;
  }
  content_size m1
  check_head m1
  pure (m1, p)
