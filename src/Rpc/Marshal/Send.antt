-- ===== src/Rpc/Marshal/Send.antt =====
-- `Marshal::write_to_fd` of rpc/marshal.cc and `chunk::write_to_fd` of rpc/buffer.cc. The answers of
-- `::write` are an argument: of what is offered the kernel takes at most the next number of a list; 0
-- stands for every answer that is not positive, and so does the end of the list.
pub mod Round
pub mod Sends
use simple_rpc.Prelude.{
  ℕ, zero, suc, ◌+◌, ◌-◌, ◌<◌, ◌≤◌, ◌≡◌, ◌≢◌, ◌⊎◌, min, refl, sym, ap, ap₂, subst, ◌∙◌, arith,
  Bool-cases, inl, inr, true, false, Bool, leb, ltb, ==_iff, ◌==◌, le→leb, if◌then◌else◌, none,
  some, List, [], ◌∷◌, ◌++◌, length, take, drop, All, length-take, length-drop, take-split,
  take-take, drop-drop, append_assoc, append-nil, not, nil_of_length, length-append,
  take-append-drop,
}
use simple_rpc.Rpc.Buffer
use simple_rpc.Rpc.Buffer.{Chunk}
use simple_rpc.Rpc.Buffer.Store.{Store, Cmd, pure, ◌>>=◌, ◌>>◌, assert, size, memory}
use simple_rpc.Rpc.Buffer.Returns
use simple_rpc.Rpc.Buffer.Returns.{Returns, returns}
use simple_rpc.Rpc.Buffer.Laws.{
  Holds, chunk_bytes, size_lem, memory_lem, take-chunk_bytes, length-chunk_bytes, fully_read_lem,
  advance, n_moved, advance-Holds, Holds-advance,
}
use simple_rpc.Rpc.Buffer.Writes.{released, delete_chunk_lem}
use simple_rpc.Rpc.Marshal.{Marshal, empty, size_slow, drop_read_head}
use simple_rpc.Rpc.Marshal.Chain.{
  content, Apart, Joined, Chain, IsValid, Chain-Same, Same-set, empty_lem, size_slow_lem,
  first_unread,
}
use simple_rpc.Rpc.Marshal.Took.{Took, Took-none, Took-removed, Took-advanced}
use simple_rpc.Rpc.Marshal.Slice.Share.{some_left}
use simple_rpc.Rpc.Marshal.Read.{Joined-advance, not_removed}

-- The bytes that the kernel takes, and the chunk afterwards.
unfoldable pub chunk_write_to_fd : ℕ → Chunk → Cmd (Chunk × List ℕ)
chunk_write_to_fd takes c = do
  sz ← size c.data_
  assert (leb c.write_idx sz)
  let cnt = min takes (c.write_idx - c.read_idx)
  p ← memory c.data_ c.read_idx cnt
  assert (leb c.write_idx sz)
  pure (record c { read_idx = c.read_idx + cnt }, p)

-- One round: the chunks afterwards and the bytes that went.
unfoldable pub send_head : ℕ → List Chunk → Cmd (List Chunk × List ℕ)
send_head takes [] = λ _. none
send_head takes (c ∷ cs) = do
  (c', p) ← chunk_write_to_fd takes c
  cs' ← drop_read_head c' cs
  pure (cs', p)

unfoldable pub send_loop : List ℕ → Marshal → Cmd (Marshal × List ℕ)
send_loop [] m = do
  e ← empty m
  if e
      then pure (m, [])
      else (do (cs, p) ← send_head 0 m.chunks; pure (record m { chunks = cs }, []))
send_loop (takes ∷ later) m = do
  e ← empty m
  if e then pure (m, []) else (do
    (cs, p) ← send_head takes m.chunks
    if length p == 0 then pure (record m { chunks = cs }, []) else (do
      assert (leb (length p) m.content_size_)
      (m', q) ←
          send_loop later (record m { chunks = cs; content_size_ = m.content_size_ - length p })
      pure (m', p ++ q)))

-- The bytes are what the kernel was given; their number is what the code returns.
unfoldable pub write_to_fd : List ℕ → Marshal → Cmd (Marshal × List ℕ)
write_to_fd kernel m = do
  (m', p) ← send_loop kernel m
  slow ← size_slow m'.chunks
  assert (m'.content_size_ == slow)
  pure (m', p)
