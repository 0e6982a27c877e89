-- ===== src/Rpc/Marshal.antt =====
-- The class Marshal of rpc/marshal.h and rpc/marshal.cc. The chunks are listed from `head_` to `tail_`,
-- with the `next` pointers as the order of the list: `head_ == nullptr` is the empty list, and code at
-- `tail_` walks to the end. `write_cnt_` is an i32 and is kept as its pattern; `content_size_` counts
-- bytes in memory, so that it cannot reach 2^64.
pub mod Chain
pub mod Place
pub mod Wrote
pub mod Write
pub mod Peek
pub mod Took
pub mod Read
pub mod Slice
pub mod Send
pub mod Bookmark
pub mod Receive
mod Runs
use simple_rpc.Prelude.{
  ℕ, zero, suc, ◌+◌, ◌-◌, ◌*◌, ◌%◌, ◌^◌, ◌≡◌, min, Bool, true, false, List, [], ◌∷◌, ◌++◌, length,
  take, drop, ltb, leb, ◌==◌, if◌then◌else◌, not, ◌&&◌, none,
}
use simple_rpc.Rpc.Buffer
use simple_rpc.Rpc.Buffer.{Chunk}
use simple_rpc.Rpc.Buffer.Store.{Store, Cmd, pure, ◌>>=◌, ◌>>◌, assert, store_at, size}

pub record Marshal : Type 0 where
  pub chunks : List Chunk
  pub write_cnt : ℕ
  pub content_size_ : ℕ

-- `Marshal()`
abbrev pub empty_marshal : Marshal
empty_marshal = record { chunks = []; write_cnt = 0; content_size_ = 0 }

unfoldable pub size_slow : List Chunk → Cmd ℕ
size_slow [] = pure 0
size_slow (c ∷ cs) = do n ← Buffer.content_size c; rest ← size_slow cs; pure (n + rest)

-- `content_size()`, with the assertion on the slow count
unfoldable pub content_size : Marshal → Cmd ℕ
content_size m = do
  slow ← size_slow m.chunks
  assert (m.content_size_ == slow)
  pure m.content_size_

unfoldable pub empty : Marshal → Cmd Bool
empty m = do n ← content_size m; pure (n == 0)

-- `assert(empty() || (head_ != nullptr && !head_->fully_read()))`
unfoldable pub head_readable : List Chunk → Cmd Bool
head_readable [] = pure false
head_readable (c ∷ cs) = do full ← Buffer.fully_read c; pure (not full)

unfoldable pub check_head : Marshal → Cmd (Unit {0})
check_head m = do
  e ← empty m
  if e then pure tt else do readable ← head_readable m.chunks; assert readable

-- The three cases of `write`, at the last chunk.
unfoldable pub write_tail : List Chunk → List ℕ → Cmd (List Chunk)
write_tail [] p = do c ← Buffer.new_chunk_from p; pure (c ∷ [])
write_tail (c ∷ []) p = do
  full ← Buffer.fully_written c
  if full then (do d ← Buffer.new_chunk_from p; pure (c ∷ d ∷ [])) else (do
    (c', n_write) ← Buffer.write c p
    assert (ltb 0 n_write)
    if ltb n_write (length p)
        then (do d ← Buffer.new_chunk_from (drop n_write p); pure (c' ∷ d ∷ []))
        else pure (c' ∷ []))
write_tail (c ∷ d ∷ cs) p = do rest ← write_tail (d ∷ cs) p; pure (c ∷ rest)

-- `write(p, n)` for the `n` bytes at `p`: the object afterwards, and the result.
unfoldable pub write : Marshal → List ℕ → Cmd (Marshal × ℕ)
write m p = do
  chunks ← write_tail m.chunks p
  let size' = m.content_size_ + length p
  slow ← size_slow chunks
  assert (size' == slow)
  pure (
    record {
      chunks = chunks;
      write_cnt = (m.write_cnt + length p) % 2 ^ 32;
      content_size_ = size';
    },
    length p,
  )

-- `if (head_->fully_read()) { .. delete chnk; }`, for the head `c` before the chunks `cs`.
unfoldable pub drop_read_head : Chunk → List Chunk → Cmd (List Chunk)
drop_read_head c cs = do
  full ← Buffer.fully_read c
  if full then (do Buffer.delete_chunk c; pure cs) else pure (c ∷ cs)

-- The loop of `read`, with `left = n - n_read`; it returns the chunks left and the bytes it copied. Out
-- of fuel is a fault.
unfoldable pub read_loop : ℕ → List Chunk → ℕ → Cmd (List Chunk × List ℕ)
read_loop zero cs left = λ _. none
read_loop (suc fuel) [] left = pure ([], [])
read_loop (suc fuel) (c ∷ cs) left = do
  sz ← Buffer.content_size c
  if not (ltb 0 left && ltb 0 sz) then pure (c ∷ cs, []) else (do
    (c', p) ← Buffer.read c left
    cs' ← drop_read_head c' cs
    if length p == 0
        then pure (cs', [])
        else (do (cs'', q) ← read_loop fuel cs' (left - length p); pure (cs'', p ++ q)))

-- A round either removes a chunk or ends the loop at the next test.
abbrev pub read_fuel : List Chunk → ℕ
read_fuel cs = length cs + 2

unfoldable pub read : Marshal → ℕ → Cmd (Marshal × List ℕ)
read m n = do
  check_head m
  (cs, p) ← read_loop (read_fuel m.chunks) m.chunks n
  assert (leb (length p) m.content_size_)
  let m' = record m { chunks = cs; content_size_ = m.content_size_ - length p }
  content_size m'
  assert (leb (length p) n)
  check_head m'
  pure (m', p)

-- The loop of `peek`, from the chunk that it has reached on.
unfoldable pub peek_loop : List Chunk → ℕ → Cmd (List ℕ)
peek_loop [] left = pure []
peek_loop (c ∷ cs) left = if left == 0 then pure [] else (do
  p ← Buffer.peek c left
  if length p == 0 then pure [] else (do q ← peek_loop cs (left - length p); pure (p ++ q)))

unfoldable pub peek : Marshal → ℕ → Cmd (List ℕ)
peek m n = do
  check_head m
  p ← peek_loop m.chunks n
  assert (leb (length p) n)
  check_head m
  pure p

-- `~Marshal()`
unfoldable pub destroy : List Chunk → Cmd (Unit {0})
destroy [] = pure tt
destroy (c ∷ cs) = do Buffer.delete_chunk c; destroy cs
