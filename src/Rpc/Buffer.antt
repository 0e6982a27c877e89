-- ===== src/Rpc/Buffer.antt =====
-- raw_bytes and chunk of rpc/buffer.h and rpc/buffer.cc. A pointer to a raw_bytes is its index in a
-- store, so that chunks can share one. A function on a chunk returns the chunk as it is afterwards.
-- What a system call answers is an argument.
pub mod Store
pub mod Returns
pub mod Laws
pub mod Writes
use simple_rpc.Prelude.{
  ℕ, ◌+◌, ◌-◌, ◌≡◌, min, Bool, List, [], ◌∷◌, ◌++◌, length, take, drop, ltb, leb, ◌==◌,
  if◌then◌else◌,
}
use Store.{
  Cmd, pure, ◌>>=◌, ◌>>◌, assert, new_raw, new_raw_from, ref_copy, release, size, memory, store_at,
}

pub record Chunk : Type 0 where
  pub data_ : ℕ
  pub read_idx : ℕ
  pub write_idx : ℕ

-- The assertions with which every member function begins.
unfoldable pub check : Chunk → Cmd (Unit {0})
unfolding size
check c = do sz ← size c.data_; assert (leb c.write_idx sz); assert (leb c.read_idx c.write_idx)

-- `chunk()`
unfoldable pub new_chunk : Cmd Chunk
unfolding new_raw
new_chunk = do d ← new_raw; pure (record { data_ = d; read_idx = 0; write_idx = 0 })

-- `chunk(p, n)`, for the `n` bytes at `p`
unfoldable pub new_chunk_from : List ℕ → Cmd Chunk
unfolding new_raw_from
new_chunk_from p = do
  d ← new_raw_from p
  pure (record { data_ = d; read_idx = 0; write_idx = length p })

-- `~chunk()`
unfoldable pub delete_chunk : Chunk → Cmd (Unit {0})
unfolding release
delete_chunk c = release c.data_

unfoldable pub shared_copy : Chunk → Cmd Chunk
unfolding ref_copy check
shared_copy c = do ref_copy c.data_; check c; pure c

unfoldable pub content_size : Chunk → Cmd ℕ
unfolding check
content_size c = do check c; pure (c.write_idx - c.read_idx)

-- The address of the byte that is set aside is its place: the raw_bytes and the index in it.
unfoldable pub set_bookmark : Chunk → Cmd (Chunk × (ℕ × ℕ))
unfolding check
set_bookmark c = do
  check c
  let c' = record c { write_idx = c.write_idx + 1 }
  check c'
  pure (c', (c.data_, c.write_idx))

unfoldable pub write : Chunk → List ℕ → Cmd (Chunk × ℕ)
unfolding check size store_at
write c p = do
  check c
  sz ← size c.data_
  let n_write = min (length p) (sz - c.write_idx)
  store_at c.data_ c.write_idx (take n_write p)
  let c' = record c { write_idx = c.write_idx + n_write }
  check c'
  pure (c', n_write)

-- The bytes read are what the code copies to `p`; their number is what it returns.
unfoldable pub read : Chunk → ℕ → Cmd (Chunk × List ℕ)
unfolding check memory
read c n = do
  check c
  let n_read = min n (c.write_idx - c.read_idx)
  p ← memory c.data_ c.read_idx n_read
  let c' = record c { read_idx = c.read_idx + n_read }
  check c'
  pure (c', p)

unfoldable pub peek : Chunk → ℕ → Cmd (List ℕ)
unfolding check memory
peek c n = do
  check c
  let n_peek = min n (c.write_idx - c.read_idx)
  memory c.data_ c.read_idx n_peek

unfoldable pub discard : Chunk → ℕ → Cmd (Chunk × ℕ)
unfolding check
discard c n = do
  check c
  let n_discard = min n (c.write_idx - c.read_idx)
  let c' = record c { read_idx = c.read_idx + n_discard }
  check c'
  pure (c', n_discard)

unfoldable pub fully_written : Chunk → Cmd Bool
unfolding check size
fully_written c = do check c; sz ← size c.data_; pure (c.write_idx == sz)

unfoldable pub fully_read : Chunk → Cmd Bool
unfolding check size
fully_read c = do check c; sz ← size c.data_; pure (c.read_idx == sz)
