-- ===== src/Rpc/Marshal/Bookmark.antt =====
-- `set_bookmark`, `write_bookmark` and `get_and_reset_write_cnt` of Marshal: bytes that are set aside, to
-- be written when those behind them are known. A bookmark is the list of the places of its bytes, in place
-- of the array of pointers `bm->ptr`; `bm->size` is its length.
pub mod Mark
pub mod Fill
use simple_rpc.Prelude.{ℕ, zero, suc, ◌+◌, ◌==◌, List, [], ◌∷◌, if◌then◌else◌, none}
use simple_rpc.Rpc.Buffer
use simple_rpc.Rpc.Buffer.{Chunk}
use simple_rpc.Rpc.Buffer.Store.{Cmd, pure, ◌>>=◌, ◌>>◌, assert, store_at}
use simple_rpc.Rpc.Marshal.{Marshal, size_slow}

-- One round of `set_bookmark`, with its three cases at the last chunk.
unfoldable pub mark_tail : List Chunk → Cmd (List Chunk × (ℕ × ℕ))
mark_tail [] = do c ← Buffer.new_chunk; (c', at) ← Buffer.set_bookmark c; pure (c' ∷ [], at)
mark_tail (c ∷ []) = do
  full ← Buffer.fully_written c
  if full
      then (do d ← Buffer.new_chunk; (d', at) ← Buffer.set_bookmark d; pure (c ∷ d' ∷ [], at))
      else (do (c', at) ← Buffer.set_bookmark c; pure (c' ∷ [], at))
mark_tail (c ∷ d ∷ cs) = do (rest, at) ← mark_tail (d ∷ cs); pure (c ∷ rest, at)

unfoldable pub mark_loop : ℕ → List Chunk → Cmd (List Chunk × List (ℕ × ℕ))
mark_loop zero cs = pure (cs, [])
mark_loop (suc n) cs = do
  (cs', at) ← mark_tail cs
  (cs'', bm) ← mark_loop n cs'
  pure (cs'', at ∷ bm)

unfoldable pub set_bookmark : ℕ → Marshal → Cmd (Marshal × List (ℕ × ℕ))
set_bookmark n m = do
  assert (m.write_cnt == 0)
  (cs, bm) ← mark_loop n m.chunks
  let size' = m.content_size_ + n
  slow ← size_slow cs
  assert (size' == slow)
  pure (record m { chunks = cs; content_size_ = size' }, bm)

-- `write_bookmark(bm, p)`. Fewer bytes than places is an access outside `p`.
unfoldable pub write_bookmark : List (ℕ × ℕ) → List ℕ → Cmd (Unit {0})
write_bookmark [] p = pure tt
write_bookmark (at ∷ bm) [] = λ _. none
write_bookmark ((x, i) ∷ bm) (b ∷ p) = do store_at x i (b ∷ []); write_bookmark bm p

abbrev pub get_and_reset_write_cnt : Marshal → Marshal × ℕ
get_and_reset_write_cnt m = (record m { write_cnt = 0 }, m.write_cnt)
