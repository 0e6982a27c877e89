-- ===== src/Rpc/Buffer/Laws.antt =====
-- What the functions on a chunk return and leave behind, for a chunk that is in order.
use simple_rpc.Prelude.{
  ℕ, ◌+◌, ◌-◌, ◌<◌, ◌≤◌, ◌≡◌, min, ap, ◌∙◌, sym, List, [], Option, none, some, length, take, drop,
  ◌==◌, arith, get_elem?, take-take, slice-advance, length-take, length-drop,
}
use simple_rpc.Rpc.Buffer.Store.{Store, RawBytes, size, memory, deref}
use simple_rpc.Rpc.Buffer.{
  Chunk, check, content_size, read, peek, discard, fully_written, fully_read,
}

-- The chunk's raw_bytes is alive, and its indices are in order and within it.
pub record Holds (st : Store) (c : Chunk) : Type 0 where
  pub raw : RawBytes
  pub here : get_elem? st c.data_ ≡ some raw
  pub alive : 0 < raw.refcnt
  pub ordered : c.read_idx ≤ c.write_idx
  pub fits : c.write_idx ≤ length raw.bytes

-- The bytes that have been written to a chunk and not been read.
abbrev pub visible : Option RawBytes → Chunk → List ℕ
visible none c = []
visible (some r) c = take (c.write_idx - c.read_idx) (drop c.read_idx r.bytes)

abbrev pub chunk_bytes : Store → Chunk → List ℕ
chunk_bytes st c = visible (get_elem? st c.data_) c

module _ {st : Store} {c : Chunk} (h : Holds st c) where
  pub deref_lem : deref c.data_ st ≡ some (h.raw, st)
  unfolding deref
  deref_lem = rw (h.here, deref) (ground arith)

  pub size_lem : size c.data_ st ≡ some (length h.raw.bytes, st)
  unfolding size
  size_lem = rw deref_lem

  pub check_lem : check c st ≡ some (tt, st)
  unfolding check
  check_lem = rw size_lem (ground arith)

  pub content_size_lem : content_size c st ≡ some (c.write_idx - c.read_idx, st)
  unfolding content_size
  content_size_lem = rw check_lem

  pub fully_written_lem : fully_written c st ≡ some (c.write_idx == length h.raw.bytes, st)
  unfolding fully_written
  fully_written_lem = rw (check_lem, size_lem)

  pub fully_read_lem : fully_read c st ≡ some (c.read_idx == length h.raw.bytes, st)
  unfolding fully_read
  fully_read_lem = rw (check_lem, size_lem)

  pub chunk_bytes_lem :
      chunk_bytes st c ≡ take (c.write_idx - c.read_idx) (drop c.read_idx h.raw.bytes)
  chunk_bytes_lem = rw h.here

  pub length-chunk_bytes : length (chunk_bytes st c) ≡ c.write_idx - c.read_idx
  length-chunk_bytes = rw chunk_bytes_lem (
      omega (
        arith,
        length-take (c.write_idx - c.read_idx) (drop c.read_idx h.raw.bytes),
        length-drop c.read_idx h.raw.bytes,
      ))

  pub memory_lem :
      (i n : ℕ)
      → i + n ≤ length h.raw.bytes
      → memory c.data_ i n st ≡ some (take n (drop i h.raw.bytes), st)
  unfolding memory
  memory_lem i n fit = rw deref_lem (ground arith)

  -- The chunk after `n` more of its bytes are read.
  unfoldable pub Holds-advance :
      (n : ℕ) → n ≤ c.write_idx - c.read_idx → Holds st (record c { read_idx = c.read_idx + n })
  Holds-advance n k = record {
    raw = h.raw;
    here = h.here;
    alive = h.alive;
    ordered = omega arith;
    fits = h.fits;
  }

-- `min n (write_idx - read_idx)`, the number of bytes that `read(p, n)` moves.
abbrev pub n_moved : Chunk → ℕ → ℕ
n_moved c n = min n (c.write_idx - c.read_idx)

abbrev pub advance : Chunk → ℕ → Chunk
advance c n = record c { read_idx = c.read_idx + n_moved c n }

module _ {st : Store} {c : Chunk} (h : Holds st c) (n : ℕ) where
  unfoldable pub advance-Holds : Holds st (advance c n)
  advance-Holds = Holds-advance h (n_moved c n) (omega arith)

  pub take-chunk_bytes :
      take (n_moved c n) (drop c.read_idx h.raw.bytes) ≡ take n (chunk_bytes st c)
  take-chunk_bytes =
      rw (chunk_bytes_lem h)
        (sym (take-take n (c.write_idx - c.read_idx) (drop c.read_idx h.raw.bytes)))

  pub peek_lem : peek c n st ≡ some (take n (chunk_bytes st c), st)
  unfolding peek
  peek_lem =
      rw (check_lem h, memory_lem h c.read_idx (n_moved c n) (omega (arith, h.ordered, h.fits)))
        (ap (λ p. some (p, st)) take-chunk_bytes)

  pub read_lem : read c n st ≡ some ((advance c n, take n (chunk_bytes st c)), st)
  unfolding read
  read_lem =
      rw
        (
          check_lem h,
          memory_lem h c.read_idx (n_moved c n) (omega (arith, h.ordered, h.fits)),
          check_lem advance-Holds,
        )
        (ap (λ p. some ((advance c n, p), st)) take-chunk_bytes)

  pub discard_lem : discard c n st ≡ some ((advance c n, n_moved c n), st)
  unfolding discard
  discard_lem = rw (check_lem h, check_lem advance-Holds)

  pub chunk_bytes-advance : chunk_bytes st (advance c n) ≡ drop n (chunk_bytes st c)
  unfolding advance-Holds Holds-advance
  chunk_bytes-advance =
      chunk_bytes_lem advance-Holds
      ∙ slice-advance c.read_idx c.write_idx n h.raw.bytes
      ∙ sym (ap (drop n) (chunk_bytes_lem h))
