-- ===== src/Rpc/Buffer/Writes.antt =====
-- `chunk::write`, the constructors and the destructor: what they leave in the store.
use simple_rpc.Prelude.{
  ℕ, ◌+◌, ◌-◌, ◌≤◌, ◌≡◌, ◌≢◌, min, ap, ◌∙◌, sym, subst, List, [], ◌∷◌, ◌++◌, some, length, take,
  drop, arith, get_elem?, refl, set, splice, length-splice, slice-splice, slice-splice_before,
  length-take, get_elem?-set_self, get_elem?-set_ne, get_elem?-append_left, get_elem?-append_length,
  length-append, length-replicate, replicate, max, take-append_exact,
}
use simple_rpc.Rpc.Buffer.Store.{
  Store, RawBytes, store_at, release, update, uninit, min_size, new_raw_from,
}
use simple_rpc.Rpc.Buffer.{Chunk, write, delete_chunk, new_chunk_from}
use simple_rpc.Rpc.Buffer.Laws.{
  Holds, visible, chunk_bytes, deref_lem, size_lem, check_lem, chunk_bytes_lem,
}

-- `min(n, size - write_idx)`, the number of bytes of `p` for which there is room.
module _ {st : Store} {c : Chunk} (h : Holds st c) (p : List ℕ) where
  abbrev pub room : ℕ
  room = min (length p) (length h.raw.bytes - c.write_idx)

  abbrev pub written : RawBytes
  written = record h.raw { bytes = splice h.raw.bytes c.write_idx (take room p) }

  abbrev pub after : Chunk
  after = record c { write_idx = c.write_idx + room }

  abbrev pub store_after : Store
  store_after = set st c.data_ written

  pub length-put : length (take room p) ≡ room
  length-put = omega (arith, length-take room p)

  pub fits_after : c.write_idx + room ≤ length h.raw.bytes
  fits_after = omega (arith, h.fits)

  unfoldable pub after-Holds : Holds store_after after
  after-Holds = record {
    raw = written;
    here = get_elem?-set_self st c.data_ written h.here;
    alive = h.alive;
    ordered = omega (arith, h.ordered);
    fits =
        rw (length-splice h.raw.bytes c.write_idx (take room p) (rw length-put fits_after))
          fits_after;
  }

  pub store_at_lem : store_at c.data_ c.write_idx (take room p) st ≡ some (tt, store_after)
  unfolding store_at update
  store_at_lem = rw (deref_lem h) (ground (arith, length-put, fits_after))

  pub write_lem : write c p st ≡ some ((after, room), store_after)
  unfolding write
  write_lem = rw (check_lem h, size_lem h, store_at_lem, check_lem after-Holds)

  -- The chunk has what it had, then the first bytes of `p`.
  pub chunk_bytes-write : chunk_bytes store_after after ≡ chunk_bytes st c ++ take room p
  unfolding after-Holds
  chunk_bytes-write =
      chunk_bytes_lem after-Holds
      ∙ ap (λ n. take (c.write_idx + n - c.read_idx) (drop c.read_idx written.bytes))
          (sym length-put)
      ∙ slice-splice h.raw.bytes c.read_idx c.write_idx (take room p) h.ordered
          (rw length-put fits_after)
      ∙ sym (ap (λ t. t ++ take room p) (chunk_bytes_lem h))

  -- A chunk over other raw_bytes is in order as before, and so is one that sees none of the bytes from
  -- `write_idx` on; neither sees a change.
  pub Holds-write_other : (d : Chunk) → Holds st d → c.data_ ≢ d.data_ → Holds store_after d
  Holds-write_other d k ne = record {
    raw = k.raw;
    here = get_elem?-set_ne st c.data_ d.data_ written ne ∙ k.here;
    alive = k.alive;
    ordered = k.ordered;
    fits = k.fits;
  }

  pub chunk_bytes-write_other :
      (d : Chunk) → c.data_ ≢ d.data_ → chunk_bytes store_after d ≡ chunk_bytes st d
  chunk_bytes-write_other d ne =
      ap (λ r. visible r d) (get_elem?-set_ne st c.data_ d.data_ written ne)

  pub chunk_bytes-write_shared :
      (d : Chunk)
      → c.data_ ≡ d.data_
      → d.write_idx ≤ c.write_idx
      → chunk_bytes store_after d ≡ chunk_bytes st d
  unfolding after-Holds
  chunk_bytes-write_shared d same before =
      ap (λ r. visible r d)
        (subst (λ i. get_elem? store_after i ≡ some written) same after-Holds.here)
      ∙ slice-splice_before h.raw.bytes d.read_idx d.write_idx c.write_idx (take room p) before
          h.fits
      ∙ sym (ap (λ r. visible r d) (subst (λ i. get_elem? st i ≡ some h.raw) same h.here))

-- A new object at the end of the store leaves the others as they are.
abbrev pub grown : Store → RawBytes → Store
grown st r = st ++ (r ∷ [])

module _ {st : Store} (r : RawBytes) where
  unfoldable pub Holds-grown : (d : Chunk) → Holds st d → Holds (grown st r) d
  Holds-grown d k = record {
    raw = k.raw;
    here = get_elem?-append_left st (r ∷ []) d.data_ k.here;
    alive = k.alive;
    ordered = k.ordered;
    fits = k.fits;
  }

  pub chunk_bytes-grown : (d : Chunk) → Holds st d → chunk_bytes (grown st r) d ≡ chunk_bytes st d
  chunk_bytes-grown d k =
      ap (λ r. visible r d) (get_elem?-append_left st (r ∷ []) d.data_ k.here ∙ sym k.here)

-- `chunk(p, n)`: the raw_bytes that it allocates, and the chunk.
abbrev pub filled : List ℕ → RawBytes
filled p = record { bytes = p ++ replicate (max (length p) min_size - length p) uninit; refcnt = 1 }

abbrev pub chunk_of : Store → List ℕ → Chunk
chunk_of st p = record { data_ = length st; read_idx = 0; write_idx = length p }

module _ (st : Store) (p : List ℕ) where
  pub new_chunk_from_lem : new_chunk_from p st ≡ some (chunk_of st p, grown st (filled p))
  unfolding new_chunk_from new_raw_from
  new_chunk_from_lem = refl

  unfoldable pub chunk_of-Holds : Holds (grown st (filled p)) (chunk_of st p)
  chunk_of-Holds = record {
    raw = filled p;
    here = get_elem?-append_length st (filled p);
    alive = omega arith;
    ordered = omega arith;
    fits = omega (arith, length-append p (replicate (max (length p) min_size - length p) uninit));
  }

  pub chunk_bytes-chunk_of : chunk_bytes (grown st (filled p)) (chunk_of st p) ≡ p
  unfolding chunk_of-Holds
  chunk_bytes-chunk_of =
      chunk_bytes_lem chunk_of-Holds
      ∙ ap (λ n. take n (filled p).bytes) (omega arith)
      ∙ take-append_exact (length p) p _ refl

  -- The object has room for 8192 bytes at least.
  pub filled_room : min_size ≤ length (filled p).bytes
  filled_room = omega (
    arith,
    length-append p (replicate (max (length p) min_size - length p) uninit),
    length-replicate (max (length p) min_size - length p) uninit,
  )

-- `~chunk()` gives back one reference, and touches no other object.
module _ {st : Store} {c : Chunk} (h : Holds st c) where
  abbrev pub released : Store
  released = set st c.data_ (record h.raw { refcnt = h.raw.refcnt - 1 })

  pub delete_chunk_lem : delete_chunk c st ≡ some (tt, released)
  unfolding delete_chunk release update
  delete_chunk_lem = rw (deref_lem h)

  pub Holds-released : (d : Chunk) → Holds st d → c.data_ ≢ d.data_ → Holds released d
  Holds-released d k ne = record {
    raw = k.raw;
    here = get_elem?-set_ne st c.data_ d.data_ _ ne ∙ k.here;
    alive = k.alive;
    ordered = k.ordered;
    fits = k.fits;
  }

  pub chunk_bytes-released :
      (d : Chunk) → c.data_ ≢ d.data_ → chunk_bytes released d ≡ chunk_bytes st d
  chunk_bytes-released d ne = ap (λ r. visible r d) (get_elem?-set_ne st c.data_ d.data_ _ ne)
