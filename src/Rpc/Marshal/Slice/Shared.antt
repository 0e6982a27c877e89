-- ===== src/Rpc/Marshal/Slice/Shared.antt =====
-- A chunk with one more reference to its raw_bytes, and the copy of it that `read_from_marshal` makes.
use simple_rpc.Prelude.{
  ℕ, ◌+◌, ◌-◌, ◌≡◌, ◌≢◌, min, sym, ap, ap₂, subst, ◌∙◌, arith, Bool-cases, inl, inr, ltb, ◌==◌,
  if◌then◌else◌, length, take, drop, some, get_elem?, set, take-take, get_elem?-set_ne,
  get_elem?-set_self,
}
use native.Mathlib.Decide.{ℕ_discrete}
use simple_rpc.Rpc.Buffer
use simple_rpc.Rpc.Buffer.{Chunk}
use simple_rpc.Rpc.Buffer.Store.{Store, ref_copy, update}
use simple_rpc.Rpc.Buffer.Laws.{
  Holds, chunk_bytes, chunk_bytes_lem, deref_lem, check_lem, length-chunk_bytes, discard_lem,
  content_size_lem, advance, n_moved,
}
use simple_rpc.Rpc.Marshal.Took.{bytes_in, refs_in}
use simple_rpc.Rpc.Marshal.Slice.{cut_copy}

-- One more reference to the object under a chunk.
module _ {st : Store} {c : Chunk} (h : Holds st c) where
  abbrev pub shared : Store
  shared = set st c.data_ (record h.raw { refcnt = h.raw.refcnt + 1 })

  unfoldable pub shared-Holds : Holds shared c
  shared-Holds = record {
    raw = record h.raw { refcnt = h.raw.refcnt + 1 };
    here = get_elem?-set_self st c.data_ _ h.here;
    alive = omega arith;
    ordered = h.ordered;
    fits = h.fits;
  }

  pub shared_copy_lem : Buffer.shared_copy c st ≡ some (c, shared)
  unfolding Buffer.shared_copy ref_copy update
  shared_copy_lem = rw (deref_lem h, check_lem shared-Holds)

  -- The first `k` bytes of the chunk.
  abbrev pub cut : ℕ → Chunk
  cut k = record c { write_idx = c.write_idx - (c.write_idx - c.read_idx - k) }

  unfoldable pub cut-Holds : (k : ℕ) → Holds shared (cut k)
  cut-Holds k = record {
    raw = record h.raw { refcnt = h.raw.refcnt + 1 };
    here = get_elem?-set_self st c.data_ _ h.here;
    alive = omega arith;
    ordered = omega (arith, h.ordered);
    fits = omega (arith, h.fits);
  }

  pub chunk_bytes-cut : (k : ℕ) → chunk_bytes shared (cut k) ≡ take k (chunk_bytes st c)
  unfolding cut-Holds
  chunk_bytes-cut k =
      chunk_bytes_lem (cut-Holds k)
      ∙ ap (λ n. take n (drop c.read_idx h.raw.bytes)) (omega (arith, h.ordered))
      ∙ sym (take-take k (c.write_idx - c.read_idx) (drop c.read_idx h.raw.bytes))
      ∙ sym (ap (take k) (chunk_bytes_lem h))

  -- Whether the chunk is cut or not, the copy is `cut left`.
  pub cut_copy_lem : (left : ℕ) → cut_copy c left st ≡ some (cut left, shared)
  unfolding cut_copy shared-Holds
  cut_copy_lem left =
      rw (shared_copy_lem, content_size_lem shared-Holds)
        (elim (Bool-cases (ltb left (c.write_idx - c.read_idx))) [
          | inl more ↦ rw more
          | inr all ↦ rw all (ap (λ w. some (record c { write_idx = w }, shared)) (ground arith))
        ])

  abbrev pub n_fetched : ℕ → ℕ
  n_fetched left = (cut left).write_idx - (cut left).read_idx

  pub n_fetched_lem : (left : ℕ) → n_fetched left ≡ min left (length (chunk_bytes st c))
  n_fetched_lem left = omega (arith, length-chunk_bytes h, h.ordered)

  pub discard_fetched :
      (left : ℕ)
      → Buffer.discard c (n_fetched left) shared ≡ some ((advance c left, n_fetched left), shared)
  discard_fetched left =
      discard_lem shared-Holds (n_fetched left)
      ∙ ap₂ (λ r n. some ((record c { read_idx = r }, n), shared)) {y = c.read_idx + n_moved c left}
          (ap (λ n. c.read_idx + n) (omega (arith, h.ordered))) (omega (arith, h.ordered))

-- One more reference, for the other holders.
module _ (st : Store) (c : Chunk) (h : Holds st c) where
  pub shared_other : (x : ℕ) → x ≢ c.data_ → get_elem? (shared h) x ≡ get_elem? st x
  shared_other x ne = get_elem?-set_ne st c.data_ x _ (λ e. ne (sym e))

  pub bytes-shared : (x : ℕ) → bytes_in (get_elem? (shared h) x) ≡ bytes_in (get_elem? st x)
  unfolding shared-Holds
  bytes-shared x = elim (ℕ_discrete x c.data_) [
    | yes e ↦
        subst (λ y. bytes_in (get_elem? (shared h) y) ≡ bytes_in (get_elem? st y)) (sym e)
          (ap bytes_in (shared-Holds h).here ∙ sym (ap bytes_in h.here))
    | no ne ↦ ap bytes_in (shared_other x ne)
  ]

  pub refs-shared :
      (x : ℕ)
      → refs_in (get_elem? (shared h) x)
        ≡ refs_in (get_elem? st x) + (if x == c.data_ then 1 else 0)
  unfolding shared-Holds
  refs-shared x = elim (ℕ_discrete x c.data_) [
    | yes e ↦
        subst
          (λ y.
            refs_in (get_elem? (shared h) y)
            ≡ refs_in (get_elem? st y) + (if y == c.data_ then 1 else 0))
          (sym e) (ground (arith, ap refs_in (shared-Holds h).here, ap refs_in h.here))
    | no ne ↦ ground (arith, ap refs_in (shared_other x ne))
  ]

  pub chunk_bytes-shared : chunk_bytes (shared h) c ≡ chunk_bytes st c
  unfolding shared-Holds
  chunk_bytes-shared = chunk_bytes_lem (shared-Holds h) ∙ sym (chunk_bytes_lem h)
