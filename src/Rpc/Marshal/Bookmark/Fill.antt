-- ===== src/Rpc/Marshal/Bookmark/Fill.antt =====
-- `write_bookmark` puts bytes where they were set aside.
use simple_rpc.Prelude.{
  ℕ, suc, ◌+◌, ◌-◌, ◌<◌, ◌≡◌, refl, sym, ap, ap₂, subst, ◌∙◌, arith, Bool-cases, inl, inr, ltb,
  List, [], ◌∷◌, ◌++◌, length, take, drop, none, some, splice, get_elem?, set, splice-eq-set,
  drop-set, take-set, set-append, set-append_left, set-append_right, Option, length-append,
  length-set, length-splice, append_assoc, get_elem?-set_self, get_elem?-set_ne,
}
use simple_rpc.Rpc.Buffer.{Chunk}
use simple_rpc.Rpc.Buffer.Store.{Store, RawBytes, store_at, update}
use simple_rpc.Rpc.Buffer.Returns
use simple_rpc.Rpc.Buffer.Returns.{Returns, returns}
use simple_rpc.Rpc.Buffer.Laws.{
  Holds, visible, chunk_bytes, chunk_bytes_lem, length-chunk_bytes, deref_lem,
}
use simple_rpc.Rpc.Marshal.Chain.{
  content, Apart, Joined, Chain, Same-set, Chain-Same, content-Same, Holds-moved,
}
use simple_rpc.Rpc.Marshal.Place.{place}
use simple_rpc.Rpc.Marshal.Bookmark.{write_bookmark}
use simple_rpc.Rpc.Marshal.Bookmark.Mark.{Marks}

module _ {st : Store} {c : Chunk} (h : Holds st c) (i b : ℕ) (inside : i < length h.raw.bytes) where
  abbrev written : RawBytes
  written = record h.raw { bytes = splice h.raw.bytes i (b ∷ []) }

  abbrev after : Store
  after = set st c.data_ written

  store_byte_lem : store_at c.data_ i (b ∷ []) st ≡ some (tt, after)
  unfolding store_at update
  store_byte_lem = rw (deref_lem h) (ground arith)

  same_length : length written.bytes ≡ length h.raw.bytes
  same_length = length-splice h.raw.bytes i (b ∷ []) (omega arith)

  unfoldable after-Holds : Holds after c
  after-Holds = record {
    raw = written;
    here = get_elem?-set_self st c.data_ written h.here;
    alive = h.alive;
    ordered = h.ordered;
    fits = omega (arith, same_length, h.fits);
  }

chunk_bytes-set :
    {st : Store} {c : Chunk} (h : Holds st c) (k b : ℕ)
    (inside : c.read_idx + k < length h.raw.bytes)
    → chunk_bytes (after h (c.read_idx + k) b inside) c ≡ set (chunk_bytes st c) k b
unfolding after-Holds
chunk_bytes-set {c} h k b inside =
    chunk_bytes_lem (after-Holds h (c.read_idx + k) b inside)
    ∙ ap (λ bs. take (c.write_idx - c.read_idx) (drop c.read_idx bs))
        (splice-eq-set h.raw.bytes (c.read_idx + k) b inside)
    ∙ ap (take (c.write_idx - c.read_idx)) (drop-set c.read_idx k h.raw.bytes b)
    ∙ take-set (c.write_idx - c.read_idx) k (drop c.read_idx h.raw.bytes) b
    ∙ ap (λ bs. set bs k b) (sym (chunk_bytes_lem h))

-- After a write over one byte.
pub record Overwrote (st : Store) (cs : List Chunk) (p : List ℕ) (st' : Store) : Type 0 where
  pub chain : Chain st' cs
  pub bytes : content st' cs ≡ p
  pub still : length st' ≡ length st
  pub frame : (x : ℕ) → Apart x cs → get_elem? st' x ≡ get_elem? st x

abbrev place_or : Option (ℕ × ℕ) → ℕ × ℕ
place_or none = (0, 0)
place_or (some at) = at

Overwrote-head :
    {st : Store} {c : Chunk} {cs : List Chunk} (h : Holds st c) (k b : ℕ)
    → Joined h cs
    → Apart c.data_ cs
    → Chain st cs
    → (inside : c.read_idx + k < length h.raw.bytes) → k < c.write_idx - c.read_idx
    → Overwrote st (c ∷ cs) (set (content st (c ∷ cs)) k b) (after h (c.read_idx + k) b inside)
unfolding after-Holds
Overwrote-head {st} {c} {cs} h k b j a hs inside lt =
    let st' = after h (c.read_idx + k) b inside in
    let same = Same-set st c.data_ (written h (c.read_idx + k) b inside) cs a in
    record {
      chain =
          (after-Holds h (c.read_idx + k) b inside, joined cs j, a, Chain-Same st st' cs same hs);
      bytes =
          ap₂ (λ s t. s ++ t) (chunk_bytes-set h k b inside) (content-Same st st' cs same)
          ∙ sym (
              set-append_left (chunk_bytes st c) (content st cs) k b
                (omega (arith, length-chunk_bytes h)));
      still = length-set st c.data_ _;
      frame = λ x n. get_elem?-set_ne st c.data_ x _ (λ e. n.0 (sym e));
    }
  where
    joined : (ds : List Chunk) → Joined h ds → Joined (after-Holds h (c.read_idx + k) b inside) ds
    joined [] e = omega (arith, same_length h (c.read_idx + k) b inside)
    joined (d ∷ ds) e = (omega (arith, same_length h (c.read_idx + k) b inside), e.1)

Overwrote-cons :
    {st st' : Store} {c : Chunk} {cs : List Chunk} (k b n : ℕ)
    → Chain st (c ∷ cs)
    → n ≡ length (chunk_bytes st c) + k
    → Overwrote st cs (set (content st cs) k b) st'
    → Overwrote st (c ∷ cs) (set (content st (c ∷ cs)) n b) st'
unfolding Holds-moved
Overwrote-cons {st} {st'} {c} {cs} k b n (h, j, a, hs) e w =
    let same = w.frame c.data_ a in
    record {
      chain = (Holds-moved {st' = st'} same h, joined cs j, a, w.chain);
      bytes =
          ap₂ (λ r t. visible r c ++ t) same w.bytes
          ∙ sym (set-append_right (chunk_bytes st c) (content st cs) k n b e);
      still = w.still;
      frame = λ x i. w.frame x i.1;
    }
  where
    joined :
        (ds : List Chunk) → Joined h ds → Joined (Holds-moved {st' = st'} (w.frame c.data_ a) h) ds
    joined [] l = l
    joined (d ∷ ds) l = l

-- A write over the byte behind the first `k`.
overwrite_byte :
    (st : Store) (cs : List Chunk) (k x i b : ℕ)
    → Chain st cs
    → place cs k ≡ some (x, i)
    → Returns (λ _. Overwrote st cs (set (content st cs) k b)) (store_at x i (b ∷ []) st)
unfolding place
overwrite_byte st [] k x i b h e = cc
overwrite_byte st (c ∷ cs) k x i b (h, j, a, hs) e =
    elim (Bool-cases (ltb k (c.write_idx - c.read_idx))) [
      | inl here ↦
          let lt : k < c.write_idx - c.read_idx = ground arith in
          let inside : c.read_idx + k < length h.raw.bytes = omega (arith, h.fits) in
          let found : some (c.data_, c.read_idx + k) ≡ some (x, i) = ground arith in
          let same_x : x ≡ c.data_ = sym (ap (λ o. (place_or o).0) found) in
          let same_i : i ≡ c.read_idx + k = sym (ap (λ o. (place_or o).1) found) in
          rw (same_x, same_i, store_byte_lem h (c.read_idx + k) b inside)
            (returns (Overwrote-head h k b j a hs inside lt))
      | inr behind ↦
          let rest : place cs (k - (c.write_idx - c.read_idx)) ≡ some (x, i) = ground arith in
          Returns.mono (overwrite_byte st cs (k - (c.write_idx - c.read_idx)) x i b hs rest)
            λ _ st' w.
              Overwrote-cons (k - (c.write_idx - c.read_idx)) b k (h, j, a, hs)
                (ground (arith, length-chunk_bytes h)) w
    ]

-- `write_bookmark` of as many bytes as were set aside behind `front`: they stand there afterwards, and
-- what is before and behind them is as it was.
pub write_bookmark-Overwrote :
    (st : Store) (cs : List Chunk) (bm : List (ℕ × ℕ)) (front gap p back : List ℕ)
    → Chain st cs
    → Marks cs (length front) bm
    → length gap ≡ length p
    → length bm ≡ length p
    → content st cs ≡ front ++ (gap ++ back)
    → Returns (λ _. Overwrote st cs (front ++ (p ++ back))) (write_bookmark bm p st)
unfolding write_bookmark
write_bookmark-Overwrote st cs [] front [] [] back h marks size size' e =
    returns (record { chain = h; bytes = e; still = refl; frame = λ x a. refl })
write_bookmark-Overwrote st cs [] front gap (b ∷ p) back h marks size size' e = absurd (omega arith)
write_bookmark-Overwrote st cs [] front (g ∷ gap) [] back h marks size size' e =
    absurd (omega arith)
write_bookmark-Overwrote st cs (at ∷ bm) front gap [] back h marks size size' e =
    absurd (omega arith)
write_bookmark-Overwrote st cs (at ∷ bm) front [] (b ∷ p) back h marks size size' e =
    absurd (omega arith)
write_bookmark-Overwrote st cs ((x, i) ∷ bm) front (g ∷ gap) (b ∷ p) back h (here, marks) size size'
      e =
    let front' = front ++ (b ∷ []) in
    let longer : suc (length front) ≡ length front' = omega (arith, length-append front (b ∷ [])) in
    let first : set (content st cs) (length front) b ≡ front' ++ (gap ++ back) =
      ap (λ t. set t (length front) b) e
      ∙ set-append front (gap ++ back) g b
      ∙ sym (append_assoc front (b ∷ []) (gap ++ back)) in
    Returns.bind (overwrite_byte st cs (length front) x i b h here) λ _ st' w.
      Returns.mono
        (write_bookmark-Overwrote st' cs bm front' gap p back w.chain
          (subst (λ k. Marks cs k bm) longer marks) (omega arith) (omega arith) (w.bytes ∙ first))
        λ _ st'' w'. record {
          chain = w'.chain;
          bytes = w'.bytes ∙ append_assoc front (b ∷ []) (p ++ back);
          still = w'.still ∙ w.still;
          frame = λ y a. w'.frame y a ∙ w.frame y a;
        }
