-- ===== src/Rpc/Marshal/Chain.antt =====
-- When a list of chunks is in order, and the bytes that it holds.
use simple_rpc.Prelude.{
  ℕ, ◌<◌, ◌≡◌, ◌≢◌, refl, sym, ap, ap₂, ◌∙◌, arith, List, [], ◌∷◌, ◌++◌, length, All, some,
  get_elem?, set, get_elem?-set_ne, get_elem?-lt-length, get_elem?-append_left, length-append, ◌==◌,
  Bool-cases, inl, inr, true, false,
}
use simple_rpc.Rpc.Buffer.{Chunk}
use simple_rpc.Rpc.Buffer.Store.{Store, RawBytes}
use simple_rpc.Rpc.Buffer.Laws.{
  Holds, visible, chunk_bytes, content_size_lem, fully_read_lem, length-chunk_bytes,
}
use simple_rpc.Rpc.Marshal.{Marshal, size_slow, content_size, empty, head_readable, check_head}

-- The bytes of a list of chunks, in the order in which they are read.
abbrev pub content : Store → List Chunk → List ℕ
content st [] = []
content st (c ∷ cs) = chunk_bytes st c ++ content st cs

abbrev pub Apart : ℕ → List Chunk → Type 0
Apart x cs = All (λ d. x ≢ d.data_) cs

-- A chunk before others is written to the end and has bytes left; the last chunk can still give bytes,
-- now or after more are written.
abbrev pub Joined : {st : Store} {c : Chunk} → Holds st c → List Chunk → Type 0
Joined {c} h [] = c.read_idx < length h.raw.bytes
Joined {c} h (_ ∷ _) = (c.write_idx ≡ length h.raw.bytes) × (c.read_idx < c.write_idx)

-- The chunks are in order, and no two of them share raw_bytes.
abbrev pub Chain : Store → List Chunk → Type 0
Chain st [] = Unit {0}
Chain st (c ∷ cs) = (h : Holds st c) × Joined h cs × Apart c.data_ cs × Chain st cs

-- The invariant of Marshal.
pub record IsValid (st : Store) (m : Marshal) : Type 0 where
  pub chain : Chain st m.chunks
  pub counted : m.content_size_ ≡ length (content st m.chunks)

-- Two stores have the same objects under the chunks.
abbrev pub Same : Store → Store → List Chunk → Type 0
Same st st' cs = All (λ d. get_elem? st' d.data_ ≡ get_elem? st d.data_) cs

unfoldable pub Holds-moved :
    {st st' : Store} {c : Chunk}
    → get_elem? st' c.data_ ≡ get_elem? st c.data_
    → Holds st c
    → Holds st' c
Holds-moved s h = record {
  raw = h.raw;
  here = s ∙ h.here;
  alive = h.alive;
  ordered = h.ordered;
  fits = h.fits;
}

module _ (st st' : Store) where
  pub Chain-Same : (cs : List Chunk) → Same st st' cs → Chain st cs → Chain st' cs
  unfolding Holds-moved
  Chain-Same [] s h = tt
  Chain-Same (c ∷ cs) (s, ss) (h, j, a, hs) = (Holds-moved s h, joined cs j, a, Chain-Same cs ss hs)
    where
      joined : (ds : List Chunk) → Joined h ds → Joined (Holds-moved {st' = st'} s h) ds
      joined [] k = k
      joined (d ∷ ds) k = k

  pub content-Same : (cs : List Chunk) → Same st st' cs → content st' cs ≡ content st cs
  content-Same [] s = refl
  content-Same (c ∷ cs) (s, ss) = ap₂ (λ r t. visible r c ++ t) s (content-Same cs ss)

pub Same-set :
    (st : Store) (x : ℕ) (r : RawBytes) (cs : List Chunk) → Apart x cs → Same st (set st x r) cs
Same-set st x r [] a = tt
Same-set st x r (d ∷ cs) (a, rest) = (get_elem?-set_ne st x d.data_ r a, Same-set st x r cs rest)

pub Same-grown : (st more : Store) (cs : List Chunk) → Chain st cs → Same st (st ++ more) cs
Same-grown st more [] h = tt
Same-grown st more (c ∷ cs) (h, j, a, hs) =
    (get_elem?-append_left st more c.data_ h.here ∙ sym h.here, Same-grown st more cs hs)

-- The next object is apart from those that there are.
pub Apart-length : (st : Store) (cs : List Chunk) → Chain st cs → Apart (length st) cs
Apart-length st [] h = tt
Apart-length st (c ∷ cs) (h, j, a, hs) =
    ((λ e. absurd (omega (arith, get_elem?-lt-length st c.data_ h.here))), Apart-length st cs hs)

-- The slow count counts the content.
pub size_slow_lem :
    (st : Store) (cs : List Chunk)
    → Chain st cs
    → size_slow cs st ≡ some (length (content st cs), st)
unfolding size_slow
size_slow_lem st [] h = refl
size_slow_lem st (c ∷ cs) (h, j, a, hs) =
    rw (content_size_lem h, size_slow_lem st cs hs)
      (ap (λ n. some (n, st))
        (omega (arith, length-append (chunk_bytes st c) (content st cs), length-chunk_bytes h)))

module _ {st : Store} {m : Marshal} (v : IsValid st m) where
  -- `content_size()` counts the bytes of the content, and its assertion holds.
  pub content_size-length : content_size m st ≡ some (length (content st m.chunks), st)
  unfolding content_size
  content_size-length = rw (size_slow_lem st m.chunks v.chain) (ground (arith, v.counted))

  pub empty_lem : empty m st ≡ some (length (content st m.chunks) == 0, st)
  unfolding empty
  empty_lem = rw content_size-length

-- The first chunk can still give bytes.
pub first_unread :
    {st : Store} {c : Chunk} (h : Holds st c) (cs : List Chunk)
    → Joined h cs
    → c.read_idx < length h.raw.bytes
first_unread h [] j = j
first_unread h (d ∷ cs) j = omega arith

head_readable_lem :
    (st : Store) (cs : List Chunk)
    → Chain st cs
    → (length (content st cs) == 0) ≡ false
    → head_readable cs st ≡ some (true, st)
unfolding head_readable
head_readable_lem st [] h e = cc
head_readable_lem st (c ∷ cs) (h, j, a, hs) e =
    rw (fully_read_lem h) (ground (arith, first_unread h cs j))

-- The assertion on the first chunk holds.
pub check_head_lem : {st : Store} (m : Marshal) → IsValid st m → check_head m st ≡ some (tt, st)
unfolding check_head
check_head_lem {st} m v = rw (empty_lem v) (elim (Bool-cases (length (content st m.chunks) == 0)) [
  | inl e ↦ rw e
  | inr e ↦ rw (e, head_readable_lem st m.chunks v.chain e)
])
