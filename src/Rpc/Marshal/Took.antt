-- ===== src/Rpc/Marshal/Took.antt =====
-- What a loop leaves behind that takes bytes off the front of a list of chunks.
use simple_rpc.Prelude.{
  ℕ, ◌+◌, ◌-◌, ◌<◌, ◌≤◌, ◌≡◌, ◌≢◌, ◌⊎◌, refl, sym, ap, ap₂, subst, ◌∙◌, arith, inl, inr, ◌==◌,
  if◌then◌else◌, List, [], ◌∷◌, ◌++◌, length, take, drop, some, none, get_elem?, Option,
  length-take, length-set, take_nil, drop_nil, drop_all, take-append_rest, take-append, drop-append,
  get_elem?-set_ne, get_elem?-set_self,
}
use native.Mathlib.Decide.{ℕ_discrete}
use simple_rpc.Rpc.Buffer.{Chunk}
use simple_rpc.Rpc.Buffer.Store.{Store, RawBytes}
use simple_rpc.Rpc.Buffer.Laws.{Holds, chunk_bytes, advance, advance-Holds, chunk_bytes-advance}
use simple_rpc.Rpc.Buffer.Writes.{released}
use simple_rpc.Rpc.Marshal.Chain.{content, Apart, Joined, Chain, content-Same, Same-set}

-- What other holders of the objects see of a read: the bytes of every object are as they were, and the
-- references that the chunks give up are the only ones that go.
abbrev pub bytes_in : Option RawBytes → List ℕ
bytes_in none = []
bytes_in (some r) = r.bytes

abbrev pub refs_in : Option RawBytes → ℕ
refs_in none = 0
refs_in (some r) = r.refcnt

abbrev pub refs : ℕ → List Chunk → ℕ
refs x [] = 0
refs x (c ∷ cs) = (if x == c.data_ then 1 else 0) + refs x cs

-- After a read of at most `n` bytes from the chunks `cs`.
pub record Took (st : Store) (cs : List Chunk) (n : ℕ) (cs' : List Chunk) (p : List ℕ) (st' : Store)
    : Type 0 where
  pub chain : Chain st' cs'
  pub taken : p ≡ take n (content st cs)
  pub left : content st' cs' ≡ drop n (content st cs)
  pub still : length st' ≡ length st
  pub frame : (x : ℕ) → Apart x cs → (get_elem? st' x ≡ get_elem? st x) × Apart x cs'
  pub same_bytes : (x : ℕ) → bytes_in (get_elem? st' x) ≡ bytes_in (get_elem? st x)
  pub balance :
      (x : ℕ) → refs_in (get_elem? st' x) + refs x cs ≡ refs_in (get_elem? st x) + refs x cs'

-- Nothing is read where nothing is asked for or nothing is there.
module _ (st : Store) (cs : List Chunk) (n : ℕ) (h : Chain st cs) where
  pub Took-none : (n ≡ 0) ⊎ (content st cs ≡ []) → Took st cs n cs [] st
  Took-none e = record {
    chain = h;
    taken = elim e [
      | inl z ↦ ap (λ k. take k (content st cs)) {x = 0} (sym z)
      | inr z ↦ sym (ap (take n) z ∙ take_nil n)
    ];
    left = elim e [
      | inl z ↦ ap (λ k. drop k (content st cs)) {x = 0} (sym z)
      | inr z ↦ z ∙ sym (ap (drop n) z ∙ drop_nil n)
    ];
    still = refl;
    frame = λ x a. (refl, a);
    same_bytes = λ x. refl;
    balance = λ x. refl;
  }

-- The release of the first chunk.
module _ (st : Store) (c : Chunk) (h : Holds st c) where
  pub here_released :
      get_elem? (released h) c.data_ ≡ some (record h.raw { refcnt = h.raw.refcnt - 1 })
  here_released = get_elem?-set_self st c.data_ _ h.here

  pub released_other : (x : ℕ) → x ≢ c.data_ → get_elem? (released h) x ≡ get_elem? st x
  released_other x ne = get_elem?-set_ne st c.data_ x _ (λ e. ne (sym e))

  pub bytes-released : (x : ℕ) → bytes_in (get_elem? (released h) x) ≡ bytes_in (get_elem? st x)
  bytes-released x = elim (ℕ_discrete x c.data_) [
    | yes e ↦
        subst (λ y. bytes_in (get_elem? (released h) y) ≡ bytes_in (get_elem? st y)) (sym e)
          (ap bytes_in here_released ∙ sym (ap bytes_in h.here))
    | no ne ↦ ap bytes_in (released_other x ne)
  ]

  pub refs-released :
      (x : ℕ)
      → refs_in (get_elem? (released h) x) + (if x == c.data_ then 1 else 0)
        ≡ refs_in (get_elem? st x)
  refs-released x = elim (ℕ_discrete x c.data_) [
    | yes e ↦
        subst
          (λ y.
            refs_in (get_elem? (released h) y) + (if y == c.data_ then 1 else 0)
            ≡ refs_in (get_elem? st y))
          (sym e) (ground (arith, ap refs_in here_released, ap refs_in h.here, h.alive))
    | no ne ↦ ground (arith, ap refs_in (released_other x ne))
  ]

-- A round of the loop.
module _ (st : Store) (c : Chunk) (cs : List Chunk) (n : ℕ) (h : Holds st c) (j : Joined h cs)
    (a : Apart c.data_ cs) (hs : Chain st cs) (some_bytes : 0 < length (chunk_bytes st c))
    (asked : 0 < n) where
  abbrev pub first : List ℕ
  first = take n (chunk_bytes st c)

  same_content : content (released h) cs ≡ content st cs
  same_content = content-Same st (released h) cs (Same-set st c.data_ _ cs a)

  -- Where the bytes of the chunk are enough, or no others follow, the rest is left as it is.
  nothing_behind :
      (n ≤ length (chunk_bytes st c)) ⊎ (cs ≡ [])
      → (take (n - length (chunk_bytes st c)) (content st cs) ≡ [])
        × (drop (n - length (chunk_bytes st c)) (content st cs) ≡ content st cs)
  nothing_behind (inl enough) = (
    ap (λ k. take k (content st cs)) {y = 0} (omega arith),
    ap (λ k. drop k (content st cs)) {y = 0} (omega arith),
  )
  nothing_behind (inr last) =
      rw last (take_nil (n - length (chunk_bytes st c)), drop_nil (n - length (chunk_bytes st c)))

  -- The chunk is read to its end and removed; the loop goes on behind it.
  pub Took-removed :
      {cs' : List Chunk} {p : List ℕ} {st' : Store}
      → length (chunk_bytes st c) ≤ n
      → Took (released h) cs (n - length first) cs' p st'
      → Took st (c ∷ cs) n cs' (first ++ p) st'
  Took-removed all_read w = record {
    chain = w.chain;
    taken =
        ap (λ q. first ++ q) (w.taken ∙ ap (take (n - length first)) same_content)
        ∙ take-append_rest n (chunk_bytes st c) (content st cs);
    left =
        w.left
        ∙ ap₂ drop (omega (arith, length-take n (chunk_bytes st c))) same_content
        ∙ ap (λ t. t ++ drop (n - length (chunk_bytes st c)) (content st cs))
            (sym (drop_all n (chunk_bytes st c) all_read))
        ∙ sym (drop-append n (chunk_bytes st c) (content st cs));
    still = w.still ∙ length-set st c.data_ _;
    frame = λ x b. let (e, b') = w.frame x b.1 in (e ∙ released_other st c h x b.0, b');
    same_bytes = λ x. w.same_bytes x ∙ bytes-released st c h x;
    balance = λ x. omega (arith, w.balance x, refs-released st c h x);
  }

  -- The chunk has bytes left, or it is the last.
  pub Took-advanced :
      (n ≤ length (chunk_bytes st c)) ⊎ (cs ≡ [])
      → Joined (advance-Holds h n) cs
      → Took st (c ∷ cs) n (advance c n ∷ cs) (first ++ []) st
  Took-advanced e j' = record {
    chain = (advance-Holds h n, j', a, hs);
    taken =
        ap (λ t. first ++ t) (sym (nothing_behind e).0)
        ∙ sym (take-append n (chunk_bytes st c) (content st cs));
    left =
        ap₂ (λ s t. s ++ t) (chunk_bytes-advance h n) (sym (nothing_behind e).1)
        ∙ sym (drop-append n (chunk_bytes st c) (content st cs));
    still = refl;
    frame = λ x b. (refl, b);
    same_bytes = λ x. refl;
    balance = λ x. refl;
  }
