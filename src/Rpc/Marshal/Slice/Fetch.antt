-- ===== src/Rpc/Marshal/Slice/Fetch.antt =====
-- A round of the loop of `read_from_marshal` that shares.
use simple_rpc.Prelude.{
  ℕ, ◌+◌, ◌-◌, ◌<◌, ◌≤◌, ◌≡◌, ◌≢◌, refl, sym, ap, ap₂, ◌∙◌, arith, List, [], ◌∷◌, ◌++◌, length,
  take, drop, get_elem?, length-append, length-set, append-nil, drop_all, take-append, drop-append,
  get_elem?-set_self,
}
use simple_rpc.Rpc.Buffer.{Chunk}
use simple_rpc.Rpc.Buffer.Store.{Store}
use simple_rpc.Rpc.Buffer.Laws.{
  Holds, visible, chunk_bytes, chunk_bytes_lem, length-chunk_bytes, advance, Holds-advance,
  advance-Holds, chunk_bytes-advance,
}
use simple_rpc.Rpc.Buffer.Writes.{released}
use simple_rpc.Rpc.Marshal.Chain.{
  Holds-moved, content, Apart, Joined, Chain, Chain-Same, content-Same, Same-set,
}
use simple_rpc.Rpc.Marshal.Took.{
  bytes_in, refs_in, refs, released_other, bytes-released, refs-released,
}
use simple_rpc.Rpc.Marshal.Slice.Shared.{
  shared, shared-Holds, cut, cut-Holds, chunk_bytes-cut, n_fetched, n_fetched_lem, shared_other,
  bytes-shared, refs-shared, chunk_bytes-shared,
}
use simple_rpc.Rpc.Marshal.Wrote.{Joined-nonempty}

-- After at most `n` bytes of the chunks `ss` are fetched.
pub record Fetched (st : Store) (ss : List Chunk) (n : ℕ) (copies ss' : List Chunk) (st' : Store)
    : Type 0 where
  pub copied : Chain st' copies
  pub chain : Chain st' ss'
  pub taken : content st' copies ≡ take n (content st ss)
  pub left : content st' ss' ≡ drop n (content st ss)
  pub still : length st' ≡ length st
  pub frame :
      (x : ℕ) → Apart x ss → (get_elem? st' x ≡ get_elem? st x) × Apart x copies × Apart x ss'
  pub same_bytes : (x : ℕ) → bytes_in (get_elem? st' x) ≡ bytes_in (get_elem? st x)
  pub balance :
      (x : ℕ)
      → refs_in (get_elem? st' x) + refs x ss
        ≡ refs_in (get_elem? st x) + refs x copies + refs x ss'

pub Fetched-none : (st : Store) (ss : List Chunk) → Chain st ss → Fetched st ss 0 [] ss st
Fetched-none st ss h = record {
  copied = tt;
  chain = h;
  taken = refl;
  left = refl;
  still = refl;
  frame = λ x a. (refl, tt, a);
  same_bytes = λ x. refl;
  balance = λ x. omega arith;
}

module _ (st : Store) (c : Chunk) (cs : List Chunk) (n : ℕ) (h : Holds st c) (j : Joined h cs)
    (a : Apart c.data_ cs) (hs : Chain st cs) (asked : 0 < n)
    (some_bytes : 0 < length (chunk_bytes st c)) where
  same_content : content (shared h) cs ≡ content st cs
  same_content = content-Same st (shared h) cs (Same-set st c.data_ _ cs a)

  -- The chunk has bytes left: the copy is all that is fetched.
  pub Fetched-cut :
      n ≤ length (chunk_bytes st c)
      → Joined (advance-Holds (shared-Holds h) n) cs
      → Fetched st (c ∷ cs) n (cut h n ∷ []) (advance c n ∷ cs) (shared h)
  unfolding cut-Holds
  Fetched-cut enough j' = record {
    copied = (cut-Holds h n, omega (arith, h.fits, h.ordered, length-chunk_bytes h), tt, tt);
    chain = (
      advance-Holds (shared-Holds h) n,
      j',
      a,
      Chain-Same st (shared h) cs (Same-set st c.data_ _ cs a) hs,
    );
    taken =
        append-nil _
        ∙ chunk_bytes-cut h n
        ∙ sym (append-nil _)
        ∙ ap (λ k. take n (chunk_bytes st c) ++ take k (content st cs)) {x = 0} (omega arith)
        ∙ sym (take-append n (chunk_bytes st c) (content st cs));
    left =
        ap₂ (λ s t. s ++ t)
          (chunk_bytes-advance (shared-Holds h) n ∙ ap (drop n) (chunk_bytes-shared st c h))
          same_content
        ∙ ap (λ k. drop n (chunk_bytes st c) ++ drop k (content st cs)) {x = 0} (omega arith)
        ∙ sym (drop-append n (chunk_bytes st c) (content st cs));
    still = length-set st c.data_ _;
    frame = λ x b. (shared_other st c h x b.0, (b.0, tt), b);
    same_bytes = λ x. bytes-shared st c h x;
    balance = λ x. omega (arith, refs-shared st c h x);
  }

  abbrev pub gone : Store
  gone = released (advance-Holds (shared-Holds h) n)

  bytes-gone : (x : ℕ) → bytes_in (get_elem? gone x) ≡ bytes_in (get_elem? st x)
  bytes-gone x =
      bytes-released (shared h) (advance c n) (advance-Holds (shared-Holds h) n) x
      ∙ bytes-shared st c h x

  refs-gone : (x : ℕ) → refs_in (get_elem? gone x) ≡ refs_in (get_elem? st x)
  refs-gone x = omega (
    arith,
    refs-released (shared h) (advance c n) (advance-Holds (shared-Holds h) n) x,
    refs-shared st c h x,
  )

  gone_other : (x : ℕ) → x ≢ c.data_ → get_elem? gone x ≡ get_elem? st x
  gone_other x ne =
      released_other (shared h) (advance c n) (advance-Holds (shared-Holds h) n) x ne
      ∙ shared_other st c h x ne

  gone-content : content gone cs ≡ content st cs
  gone-content = content-Same (shared h) gone cs (Same-set (shared h) c.data_ _ cs a) ∙ same_content

  pub gone_enough : n ≤ length (content st (c ∷ cs)) → n - n_fetched h n ≤ length (content gone cs)
  gone_enough le = omega (
    arith,
    ap length gone-content,
    length-append (chunk_bytes st c) (content st cs),
    n_fetched_lem h n,
  )

  pub gone-Chain : Chain gone cs
  gone-Chain =
      Chain-Same (shared h) gone cs (Same-set (shared h) c.data_ _ cs a)
        (Chain-Same st (shared h) cs (Same-set st c.data_ _ cs a) hs)

  -- The object under the chunk, where the copy is the only one of the two that is left.
  unfoldable gone-Holds : Holds gone (cut h n)
  unfolding shared-Holds cut-Holds advance-Holds Holds-advance
  gone-Holds = record {
    raw = record h.raw { refcnt = h.raw.refcnt + 1 - 1 };
    here = get_elem?-set_self (shared h) c.data_ _ (shared-Holds h).here;
    alive = omega (arith, h.alive);
    ordered = (cut-Holds h n).ordered;
    fits = (cut-Holds h n).fits;
  }

  chunk_bytes-gone : chunk_bytes gone (cut h n) ≡ take n (chunk_bytes st c)
  unfolding gone-Holds cut-Holds
  chunk_bytes-gone =
      chunk_bytes_lem gone-Holds ∙ sym (chunk_bytes_lem (cut-Holds h n)) ∙ chunk_bytes-cut h n

  -- The chunk is fetched to its end and removed; the loop goes on behind it.
  pub Fetched-removed :
      {copies ss' : List Chunk} {st' : Store}
      → length (chunk_bytes st c) ≤ n
      → c.write_idx ≡ length h.raw.bytes
      → Fetched gone cs (n - n_fetched h n) copies ss' st'
      → Fetched st (c ∷ cs) n (cut h n ∷ copies) ss' st'
  unfolding gone-Holds Holds-moved
  Fetched-removed {st'} all_read full w =
      let (e, a', a'') = w.frame c.data_ a in
      let h' : Holds st' (cut h n) = Holds-moved e gone-Holds in
      let rest : n - n_fetched h n ≡ n - length (chunk_bytes st c) =
        omega (arith, n_fetched_lem h n) in
      record {
        copied = (
          h',
          Joined-nonempty h' _ (omega (arith, length-chunk_bytes h))
              (omega (arith, length-chunk_bytes h)),
          a',
          w.copied,
        );
        chain = w.chain;
        taken =
            ap₂ (λ s t. s ++ t) (ap (λ r. visible r (cut h n)) e ∙ chunk_bytes-gone)
              (w.taken ∙ ap₂ take rest gone-content)
            ∙ sym (take-append n (chunk_bytes st c) (content st cs));
        left =
            w.left
            ∙ ap₂ drop rest gone-content
            ∙ ap (λ t. t ++ drop (n - length (chunk_bytes st c)) (content st cs))
                (sym (drop_all n (chunk_bytes st c) all_read))
            ∙ sym (drop-append n (chunk_bytes st c) (content st cs));
        still = w.still ∙ length-set _ c.data_ _ ∙ length-set st c.data_ _;
        frame = λ x b. let (e', b', b'') = w.frame x b.1 in (e' ∙ gone_other x b.0, (b.0, b'), b'');
        same_bytes = λ x. w.same_bytes x ∙ bytes-gone x;
        balance = λ x. omega (arith, w.balance x, refs-gone x);
      }
