-- ===== src/Rpc/Marshal/Slice/Join.antt =====
-- `read_from_marshal` where the last chunk of the destination is full.
use simple_rpc.Prelude.{
  Bool, ℕ, ◌+◌, ◌-◌, ◌%◌, ◌^◌, ◌≤◌, ◌≡◌, refl, sym, ap, ap₂, ◌∙◌, arith, true, false, ==_iff,
  le→leb, List, [], ◌∷◌, ◌++◌, length, take, drop, All, some, none, Option, length-append,
  length-take, length-drop, append_assoc,
}
use simple_rpc.Rpc.Buffer.{Chunk}
use simple_rpc.Rpc.Buffer.Store.{Store}
use simple_rpc.Rpc.Buffer.Returns
use simple_rpc.Rpc.Buffer.Returns.{Returns, returns}
use simple_rpc.Rpc.Buffer.Laws.{fully_written_lem, chunk_bytes}
use simple_rpc.Rpc.Marshal.{Marshal}
use simple_rpc.Rpc.Marshal.Slice.Share.{fetch_loop-Fetched}
use simple_rpc.Rpc.Marshal.Slice.Fetch.{Fetched}
use simple_rpc.Rpc.Marshal.Chain.{
  Holds-moved, content, Apart, Chain, IsValid, content_size-length, Same, content-Same,
}
use simple_rpc.Rpc.Marshal.Wrote.{Joined-nonempty}
use simple_rpc.Rpc.Marshal.Slice.{share, tail_full}

-- No chunk of the first list shares raw_bytes with one of the second.
abbrev pub Disjoint : List Chunk → List Chunk → Type 0
Disjoint ds cs = All (λ d. Apart d.data_ cs) ds

Apart-append : (x : ℕ) (ds cs : List Chunk) → Apart x ds → Apart x cs → Apart x (ds ++ cs)
Apart-append x [] cs a b = b
Apart-append x (d ∷ ds) cs (e, a) b = (e, Apart-append x ds cs a b)

content-append :
    (st : Store) (ds cs : List Chunk) → content st (ds ++ cs) ≡ content st ds ++ content st cs
content-append st [] cs = refl
content-append st (d ∷ ds) cs =
    ap (λ t. chunk_bytes st d ++ t) (content-append st ds cs)
    ∙ sym (append_assoc (chunk_bytes st d) (content st ds) (content st cs))

-- The Boolean that a call returns, false where it faults.
abbrev pub answer : {S : Type 0} → Option (Bool × S) → Bool
answer none = false
answer (some (b, st)) = b

-- A list of chunks whose last is written to the end, with another behind it.
Chain-join :
    (st st' : Store) (ds cs : List Chunk)
    → Chain st ds
    → Same st st' ds
    → Disjoint ds cs
    → Chain st' cs
    → tail_full ds st ≡ some (true, st)
    → Chain st' (ds ++ cs)
unfolding tail_full Holds-moved
Chain-join st st' [] cs h s dis hs full = hs
Chain-join st st' (d ∷ []) cs (h, j, a, _) (s, _) (apart, _) hs full =
    let end : d.write_idx ≡ length h.raw.bytes =
      (==_iff d.write_idx _).0 (ap answer (sym (fully_written_lem h) ∙ full)) in
    (
      Holds-moved s h,
      Joined-nonempty (Holds-moved {st' = st'} s h) cs end (omega (arith, j)),
      apart,
      hs,
    )
Chain-join st st' (d ∷ e ∷ ds) cs (h, j, a, hds) (s, ss) (apart, dis) hs full = (
  Holds-moved s h,
  j,
  Apart-append d.data_ (e ∷ ds) cs a apart,
  Chain-join st st' (e ∷ ds) cs hds ss dis hs full,
)

-- What a move of `n` bytes leaves: the first object has them behind what it held, the second has lost
-- them from its front, and both are in order.
pub record Moved (st : Store) (dst src : Marshal) (n : ℕ) (dst' src' : Marshal) (st' : Store)
    : Type 0 where
  pub dst_IsValid : IsValid st' dst'
  pub src_IsValid : IsValid st' src'
  pub arrived : content st' dst'.chunks ≡ content st dst.chunks ++ take n (content st src.chunks)
  pub left : content st' src'.chunks ≡ drop n (content st src.chunks)
  pub dst_counted : dst'.write_cnt ≡ (dst.write_cnt + n) % 2 ^ 32
  pub src_counted : src'.write_cnt ≡ src.write_cnt

Same-Fetched :
    {st st' : Store} {cs copies cs' : List Chunk} {n : ℕ} (ds : List Chunk)
    → Fetched st cs n copies cs' st'
    → Disjoint ds cs
    → Same st st' ds × Disjoint ds copies
Same-Fetched [] w dis = (tt, tt)
Same-Fetched (d ∷ ds) w (a, dis) =
    let (e, b, b') = w.frame d.data_ a in let (es, bs) = Same-Fetched ds w dis in ((e, es), (b, bs))

module _ (st : Store) (dst src : Marshal) (n : ℕ) (v : IsValid st dst) (w : IsValid st src)
    (apart : Disjoint dst.chunks src.chunks) (le : n ≤ length (content st src.chunks)) where
  pub share-Moved :
      tail_full dst.chunks st ≡ some (true, st)
      → Returns (λ r st'. Moved st dst src n r.0 r.1 st') (share dst src n st)
  unfolding share
  share-Moved full =
      Returns.bind
        (fetch_loop-Fetched (length src.chunks + 1) st src.chunks n w.chain le (omega arith))
        λ (copies, cs) st' f.
          let (same, apart') = Same-Fetched dst.chunks f apart in
          let arrived : content st' (dst.chunks ++ copies)
              ≡ content st dst.chunks ++ take n (content st src.chunks) =
            content-append st' dst.chunks copies
            ∙ ap₂ (λ s t. s ++ t) (content-Same st st' dst.chunks same) f.taken in
          let v' : IsValid st' (record dst {
            chunks = dst.chunks ++ copies;
            write_cnt = (dst.write_cnt + n) % 2 ^ 32;
            content_size_ = dst.content_size_ + n;
          }) =
            record {
              chain = Chain-join st st' dst.chunks copies v.chain same apart' f.copied full;
              counted = omega (
                arith,
                v.counted,
                ap length arrived,
                length-append (content st dst.chunks) (take n (content st src.chunks)),
                length-take n (content st src.chunks),
              );
            } in
          let w' : IsValid st' (record src { chunks = cs; content_size_ = src.content_size_ - n }) =
            record {
              chain = f.chain;
              counted =
                  omega (arith, w.counted, ap length f.left, length-drop n (content st src.chunks));
            } in
          rw (le→leb n src.content_size_ (omega (arith, w.counted)), content_size-length v')
            (returns (record {
              dst_IsValid = v';
              src_IsValid = w';
              arrived = arrived;
              left = f.left;
              dst_counted = refl;
              src_counted = refl;
            }))
