-- ===== src/Rpc/Marshal/Slice/Move.antt =====
-- `read_from_marshal` on every path: it shares where the last chunk is full, and copies where it is not.
use simple_rpc.Prelude.{
  ℕ, suc, ◌+◌, ◌-◌, ◌%◌, ◌^◌, ◌<◌, ◌≤◌, ◌≡◌, min, sym, ap, ap₂, subst, ◌∙◌, arith, Bool-cases, inl,
  inr, true, le→leb, ltb, ◌==◌, ==_iff, List, ◌++◌, length, take, drop, some, length-take,
  length-drop, take-split, drop-drop, append_assoc,
}
use simple_rpc.Rpc.Buffer.Store.{Store}
use simple_rpc.Rpc.Buffer.Returns
use simple_rpc.Rpc.Buffer.Returns.{Returns, returns}
use simple_rpc.Rpc.Marshal.{Marshal, write_tail, write}
use simple_rpc.Rpc.Marshal.Chain.{
  content, IsValid, Same, Chain-Same, content-Same, content_size-length,
}
use simple_rpc.Rpc.Marshal.Took.{Took}
use simple_rpc.Rpc.Marshal.Read.{read-Takes}
use simple_rpc.Rpc.Marshal.Wrote.{Wrote, write_tail-Wrote}
use simple_rpc.Rpc.Marshal.Write.{write-Wrote}
use simple_rpc.Rpc.Marshal.Slice.{tail_full, read_from_marshal}
use simple_rpc.Rpc.Marshal.Slice.Join.{Disjoint, Moved, share-Moved}
use simple_rpc.Rpc.Marshal.Slice.Open.{Open, tail-cases}
use simple_rpc.Rpc.Marshal.Slice.Frames.{
  Same-Took, Same-Wrote, Disjoint-sym, IsValid-Same, Same-refl,
}

-- Two moves in a row.
Moved-trans :
    {st st' st'' : Store} {d d' d'' s s' s'' : Marshal} (k l : ℕ)
    → Moved st d s k d' s' st'
    → Moved st' d' s' l d'' s'' st''
    → Moved st d s (k + l) d'' s'' st''
Moved-trans {st} {d} {s} k l v w = record {
  dst_IsValid = w.dst_IsValid;
  src_IsValid = w.src_IsValid;
  arrived =
      w.arrived
      ∙ ap₂ (λ x y. x ++ take l y) v.arrived v.left
      ∙ append_assoc (content st d.chunks) (take k (content st s.chunks)) _
      ∙ ap (λ t. content st d.chunks ++ t)
          (ap (λ m. take k (content st s.chunks) ++ take m (drop k (content st s.chunks))) {x = l}
              (omega arith)
            ∙ sym (take-split k (k + l) (content st s.chunks) (omega arith)));
  left = w.left ∙ ap (drop l) v.left ∙ drop-drop l k (content st s.chunks);
  dst_counted = omega (arith, v.dst_counted, w.dst_counted);
  src_counted = w.src_counted ∙ v.src_counted;
}

-- The copy of `n` bytes or as many as fit behind the last chunk, by a read and a write.
module _ {st : Store} (dst src : Marshal) (k : ℕ) (v : IsValid st dst) (o : Open st dst.chunks)
    (apart : Disjoint dst.chunks src.chunks) where
  abbrev Copied : Marshal → Marshal → Store → Type 0
  Copied d s st' =
      Moved st dst src k d s st'
      × Disjoint d.chunks s.chunks
      × (k ≡ o.spare → tail_full d.chunks st' ≡ some (true, st'))

  fills :
      (st' : Store) (p : List ℕ)
      → Same st st' dst.chunks
      → 0 < k
      → length p ≡ k
      → Returns
          (λ cs st''.
            Wrote st' dst.chunks p cs st'' × (k ≡ o.spare → tail_full cs st'' ≡ some (true, st'')))
          (write_tail dst.chunks p st')
  fills st' p same asked all =
      let wrote =
        write_tail-Wrote st' dst.chunks p (Chain-Same st st' dst.chunks same v.chain)
          (omega arith) in
      elim (Bool-cases (k == o.spare)) [
        | inl e ↦
            Returns.mono
              (Returns.both wrote (o.filled_up st' same p (all ∙ (==_iff k o.spare).0 e)))
              λ cs st'' (w, (_, full)). (w, λ _. full)
        | inr ne ↦ Returns.mono wrote λ cs st'' w. (w, λ e. absurd (ground arith))
      ]

  copy_written :
      (m : Marshal) (p : List ℕ) (st' : Store)
      → 0 < k
      → k ≤ length (content st src.chunks)
      → IsValid st' m
      → p ≡ take k (content st src.chunks)
      → content st' m.chunks ≡ drop k (content st src.chunks)
      → m.write_cnt ≡ src.write_cnt
      → Took st src.chunks k m.chunks p st'
      → Returns (λ (d, n) st''. (n ≡ length p) × Copied d m st'') (write dst p st')
  copy_written m p st' asked le w taken left cnt took =
      let (same, apart') = Same-Took dst.chunks took apart in
      let all : length p ≡ k =
        omega (arith, ap length taken, length-take k (content st src.chunks)) in
      Returns.mono (write-Wrote dst p (IsValid-Same dst same v) (fills st' p same asked all))
        λ (d, n) st'' (v', counted, cnt', wrote, full).
          let (same', apart'') =
            Same-Wrote m.chunks wrote w.chain (Disjoint-sym dst.chunks m.chunks apart') in
          (
            counted,
            (
              record {
                dst_IsValid = v';
                src_IsValid = IsValid-Same m same' w;
                arrived =
                    wrote.bytes ∙ ap₂ (λ s t. s ++ t) (content-Same st st' dst.chunks same) taken;
                left = content-Same st' st'' m.chunks same' ∙ left;
                dst_counted = cnt' ∙ ap (λ i. (dst.write_cnt + i) % 2 ^ 32) all;
                src_counted = cnt;
              },
              Disjoint-sym m.chunks d.chunks apart'',
              full,
            ),
          )

-- Where the last chunk of the destination is full, the whole call shares.
full-Moved :
    {st : Store} (fuel : ℕ) (dst src : Marshal) (n : ℕ)
    → IsValid st dst
    → IsValid st src
    → Disjoint dst.chunks src.chunks
    → n ≤ length (content st src.chunks)
    → tail_full dst.chunks st ≡ some (true, st)
    → Returns (λ r st'. Moved st dst src n r.0 r.1 st') (read_from_marshal (suc fuel) dst src n st)
unfolding read_from_marshal
full-Moved {st} fuel dst src n v w apart le full =
    rw (content_size-length w, le→leb n _ le, full) (share-Moved st dst src n v w apart le full)

-- `read_from_marshal(m, n)` for two objects that share no raw_bytes, where `0 < n` and `m` has `n` bytes:
-- it returns, and no assertion fails. The first `n` bytes of `m` move behind what the object held; both
-- objects are in order; `write_cnt_` of the first counts the bytes modulo 2^32.
pub read_from_marshal-Moves :
    {st : Store} (dst src : Marshal) (n : ℕ)
    → IsValid st dst
    → IsValid st src
    → Disjoint dst.chunks src.chunks
    → 0 < n
    → n ≤ length (content st src.chunks)
    → Returns (λ r st'. Moved st dst src n r.0 r.1 st') (read_from_marshal 2 dst src n st)
unfolding read_from_marshal
read_from_marshal-Moves {st} dst src n v w apart asked le =
    elim (tail-cases st dst.chunks v.chain) [
      | inl full ↦ full-Moved 1 dst src n v w apart le (full.is_full st (Same-refl st dst.chunks))
      | inr o ↦
          let k : ℕ = min o.spare n in
          rw
            (
              content_size-length w,
              le→leb n _ le,
              o.is_open st (Same-refl st dst.chunks),
              o.room_is st (Same-refl st dst.chunks),
            )
            (Returns.bind (read-Takes src k w) λ (m, p) st' (w', taken, left, cnt, took).
              rw
                ((==_iff (length p) k).1
                  (omega (arith, ap length taken, length-take k (content st src.chunks))))
                (Returns.bind
                  (copy_written dst src k v o apart m p st' (omega (arith, o.some_spare))
                    (omega arith) w' taken left cnt took)
                  λ (d, n_write) st'' (all, (moved, apart', full)).
                    rw ((==_iff n_write (length p)).1 all) (elim (Bool-cases (ltb 0 (n - k))) [
                      | inl more ↦
                          rw (more, full (ground arith))
                            (Returns.bind
                              (full-Moved 0 d m (n - k) moved.dst_IsValid moved.src_IsValid apart'
                                (enough_behind moved) (full (ground arith)))
                              λ r st3 moved'. rw (content_size-length moved'.dst_IsValid) (
                                returns (
                                  subst (λ i. Moved st dst src i r.0 r.1 st3) (omega arith)
                                    (Moved-trans k (n - k) moved moved'))))
                      | inr done ↦
                          rw (done, content_size-length moved.dst_IsValid)
                            (returns
                              (subst (λ i. Moved st dst src i d m st'') (ground arith) moved))
                    ])))
    ]
  where
    enough_behind :
        {k : ℕ} {d m : Marshal} {st' : Store}
        → Moved st dst src k d m st'
        → n - k ≤ length (content st' m.chunks)
    enough_behind {k} moved =
        omega (arith, ap length moved.left, length-drop k (content st src.chunks))
