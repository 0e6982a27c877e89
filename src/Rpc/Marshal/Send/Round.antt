-- ===== src/Rpc/Marshal/Send/Round.antt =====
-- One round of the loop of `write_to_fd`.
use simple_rpc.Prelude.{
  ℕ, ◌+◌, ◌-◌, ◌<◌, ◌≤◌, ◌≡◌, min, refl, sym, ap, ap₂, subst, ◌∙◌, arith, Bool-cases, inl, inr,
  false, ==_iff, ◌==◌, le→leb, some, List, [], ◌∷◌, ◌++◌, length, take, drop, length-take,
  length-drop, take-split, drop-drop, append-nil,
}
use simple_rpc.Rpc.Buffer.{Chunk}
use simple_rpc.Rpc.Buffer.Store.{Store, size}
use simple_rpc.Rpc.Buffer.Returns
use simple_rpc.Rpc.Buffer.Returns.{Returns, returns}
use simple_rpc.Rpc.Buffer.Laws.{
  Holds, chunk_bytes, size_lem, memory_lem, take-chunk_bytes, length-chunk_bytes, fully_read_lem,
  advance, n_moved, advance-Holds, Holds-advance,
}
use simple_rpc.Rpc.Buffer.Writes.{released, delete_chunk_lem}
use simple_rpc.Rpc.Marshal.{Marshal, drop_read_head}
use simple_rpc.Rpc.Marshal.Chain.{
  content, Apart, Joined, Chain, IsValid, Chain-Same, Same-set, first_unread,
}
use simple_rpc.Rpc.Marshal.Took.{Took, Took-none, Took-removed, Took-advanced}
use simple_rpc.Rpc.Marshal.Slice.Share.{some_left}
use simple_rpc.Rpc.Marshal.Read.{Joined-advance}
use simple_rpc.Rpc.Marshal.Send.{chunk_write_to_fd, send_head}

pub Took-trans :
    {st st' st'' : Store} {cs cs' cs'' : List Chunk} {p q : List ℕ} (a b : ℕ)
    → Took st cs a cs' p st'
    → Took st' cs' b cs'' q st''
    → Took st cs (a + b) cs'' (p ++ q) st''
Took-trans {st} {cs} a b v w = record {
  chain = w.chain;
  taken =
      ap₂ (λ x y. x ++ y) v.taken (w.taken ∙ ap (take b) v.left)
      ∙ ap (λ k. take a (content st cs) ++ take k (drop a (content st cs))) {x = b} (omega arith)
      ∙ sym (take-split a (a + b) (content st cs) (omega arith));
  left = w.left ∙ ap (drop b) v.left ∙ drop-drop b a (content st cs);
  still = w.still ∙ v.still;
  frame = λ x i. let (e, i') = v.frame x i in let (e', i'') = w.frame x i' in (e' ∙ e, i'');
  same_bytes = λ x. w.same_bytes x ∙ v.same_bytes x;
  balance = λ x. omega (arith, v.balance x, w.balance x);
}

chunk_write_to_fd_lem :
    {st : Store} {c : Chunk} (h : Holds st c) (takes : ℕ)
    → chunk_write_to_fd takes c st ≡ some ((advance c takes, take takes (chunk_bytes st c)), st)
unfolding chunk_write_to_fd
chunk_write_to_fd_lem {st} {c} h takes =
    rw
      (
        size_lem h,
        le→leb c.write_idx _ h.fits,
        memory_lem h c.read_idx (n_moved c takes) (omega (arith, h.ordered, h.fits)),
      )
      (ap (λ p. some ((advance c takes, p), st)) (take-chunk_bytes h takes))

module _ (st : Store) (c : Chunk) (cs : List Chunk) (h : Holds st c) (j : Joined h cs)
    (a : Apart c.data_ cs) (hs : Chain st cs) where
  -- A call that takes nothing leaves the chunks as they are.
  send_none :
      (k : ℕ)
      → k ≡ 0
      → Returns
          (λ r st'. Took st (c ∷ cs) (length r.1) r.0 r.1 st' × (length r.1 ≡ k))
          (send_head k (c ∷ cs) st)
  unfolding send_head drop_read_head advance-Holds Holds-advance
  send_none k zero_taken =
      let unread : (c.read_idx + n_moved c 0 == length h.raw.bytes) ≡ false =
        ground (arith, first_unread h cs j) in
      let same : advance c 0 ≡ c =
        ap (λ i. record c { read_idx = i }) {y = c.read_idx} (omega arith) in
      rw (zero_taken, chunk_write_to_fd_lem h 0, fully_read_lem (advance-Holds h 0), unread)
        (returns (
          subst (λ d. Took st (c ∷ cs) 0 (d ∷ cs) [] st) (sym same)
              (Took-none st (c ∷ cs) 0 (h, j, a, hs) (inl refl)),
          refl,
        ))

  -- A call that takes bytes of the chunk.
  send_some :
      (k : ℕ)
      → 0 < k
      → k ≤ length (chunk_bytes st c)
      → Returns
          (λ r st'. Took st (c ∷ cs) (length r.1) r.0 r.1 st' × (length r.1 ≡ k))
          (send_head k (c ∷ cs) st)
  unfolding send_head drop_read_head advance-Holds Holds-advance
  send_some k asked enough =
      let first = take k (chunk_bytes st c) in
      let count : length first ≡ k = omega (arith, length-take k (chunk_bytes st c)) in
      let some_bytes : 0 < length (chunk_bytes st c) = omega arith in
      let counted : (cs' : List Chunk) (st' : Store)
          → Took st (c ∷ cs) k cs' (first ++ []) st'
          → Took st (c ∷ cs) (length first) cs' first st' =
        λ cs' st' w.
          subst (λ p. Took st (c ∷ cs) (length first) cs' p st') (append-nil first)
            (subst (λ n. Took st (c ∷ cs) n cs' (first ++ []) st') (sym count) w) in
      rw (chunk_write_to_fd_lem h k, fully_read_lem (advance-Holds h k))
        (elim (Bool-cases (c.read_idx + n_moved c k == length h.raw.bytes)) [
          | inl full ↦
              rw (full, delete_chunk_lem (advance-Holds h k))
                (returns (
                  (
                    counted _ _ (
                        Took-removed st c cs k h j a hs some_bytes asked
                          (ground (arith, length-chunk_bytes h, h.fits))
                          (Took-none (released h) cs (k - length first)
                            (Chain-Same st (released h) cs (Same-set st c.data_ _ cs a) hs)
                            (inl (omega arith)))),
                    omega arith,
                  )))
          | inr rest ↦ rw rest (
              returns (
                (
                  counted _ _ (
                      Took-advanced st c cs k h j a hs some_bytes asked (inl enough)
                        (Joined-advance h k cs j rest)),
                  omega arith,
                )))
        ])

  -- The kernel takes no more than it is offered.
  send_capped : (takes : ℕ) → send_head takes (c ∷ cs) st ≡ send_head (n_moved c takes) (c ∷ cs) st
  unfolding send_head chunk_write_to_fd
  send_capped takes =
      let same : min (n_moved c takes) (c.write_idx - c.read_idx) ≡ n_moved c takes = omega arith in
      rw same

  send_head-Took :
      (takes : ℕ)
      → Returns
          (λ r st'. Took st (c ∷ cs) (length r.1) r.0 r.1 st' × (length r.1 ≡ n_moved c takes))
          (send_head takes (c ∷ cs) st)
  send_head-Took takes = rw (send_capped takes) (elim (Bool-cases (n_moved c takes == 0)) [
    | inl e ↦ send_none (n_moved c takes) ((==_iff _ 0).0 e)
    | inr ne ↦ send_some (n_moved c takes) (ground arith) (omega (arith, length-chunk_bytes h))
  ])

-- A round on an object that is not empty.
pub send_round :
    {st : Store} (m : Marshal) (takes : ℕ)
    → IsValid st m
    → (length (content st m.chunks) == 0) ≡ false
    → Returns
        (λ r st'.
          Took st m.chunks (length r.1) r.0 r.1 st'
          × (length r.1 ≤ takes)
          × (0 < takes → 0 < length r.1)
          × (length r.1 ≤ m.content_size_)
          × IsValid st' (record m { chunks = r.0; content_size_ = m.content_size_ - length r.1 }))
        (send_head takes m.chunks st)
send_round {st} m takes v some_bytes =
    Returns.mono (round m.chunks v.chain some_bytes) λ (cs, p) st' (w, le, progress).
      let count : length p ≡ min (length p) (length (content st m.chunks)) =
        ap length w.taken ∙ length-take (length p) (content st m.chunks) in
      (
        w,
        le,
        progress,
        omega (arith, v.counted, count),
        record {
          chain = w.chain;
          counted =
              omega
                (arith, v.counted, ap length w.left, length-drop (length p) (content st m.chunks));
        },
      )
  where
    round :
        (cs : List Chunk)
        → Chain st cs
        → (length (content st cs) == 0) ≡ false
        → Returns
            (λ r st'.
              Took st cs (length r.1) r.0 r.1 st'
              × (length r.1 ≤ takes)
              × (0 < takes → 0 < length r.1))
            (send_head takes cs st)
    round [] h e = absurd (ground arith)
    round (c ∷ cs) (h, j, a, hs) e =
        let there : 0 < length (chunk_bytes st c) =
          some_left st c cs 1 h j (omega arith) (ground arith) in
        Returns.mono (send_head-Took st c cs h j a hs takes)
          λ r st' (w, size). (w, omega arith, λ asked. omega (arith, size, length-chunk_bytes h))
