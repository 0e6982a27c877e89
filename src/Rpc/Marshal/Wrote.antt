-- ===== src/Rpc/Marshal/Wrote.antt =====
-- What `Marshal::write` does at the last chunk.
use simple_rpc.Prelude.{
  refl, ℕ, ◌<◌, ◌≤◌, ◌≡◌, ◌≢◌, sym, ap, ap₂, subst, lt→ltb, ==_iff, ◌∙◌, arith, Bool-cases, inl,
  inr, ltb, ◌==◌, List, [], ◌∷◌, ◌++◌, length, take, drop, get_elem?, length-append, length-set,
  length-splice, append-nil, append_assoc, take_all, take-append-drop, get_elem?-set_ne,
  get_elem?-append_lt, get_elem?-lt-length,
}
use simple_rpc.Rpc.Buffer.{Chunk}
use simple_rpc.Rpc.Buffer.Store.{Store, min_size}
use simple_rpc.Rpc.Buffer.Returns
use simple_rpc.Rpc.Buffer.Returns.{Returns, returns}
use simple_rpc.Rpc.Buffer.Laws.{Holds, visible, chunk_bytes, fully_written_lem}
use simple_rpc.Rpc.Buffer.Writes.{
  grown, filled, chunk_of, new_chunk_from_lem, Holds-grown, chunk_bytes-grown, chunk_of-Holds,
  chunk_bytes-chunk_of, filled_room, room, written, after, store_after, after-Holds, fits_after,
  length-put, chunk_bytes-write, write_lem,
}
use simple_rpc.Rpc.Marshal.{write_tail}
use simple_rpc.Rpc.Marshal.Place.{Kept, Kept-nil, Kept-cons, Kept-grown}
use simple_rpc.Rpc.Marshal.Chain.{content, Apart, Joined, Chain, Holds-moved}

-- After a write of `p`: the chunks are in order and hold what they held, then `p`; an object that is
-- under none of them is as it was, and is still under none of them.
pub record Wrote (st : Store) (cs : List Chunk) (p : List ℕ) (cs' : List Chunk) (st' : Store)
    : Type 0 where
  pub chain : Chain st' cs'
  pub bytes : content st' cs' ≡ content st cs ++ p
  pub grows : length st ≤ length st'
  pub kept : Kept cs cs'
  pub frame :
      (x : ℕ) → x < length st → Apart x cs → (get_elem? st' x ≡ get_elem? st x) × Apart x cs'

pub Wrote-refl : (st : Store) (cs : List Chunk) → Chain st cs → Wrote st cs [] cs st
Wrote-refl st cs h = record {
  chain = h;
  bytes = sym (append-nil (content st cs));
  grows = omega arith;
  kept = λ k at e. e;
  frame = λ x lt a. (refl, a);
}

pub Wrote-trans :
    {st st' st'' : Store} {cs cs' cs'' : List Chunk} {p q : List ℕ}
    → Wrote st cs p cs' st'
    → Wrote st' cs' q cs'' st''
    → Wrote st cs (p ++ q) cs'' st''
Wrote-trans {cs} {p} {q} v w = record {
  chain = w.chain;
  bytes = w.bytes ∙ ap (λ t. t ++ q) v.bytes ∙ append_assoc (content _ cs) p q;
  grows = omega (arith, v.grows, w.grows);
  kept = λ k at e. w.kept k at (v.kept k at e);
  frame = λ x lt a.
      let (e, b) = v.frame x lt a in
      let (e', b') = w.frame x (omega (arith, v.grows)) b in (e' ∙ e, b');
}

-- A chunk that holds `p`, alone in a new object.
module _ (st : Store) (p : List ℕ) where
  chunk_of-Chain : Chain (grown st (filled p)) (chunk_of st p ∷ [])
  unfolding chunk_of-Holds min_size
  chunk_of-Chain = (chunk_of-Holds st p, omega (arith, filled_room st p), tt, tt)

  chunk_of-content : content (grown st (filled p)) (chunk_of st p ∷ []) ≡ p
  chunk_of-content = append-nil _ ∙ chunk_bytes-chunk_of st p

  chunk_of-frame :
      (x : ℕ)
      → x < length st
      → (get_elem? (grown st (filled p)) x ≡ get_elem? st x) × (x ≢ (chunk_of st p).data_)
  chunk_of-frame x lt = (get_elem?-append_lt st _ x lt, (λ e. absurd (omega arith)))

  length-grown : length st ≤ length (grown st (filled p))
  length-grown = omega (arith, length-append st (filled p ∷ []))

  pub write_nil : Wrote st [] p (chunk_of st p ∷ []) (grown st (filled p))
  write_nil = record {
    chain = chunk_of-Chain;
    bytes = chunk_of-content;
    grows = length-grown;
    kept = Kept-nil (chunk_of st p ∷ []);
    frame = λ x lt a. let (e, ne) = chunk_of-frame x lt in (e, (ne, tt));
  }

module _ {st : Store} {c : Chunk} (h : Holds st c) (unread : c.read_idx < length h.raw.bytes) where
  -- Behind a chunk that is written to the end, the bytes go to a new one.
  pub write_behind :
      (p : List ℕ)
      → c.write_idx ≡ length h.raw.bytes
      → Wrote st (c ∷ []) p (c ∷ chunk_of st p ∷ []) (grown st (filled p))
  unfolding Holds-grown
  write_behind p full = record {
    chain = (
      Holds-grown (filled p) c h,
      (full, omega arith),
      ((λ e. absurd (omega (arith, get_elem?-lt-length st c.data_ h.here))), tt),
      chunk_of-Chain st p,
    );
    bytes =
        ap₂ (λ s t. s ++ t) (chunk_bytes-grown (filled p) c h) (chunk_of-content st p)
        ∙ ap (λ s. s ++ p) (sym (append-nil (chunk_bytes st c)));
    grows = length-grown st p;
    kept = Kept-cons c [] (chunk_of st p ∷ []) (Kept-nil (chunk_of st p ∷ []));
    frame = λ x lt a. let (e, ne) = chunk_of-frame st p x lt in (e, (a.0, (ne, tt)));
  }

  -- Into a chunk that has room, as much goes as fits.
  pub write_into :
      (p : List ℕ) → Wrote st (c ∷ []) (take (room h p) p) (after h p ∷ []) (store_after h p)
  unfolding after-Holds
  write_into p = record {
    chain = (
      after-Holds h p,
      omega (
        arith,
        unread,
        length-splice h.raw.bytes c.write_idx (take (room h p) p),
        fits_after h p,
        length-put h p,
      ),
      tt,
      tt,
    );
    bytes =
        append-nil _
        ∙ chunk_bytes-write h p
        ∙ ap (λ s. s ++ take (room h p) p) (sym (append-nil _));
    grows = omega (arith, length-set st c.data_ (written h p));
    kept = Kept-grown c (room h p) [] h.ordered;
    frame = λ x lt a. (get_elem?-set_ne st c.data_ x (written h p) (λ e. a.0 (sym e)), (a.0, tt));
  }

-- The last chunk: all of `p` is written.
module _ {st : Store} {c : Chunk} (h : Holds st c) (unread : c.read_idx < length h.raw.bytes)
    (p : List ℕ) where
  length-written : length (written h p).bytes ≡ length h.raw.bytes
  length-written = omega (
    arith,
    length-splice h.raw.bytes c.write_idx (take (room h p) p),
    fits_after h p,
    length-put h p,
  )

  write_split :
      room h p < length p
      → Wrote st
          (c ∷ [])
          p
          (after h p ∷ chunk_of (store_after h p) (drop (room h p) p) ∷ [])
          (grown (store_after h p) (filled (drop (room h p) p)))
  unfolding after-Holds
  write_split more =
      subst
        (λ q.
          Wrote st (c ∷ []) q (after h p ∷ chunk_of (store_after h p) (drop (room h p) p) ∷ [])
            (grown (store_after h p) (filled (drop (room h p) p))))
        (take-append-drop (room h p) p)
        (Wrote-trans (write_into h unread p) (
          write_behind (after-Holds h p) (omega (arith, length-written)) (drop (room h p) p)
            (omega (arith, length-written))))

  write_fits : length p ≤ room h p → Wrote st (c ∷ []) p (after h p ∷ []) (store_after h p)
  write_fits enough =
      subst (λ q. Wrote st (c ∷ []) q (after h p ∷ []) (store_after h p))
        (take_all (room h p) p enough) (write_into h unread p)

  pub write_last : 0 < length p → Returns (Wrote st (c ∷ []) p) (write_tail (c ∷ []) p st)
  unfolding write_tail
  write_last some_bytes =
      rw (fully_written_lem h) (elim (Bool-cases (c.write_idx == length h.raw.bytes)) [
        | inl full ↦
            rw (full, new_chunk_from_lem st p)
              (returns (write_behind h unread p ((==_iff c.write_idx _).0 full)))
        | inr not_full ↦
            rw (not_full, write_lem h p, lt→ltb 0 (room h p) (ground arith))
              (elim (Bool-cases (ltb (room h p) (length p))) [
                | inl more ↦
                    rw (more, new_chunk_from_lem (store_after h p) (drop (room h p) p))
                      (returns (write_split (ground arith)))
                | inr enough ↦ rw enough (returns (write_fits (ground arith)))
              ])
      ])

pub Joined-nonempty :
    {st : Store} {c : Chunk} (h : Holds st c) (cs : List Chunk)
    → c.write_idx ≡ length h.raw.bytes
    → c.read_idx < c.write_idx
    → Joined h cs
Joined-nonempty h [] e lt = omega arith
Joined-nonempty h (d ∷ cs) e lt = (e, lt)

-- A chunk in front that is written to the end.
pub Wrote-cons :
    {st st' : Store} {c d : Chunk} {cs ds : List Chunk} {p : List ℕ}
    → Chain st (c ∷ d ∷ cs)
    → Wrote st (d ∷ cs) p ds st'
    → Wrote st (c ∷ d ∷ cs) p (c ∷ ds) st'
unfolding Holds-moved
Wrote-cons {st} {st'} {c} {d} {cs} {ds} {p} (h, j, a, hs) w =
    let (e, apart) = w.frame c.data_ (get_elem?-lt-length st c.data_ h.here) a in
    record {
      chain = (
        Holds-moved e h,
        Joined-nonempty (Holds-moved {st' = st'} e h) ds j.0 j.1,
        apart,
        w.chain,
      );
      bytes =
          ap₂ (λ r t. visible r c ++ t) e w.bytes
          ∙ sym (append_assoc (chunk_bytes st c) (content st (d ∷ cs)) p);
      grows = w.grows;
      kept = Kept-cons c (d ∷ cs) ds w.kept;
      frame = λ x lt b. let (e', b') = w.frame x lt b.1 in (e', (b.0, b'));
    }

pub write_tail-Wrote :
    (st : Store) (cs : List Chunk) (p : List ℕ)
    → Chain st cs
    → 0 < length p
    → Returns (Wrote st cs p) (write_tail cs p st)
unfolding write_tail
write_tail-Wrote st [] p h some_bytes = rw (new_chunk_from_lem st p) (returns (write_nil st p))
write_tail-Wrote st (c ∷ []) p (h, j, a, hs) some_bytes = write_last h j p some_bytes
write_tail-Wrote st (c ∷ d ∷ cs) p (h, j, a, hs) some_bytes =
    Returns.bind (write_tail-Wrote st (d ∷ cs) p hs some_bytes)
      (λ ds st' w. returns (Wrote-cons (h, j, a, hs) w))
