-- ===== src/Rpc/Marshal/Slice/Open.antt =====
-- A list of chunks whose last has room, and a write that fills it.
use simple_rpc.Prelude.{
  ℕ, ◌+◌, ◌-◌, ◌<◌, ◌≡◌, ◌⊎◌, refl, ap, arith, Bool-cases, inl, inr, true, false, lt→ltb, ltb, ◌==◌,
  ==_iff, List, [], ◌∷◌, length, some, take, length-splice,
}
use simple_rpc.Rpc.Buffer.{Chunk}
use simple_rpc.Rpc.Buffer.Store.{Store}
use simple_rpc.Rpc.Buffer.Returns
use simple_rpc.Rpc.Buffer.Returns.{Returns, returns}
use simple_rpc.Rpc.Buffer.Laws.{Holds, fully_written_lem, size_lem}
use simple_rpc.Rpc.Buffer.Writes.{
  room, written, store_after, after-Holds, fits_after, length-put, write_lem,
}
use simple_rpc.Rpc.Marshal.{write_tail}
use simple_rpc.Rpc.Marshal.Chain.{Chain, Holds-moved, Same}
use simple_rpc.Rpc.Marshal.Slice.{tail_full, tail_room}

-- The chunks are full, in every store that has the same objects under them.
pub record Full (st : Store) (cs : List Chunk) : Type 0 where
  pub is_full : (st' : Store) → Same st st' cs → tail_full cs st' ≡ some (true, st')

-- The last chunk has room for `spare` bytes, and a write of as many fills it.
pub record Open (st : Store) (cs : List Chunk) : Type 0 where
  pub spare : ℕ
  pub some_spare : 0 < spare
  pub is_open : (st' : Store) → Same st st' cs → tail_full cs st' ≡ some (false, st')
  pub room_is : (st' : Store) → Same st st' cs → tail_room cs st' ≡ some (spare, st')
  pub filled_up :
      (st' : Store)
      → Same st st' cs
      → (p : List ℕ) → length p ≡ spare
      → Returns
          (λ ds st''. (0 < length ds) × (tail_full ds st'' ≡ some (true, st'')))
          (write_tail cs p st')

module _ {st : Store} {c : Chunk} (h : Holds st c) where
  last-Full : c.write_idx ≡ length h.raw.bytes → Full st (c ∷ [])
  unfolding tail_full Holds-moved
  last-Full full = record {
    is_full =
        λ st' (s, _). rw (fully_written_lem (Holds-moved {st' = st'} s h), (==_iff _ _).1 full);
  }

  last_filled :
      (p : List ℕ)
      → 0 < length p
      → length p ≡ length h.raw.bytes - c.write_idx
      → Returns
          (λ ds st'. (0 < length ds) × (tail_full ds st' ≡ some (true, st')))
          (write_tail (c ∷ []) p st)
  unfolding write_tail tail_full after-Holds
  last_filled p some_bytes all =
      let not_full : (c.write_idx == length h.raw.bytes) ≡ false = ground arith in
      let end : c.write_idx + room h p ≡ length (written h p).bytes = omega (
        arith,
        length-splice h.raw.bytes c.write_idx (take (room h p) p),
        fits_after h p,
        length-put h p,
      ) in
      rw (fully_written_lem h, not_full, write_lem h p, lt→ltb 0 (room h p) (omega arith))
        (elim (Bool-cases (ltb (room h p) (length p))) [
          | inl more ↦ absurd (ground arith)
          | inr fits ↦ rw fits (
              returns (
                omega arith,
                rw (fully_written_lem (after-Holds h p))
                    (ap (λ b. some (b, store_after h p)) ((==_iff _ _).1 end)),
              ))
        ])

module _ {st : Store} {c : Chunk} (h : Holds st c) where
  last-Open : (c.write_idx == length h.raw.bytes) ≡ false → Open st (c ∷ [])
  unfolding tail_full tail_room Holds-moved
  last-Open e = record {
    spare = length h.raw.bytes - c.write_idx;
    some_spare = ground (arith, h.fits);
    is_open = λ st' (s, _). rw (fully_written_lem (Holds-moved {st' = st'} s h), e);
    room_is = λ st' (s, _). rw (size_lem (Holds-moved {st' = st'} s h));
    filled_up = λ st' (s, _) p all. last_filled (Holds-moved s h) p (ground (arith, h.fits)) all;
  }

-- A chunk in front of others changes nothing.
Full-cons : (st : Store) (c d : Chunk) (cs : List Chunk) → Full st (d ∷ cs) → Full st (c ∷ d ∷ cs)
unfolding tail_full
Full-cons st c d cs full = record { is_full = λ st' (_, ss). full.is_full st' ss }

Open-cons : (st : Store) (c d : Chunk) (cs : List Chunk) → Open st (d ∷ cs) → Open st (c ∷ d ∷ cs)
unfolding tail_full tail_room write_tail
Open-cons st c d cs o = record {
  spare = o.spare;
  some_spare = o.some_spare;
  is_open = λ st' (_, ss). o.is_open st' ss;
  room_is = λ st' (_, ss). o.room_is st' ss;
  filled_up = λ st' (_, ss) p all.
      Returns.bind (o.filled_up st' ss p all)
        λ ds st'' (some_chunk, full). returns (omega arith, behind ds st'' some_chunk full);
}
  where
    behind :
        (ds : List Chunk) (st'' : Store)
        → 0 < length ds
        → tail_full ds st'' ≡ some (true, st'')
        → tail_full (c ∷ ds) st'' ≡ some (true, st'')
    behind [] st'' some_chunk full = absurd (omega arith)
    behind (e ∷ es) st'' some_chunk full = full

pub tail-cases : (st : Store) (cs : List Chunk) → Chain st cs → Full st cs ⊎ Open st cs
unfolding tail_full
tail-cases st [] h = inl (record { is_full = λ st' ss. refl })
tail-cases st (c ∷ []) (h, j, a, hs) = elim (Bool-cases (c.write_idx == length h.raw.bytes)) [
  | inl e ↦ inl (last-Full h ((==_iff _ _).0 e))
  | inr e ↦ inr (last-Open h e)
]
tail-cases st (c ∷ d ∷ cs) (h, j, a, hs) = elim (tail-cases st (d ∷ cs) hs) [
  | inl full ↦ inl (Full-cons st c d cs full)
  | inr o ↦ inr (Open-cons st c d cs o)
]
