-- ===== src/Rpc/Marshal/Read.antt =====
-- `Marshal::read` takes the front of the content.
use simple_rpc.Prelude.{
  ℕ, zero, suc, ◌+◌, ◌-◌, ◌<◌, ◌≤◌, ◌≡◌, ◌⊎◌, min, refl, ap, ◌∙◌, arith, Bool-cases, inl, inr,
  false, ltb, leb, ◌&&◌, ◌==◌, ==_iff, le→leb, List, [], ◌∷◌, length, take, drop, some, length-take,
  length-drop,
}
use simple_rpc.Rpc.Buffer.{Chunk}
use simple_rpc.Rpc.Buffer.Store.{Store}
use simple_rpc.Rpc.Buffer.Returns
use simple_rpc.Rpc.Buffer.Returns.{Returns, returns}
use simple_rpc.Rpc.Buffer.Laws.{
  Holds, chunk_bytes, length-chunk_bytes, read_lem, content_size_lem, fully_read_lem, advance,
  n_moved, Holds-advance, advance-Holds, chunk_bytes-advance,
}
use simple_rpc.Rpc.Buffer.Writes.{released, delete_chunk_lem}
use simple_rpc.Rpc.Marshal.{Marshal, read_loop, read, drop_read_head, read_fuel}
use simple_rpc.Rpc.Marshal.Chain.{
  content, Joined, Chain, IsValid, Chain-Same, Same-set, check_head_lem, content_size-length,
}
use simple_rpc.Rpc.Marshal.Peek.{content_none}
use simple_rpc.Rpc.Marshal.Took.{Took, Took-none, Took-removed, Took-advanced}

-- The chunk after a round, which did not read it to its end.
pub Joined-advance :
    {st : Store} {c : Chunk} (h : Holds st c) (n : ℕ) (cs : List Chunk)
    → Joined h cs
    → (c.read_idx + n_moved c n == length h.raw.bytes) ≡ false
    → Joined (advance-Holds h n) cs
unfolding advance-Holds Holds-advance
Joined-advance h n [] j e = ground (arith, h.fits, h.ordered)
Joined-advance h n (d ∷ cs) (full, lt) e = (full, ground arith)

-- A chunk that stays has what is asked for, or is the last.
pub not_removed :
    {st : Store} {c : Chunk} (h : Holds st c) (n : ℕ) (cs : List Chunk)
    → Joined h cs
    → (c.read_idx + n_moved c n == length h.raw.bytes) ≡ false
    → (n ≤ length (chunk_bytes st c)) ⊎ (cs ≡ [])
not_removed h n [] j e = inr refl
not_removed h n (d ∷ cs) j e = inl (ground (arith, length-chunk_bytes h))

-- The loop stops at a chunk where nothing is asked for or nothing is there.
read_loop_stop :
    (fuel : ℕ) (st : Store) (c : Chunk) (cs : List Chunk) (n : ℕ) (h : Holds st c)
    → 0 < fuel
    → (n ≡ 0) ⊎ (length (chunk_bytes st c) ≡ 0)
    → read_loop fuel (c ∷ cs) n st ≡ some ((c ∷ cs, []), st)
unfolding read_loop
read_loop_stop zero st c cs n h pos e = absurd (omega arith)
read_loop_stop (suc fuel) st c cs n h pos e =
    rw (content_size_lem h) (ground (arith, e, length-chunk_bytes h))

-- A round leaves nothing to be asked for, or nothing in the chunk.
used_up :
    {st : Store} {c : Chunk} (h : Holds st c) (n : ℕ)
    → (n - length (take n (chunk_bytes st c)) ≡ 0) ⊎ (length (chunk_bytes st (advance c n)) ≡ 0)
used_up {st} {c} h n = elim (Bool-cases (leb n (length (chunk_bytes st c)))) [
  | inl le ↦ inl (ground (arith, length-take n (chunk_bytes st c)))
  | inr gt ↦ inr (rw (chunk_bytes-advance h n) (ground (arith, length-drop n (chunk_bytes st c))))
]

nothing_asked_or_there :
    (st : Store) (c : Chunk) (cs : List Chunk) (n : ℕ) (h : Chain st (c ∷ cs))
    → (ltb 0 n && ltb 0 (c.write_idx - c.read_idx)) ≡ false
    → (n ≡ 0) ⊎ (content st (c ∷ cs) ≡ [])
nothing_asked_or_there st c cs n h stop = elim (Bool-cases (n == 0)) [
  | inl e ↦ inl ((==_iff n 0).0 e)
  | inr ne ↦ inr (content_none st c cs h (ground (arith, length-chunk_bytes h.0)))
]

-- The loop ends, within its fuel and with no fault, and takes the first `n` bytes.
pub read_loop-Took :
    (fuel : ℕ) (st : Store) (cs : List Chunk) (n : ℕ)
    → Chain st cs
    → length cs < fuel
    → Returns (λ r. Took st cs n r.0 r.1) (read_loop fuel cs n st)
unfolding read_loop drop_read_head advance-Holds Holds-advance
read_loop-Took zero st cs n h fits = absurd (omega arith)
read_loop-Took (suc fuel) st [] n h fits = returns (Took-none st [] n h (inr refl))
read_loop-Took (suc fuel) st (c ∷ cs) n (h, j, a, hs) fits =
    elim (Bool-cases (ltb 0 n && ltb 0 (c.write_idx - c.read_idx))) [
      | inr stop ↦
          rw (content_size_lem h, stop)
            (returns (
              Took-none st (c ∷ cs) n (h, j, a, hs)
                (nothing_asked_or_there st c cs n (h, j, a, hs) stop)))
      | inl go ↦
          let asked : 0 < n = ground arith in
          let some_bytes : 0 < length (chunk_bytes st c) = ground (arith, length-chunk_bytes h) in
          let first = take n (chunk_bytes st c) in
          let moved : (length first == 0) ≡ false =
            ground (arith, length-take n (chunk_bytes st c)) in
          rw (content_size_lem h, go, read_lem h n, fully_read_lem (advance-Holds h n))
            (elim (Bool-cases (c.read_idx + n_moved c n == length h.raw.bytes)) [
              | inl full ↦
                  rw (full, delete_chunk_lem (advance-Holds h n), moved)
                    (Returns.bind
                      (read_loop-Took fuel (released h) cs (n - length first)
                        (Chain-Same st (released h) cs (Same-set st c.data_ _ cs a) hs)
                        (omega arith))
                      (λ r st' w. returns (
                        Took-removed st c cs n h j a hs some_bytes asked
                          (ground (arith, length-chunk_bytes h, h.fits)) w)))
              | inr rest ↦
                  rw
                    (
                      rest,
                      moved,
                      read_loop_stop fuel st (advance c n) cs (n - length first) (advance-Holds h n)
                          (omega arith) (used_up h n),
                    )
                    (returns (
                      Took-advanced st c cs n h j a hs some_bytes asked (not_removed h n cs j rest)
                        (Joined-advance h n cs j rest)))
            ])
    ]

-- `read(p, n)`: it takes the first `n` bytes off the content, or all if there are fewer; it returns them
-- with no fault, and no assertion fails. The bytes of every object of the store are as they were, and the
-- only references given back are those of the chunks that are gone.
pub read-Takes :
    {st : Store} (m : Marshal) (n : ℕ)
    → IsValid st m
    → Returns
        (λ (m', p) st'.
          IsValid st' m'
          × (p ≡ take n (content st m.chunks))
          × (content st' m'.chunks ≡ drop n (content st m.chunks))
          × (m'.write_cnt ≡ m.write_cnt)
          × Took st m.chunks n m'.chunks p st')
        (read m n st)
unfolding read
read-Takes {st} m n v = rw (check_head_lem m v) (
    Returns.bind (read_loop-Took (read_fuel m.chunks) st m.chunks n v.chain (omega arith))
      λ (cs, p) st' w.
        let m' = record m { chunks = cs; content_size_ = m.content_size_ - length p } in
        let n_read : length p ≡ min n (length (content st m.chunks)) =
          ap length w.taken ∙ length-take n (content st m.chunks) in
        let n_left : length (content st' cs) ≡ length (content st m.chunks) - n =
          ap length w.left ∙ length-drop n (content st m.chunks) in
        let v' : IsValid st' m' = record {
          chain = w.chain;
          counted = omega (arith, n_read, n_left, v.counted);
        } in
        let held : length p ≤ m.content_size_ = omega (arith, n_read, v.counted) in
        let asked : length p ≤ n = omega (arith, n_read) in
        rw
          (
            le→leb (length p) m.content_size_ held,
            content_size-length v',
            le→leb (length p) n asked,
            check_head_lem m' v',
          )
          (returns (v', w.taken, w.left, refl, w)))
