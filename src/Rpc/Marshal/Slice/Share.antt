-- ===== src/Rpc/Marshal/Slice/Share.antt =====
-- The loop of `read_from_marshal` that shares, over all its rounds.
use simple_rpc.Prelude.{
  ℕ, zero, suc, ◌+◌, ◌-◌, ◌<◌, ◌≤◌, ◌≡◌, ◌⊎◌, refl, ap, subst, arith, Bool-cases, inl, inr, ◌==◌,
  ==_iff, lt→ltb, List, [], ◌∷◌, length, some, length-append,
}
use simple_rpc.Rpc.Buffer.{Chunk}
use simple_rpc.Rpc.Buffer.Store.{Store}
use simple_rpc.Rpc.Buffer.Returns
use simple_rpc.Rpc.Buffer.Returns.{Returns, returns}
use simple_rpc.Rpc.Buffer.Laws.{
  Holds, chunk_bytes, length-chunk_bytes, content_size_lem, fully_read_lem, advance, n_moved,
  Holds-advance, advance-Holds,
}
use simple_rpc.Rpc.Buffer.Writes.{delete_chunk_lem}
use simple_rpc.Rpc.Marshal.{drop_read_head}
use simple_rpc.Rpc.Marshal.Read.{Joined-advance, not_removed}
use simple_rpc.Rpc.Marshal.Slice.Fetch.{
  Fetched, Fetched-none, Fetched-cut, Fetched-removed, gone, gone-Chain, gone_enough,
}
use simple_rpc.Rpc.Marshal.Chain.{content, Joined, Chain}
use simple_rpc.Rpc.Marshal.Slice.Shared.{
  shared, shared-Holds, cut-Holds, cut_copy_lem, n_fetched, n_fetched_lem, discard_fetched,
}
use simple_rpc.Rpc.Marshal.Slice.{fetch_loop}

fetch_loop_stop :
    (fuel : ℕ) (st : Store) (cs : List Chunk) (left : ℕ)
    → 0 < fuel
    → left ≡ 0
    → fetch_loop fuel cs left st ≡ some (([], cs), st)
unfolding fetch_loop
fetch_loop_stop zero st cs left pos e = absurd (omega arith)
fetch_loop_stop (suc fuel) st [] left pos e = rw e
fetch_loop_stop (suc fuel) st (c ∷ cs) left pos e = rw e

Joined-shared :
    {st : Store} {c : Chunk} (h : Holds st c) (cs : List Chunk)
    → Joined h cs
    → Joined (shared-Holds h) cs
unfolding shared-Holds
Joined-shared h [] j = j
Joined-shared h (d ∷ cs) j = j

-- A chunk that something is asked of has bytes left.
pub some_left :
    (st : Store) (c : Chunk) (cs : List Chunk) (n : ℕ) (h : Holds st c)
    → Joined h cs
    → 0 < n
    → n ≤ length (content st (c ∷ cs))
    → 0 < length (chunk_bytes st c)
some_left st c [] n h j asked le = omega (arith, length-append (chunk_bytes st c) [])
some_left st c (d ∷ cs) n h j asked le = omega (arith, length-chunk_bytes h)

-- A chunk that stays has what is asked for.
enough_left :
    (st : Store) (c : Chunk) (cs : List Chunk) (n : ℕ)
    → n ≤ length (content st (c ∷ cs))
    → (n ≤ length (chunk_bytes st c)) ⊎ (cs ≡ [])
    → n ≤ length (chunk_bytes st c)
enough_left st c cs n le (inl e) = e
enough_left st c cs n le (inr last) = omega (
  arith,
  length-append (chunk_bytes st c) (content st cs),
  ap (λ ds. length (content st ds)) last,
)

-- The loop ends, within its fuel and with no fault, and moves the first `n` bytes.
pub fetch_loop-Fetched :
    (fuel : ℕ) (st : Store) (cs : List Chunk) (n : ℕ)
    → Chain st cs
    → n ≤ length (content st cs)
    → length cs < fuel
    → Returns (λ r. Fetched st cs n r.0 r.1) (fetch_loop fuel cs n st)
unfolding fetch_loop drop_read_head advance-Holds Holds-advance shared-Holds
fetch_loop-Fetched zero st cs n h le fits = absurd (omega arith)
fetch_loop-Fetched (suc fuel) st [] n h le fits =
    rw ((==_iff n 0).1 (omega arith))
      (returns (subst (λ k. Fetched st [] k [] [] st) {x = 0} (omega arith) (Fetched-none st [] h)))
fetch_loop-Fetched (suc fuel) st (c ∷ cs) n (h, j, a, hs) le fits = elim (Bool-cases (n == 0)) [
  | inl stop ↦ rw stop (
      returns (
        subst (λ k. Fetched st (c ∷ cs) k [] (c ∷ cs) st) {x = 0} (ground arith)
          (Fetched-none st (c ∷ cs) (h, j, a, hs))))
  | inr go ↦
      let asked : 0 < n = ground arith in
      let some_bytes = some_left st c cs n h j asked le in
      let moved : 0 < n_fetched h n = omega (arith, n_fetched_lem h n) in
      rw
        (
          go,
          cut_copy_lem h n,
          content_size_lem (cut-Holds h n),
          lt→ltb 0 (n_fetched h n) moved,
          discard_fetched h n,
          (==_iff (n_fetched h n) _).1 refl,
          fully_read_lem (advance-Holds (shared-Holds h) n),
        )
        (elim (Bool-cases (c.read_idx + n_moved c n == length h.raw.bytes)) [
          | inl full ↦
              rw (full, delete_chunk_lem (advance-Holds (shared-Holds h) n))
                (Returns.bind
                  (fetch_loop-Fetched fuel (gone st c cs n h j a hs asked some_bytes) cs
                    (n - n_fetched h n) (gone-Chain st c cs n h j a hs asked some_bytes)
                    (gone_enough st c cs n h j a hs asked some_bytes le) (omega arith))
                  (λ r st' w. returns (
                    Fetched-removed st c cs n h j a hs asked some_bytes
                      (ground (arith, length-chunk_bytes h, h.fits))
                      (ground (arith, h.fits, h.ordered)) w)))
          | inr rest ↦
              let enough = enough_left st c cs n le (not_removed h n cs j rest) in
              rw
                (
                  rest,
                  fetch_loop_stop fuel (shared h) (advance c n ∷ cs) (n - n_fetched h n)
                      (omega arith) (omega (arith, n_fetched_lem h n)),
                )
                (returns (
                  Fetched-cut st c cs n h j a hs asked some_bytes enough
                    (Joined-advance (shared-Holds h) n cs (Joined-shared h cs j) rest)))
        ])
]
