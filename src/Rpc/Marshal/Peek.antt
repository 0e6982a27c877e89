-- ===== src/Rpc/Marshal/Peek.antt =====
-- `Marshal::peek` gives the front of the content.
use simple_rpc.Prelude.{
  ℕ, ◌-◌, ◌<◌, ◌≤◌, ◌≡◌, ◌⊎◌, refl, sym, ap, ap₂, arith, Bool-cases, inl, inr, ◌==◌, ==_iff, le→leb,
  List, [], ◌∷◌, ◌++◌, length, take, some, length-take, take_nil, take-append_rest, nil_of_length,
}
use simple_rpc.Rpc.Buffer.{Chunk}
use simple_rpc.Rpc.Buffer.Store.{Store}
use simple_rpc.Rpc.Buffer.Laws.{Holds, chunk_bytes, length-chunk_bytes, peek_lem}
use simple_rpc.Rpc.Marshal.{Marshal, peek_loop, peek}
use simple_rpc.Rpc.Marshal.Chain.{content, Joined, Chain, IsValid, check_head_lem}

-- Only the last chunk can be without bytes.
no_more :
    {st : Store} {c : Chunk} (h : Holds st c) (cs : List Chunk)
    → Joined h cs
    → (c.write_idx < length h.raw.bytes) ⊎ (c.write_idx ≤ c.read_idx)
    → cs ≡ []
no_more h [] j e = refl
no_more h (d ∷ cs) j e = absurd (omega arith)

module _ (st : Store) where
  -- A chunk that gives nothing is the last, and there is no content.
  pub content_none :
      (c : Chunk) (cs : List Chunk)
      → Chain st (c ∷ cs)
      → length (chunk_bytes st c) ≡ 0
      → content st (c ∷ cs) ≡ []
  content_none c cs (h, j, a, hs) e =
      ap₂ (λ s t. s ++ t) (nil_of_length (chunk_bytes st c) e)
        (ap (content st) (no_more h cs j (inr (omega (arith, length-chunk_bytes h)))))

  pub peek_loop_lem :
      (cs : List Chunk) (n : ℕ)
      → Chain st cs
      → peek_loop cs n st ≡ some (take n (content st cs), st)
  unfolding peek_loop
  peek_loop_lem [] n h = rw (take_nil n)
  peek_loop_lem (c ∷ cs) n (h, j, a, hs) = elim (Bool-cases (n == 0)) [
    | inl z ↦
        rw z (ap (λ k. some (take k (content st (c ∷ cs)), st)) {x = 0} (sym ((==_iff n 0).0 z)))
    | inr nz ↦
        rw (nz, peek_lem h n)
          (elim (Bool-cases (length (take n (chunk_bytes st c)) == 0)) [
            | inl none_left ↦ rw (
              none_left,
              content_none c cs (h, j, a, hs) (ground (arith, length-take n (chunk_bytes st c))),
              take_nil n,
            )
            | inr more ↦
                rw (more, peek_loop_lem cs (n - length (take n (chunk_bytes st c))) hs)
                  (ap (λ t. some (t, st)) (take-append_rest n (chunk_bytes st c) (content st cs)))
          ])
  ]

  -- `peek(p, n)` gives the first `n` bytes of the content, or all if there are fewer; it changes
  -- nothing, and no assertion fails.
  pub peek-take :
      (m : Marshal) (n : ℕ) → IsValid st m → peek m n st ≡ some (take n (content st m.chunks), st)
  unfolding peek
  peek-take m n v = rw (
    check_head_lem m v,
    peek_loop_lem m.chunks n v.chain,
    le→leb (length (take n (content st m.chunks))) n
        (omega (arith, length-take n (content st m.chunks))),
    check_head_lem m v,
  )
