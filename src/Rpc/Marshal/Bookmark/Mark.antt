-- ===== src/Rpc/Marshal/Bookmark/Mark.antt =====
-- `set_bookmark` appends bytes that are not known yet, and says where they are.
use simple_rpc.Prelude.{
  ℕ, zero, suc, ◌+◌, ◌-◌, ◌<◌, ◌≡◌, max, refl, sym, ap, ap₂, subst, ◌∙◌, arith, Bool-cases, inl,
  inr, ltb, ◌==◌, ==_iff, List, [], ◌∷◌, ◌++◌, length, take, drop, some, replicate, length-append,
  length-take, length-drop, append-nil, take-split,
}
use simple_rpc.Rpc.Buffer
use simple_rpc.Rpc.Buffer.{Chunk}
use simple_rpc.Rpc.Buffer.Store.{Store, uninit, min_size, new_raw}
use simple_rpc.Rpc.Buffer.Returns
use simple_rpc.Rpc.Buffer.Returns.{Returns, returns}
use simple_rpc.Rpc.Buffer.Laws.{
  Holds, chunk_bytes, chunk_bytes_lem, length-chunk_bytes, check_lem, fully_written_lem,
}
use simple_rpc.Rpc.Buffer.Writes.{grown, filled, filled_room, chunk_of, chunk_of-Holds}
use simple_rpc.Rpc.Marshal.{Marshal}
use simple_rpc.Rpc.Marshal.Chain.{content, Chain, IsValid, size_slow_lem}
use simple_rpc.Rpc.Marshal.Place.{place, Kept, Kept-grown}
use simple_rpc.Rpc.Marshal.Wrote.{
  Wrote, Wrote-refl, Wrote-trans, Wrote-cons, write_nil, write_behind,
}
use simple_rpc.Rpc.Marshal.Bookmark.{mark_tail, mark_loop, set_bookmark}

-- A chunk that has one more byte.
abbrev pub marked : Chunk → Chunk
marked c = record c { write_idx = c.write_idx + 1 }

module _ {st : Store} {c : Chunk} (h : Holds st c) (room : c.write_idx < length h.raw.bytes) where
  unfoldable marked-Holds : Holds st (marked c)
  marked-Holds = record {
    raw = h.raw;
    here = h.here;
    alive = h.alive;
    ordered = omega (arith, h.ordered);
    fits = omega arith;
  }

  set_bookmark_lem : Buffer.set_bookmark c st ≡ some ((marked c, (c.data_, c.write_idx)), st)
  unfolding Buffer.set_bookmark
  set_bookmark_lem = rw (check_lem h, check_lem marked-Holds)

  -- The byte that is set aside, whatever it holds.
  abbrev gap : List ℕ
  gap = take 1 (drop (c.write_idx - c.read_idx) (drop c.read_idx h.raw.bytes))

  length-gap : length gap ≡ 1
  length-gap = omega (
    arith,
    h.ordered,
    length-take 1 (drop (c.write_idx - c.read_idx) (drop c.read_idx h.raw.bytes)),
    length-drop (c.write_idx - c.read_idx) (drop c.read_idx h.raw.bytes),
    length-drop c.read_idx h.raw.bytes,
  )

  mark_last : Wrote st (c ∷ []) gap (marked c ∷ []) st
  unfolding marked-Holds
  mark_last =
      let one_more : c.write_idx + 1 - c.read_idx - (c.write_idx - c.read_idx) ≡ 1 =
        omega (arith, h.ordered) in
      record {
        chain = (marked-Holds, omega (arith, h.ordered), tt, tt);
        bytes =
            append-nil _
            ∙ chunk_bytes_lem marked-Holds
            ∙ take-split (c.write_idx - c.read_idx) (c.write_idx + 1 - c.read_idx)
                (drop c.read_idx h.raw.bytes) (omega arith)
            ∙ ap₂
                (λ s k. s ++ take k (drop (c.write_idx - c.read_idx) (drop c.read_idx h.raw.bytes)))
                (sym (append-nil _ ∙ chunk_bytes_lem h)) one_more;
        grows = omega arith;
        kept = Kept-grown c 1 [] h.ordered;
        frame = λ x lt a. (refl, a);
      }

  place-mark_last : place (marked c ∷ []) (length (chunk_bytes st c)) ≡ some (c.data_, c.write_idx)
  unfolding place
  place-mark_last = ground (arith, length-chunk_bytes h, h.ordered)

pub new_chunk_lem : (st : Store) → Buffer.new_chunk st ≡ some (chunk_of st [], grown st (filled []))
unfolding Buffer.new_chunk new_raw
new_chunk_lem st =
    let same : max min_size min_size ≡ max 0 min_size - 0 = omega arith in
    ap (λ n. some (chunk_of st [], grown st (record { bytes = replicate n uninit; refcnt = 1 })))
      same

place-behind :
    {st : Store} {c : Chunk} (h : Holds st c) (cs : List Chunk) (k n : ℕ)
    → n ≡ length (chunk_bytes st c) + k
    → place (c ∷ cs) n ≡ place cs k
unfolding place
place-behind {c} h cs k n e =
    let same : n - (c.write_idx - c.read_idx) ≡ k = omega (arith, length-chunk_bytes h) in
    elim (Bool-cases (ltb n (c.write_idx - c.read_idx))) [
      | inl lt ↦ absurd (ground (arith, length-chunk_bytes h))
      | inr ge ↦ rw (ge, same)
    ]

-- After a round: one byte more, which is at the place that is told.
Marked : Store → List Chunk → List Chunk × (ℕ × ℕ) → Store → Type 0
Marked st cs (cs', at) st' =
    (g : List ℕ) × (length g ≡ 1)
    × Wrote st cs g cs' st'
    × (place cs' (length (content st cs)) ≡ some at)

module _ (st : Store) where
  new_room : (chunk_of st []).write_idx < length (filled []).bytes
  unfolding min_size
  new_room = omega (arith, filled_room st [])

  mark_nil : Returns (Marked st []) (mark_tail [] st)
  unfolding mark_tail Marked chunk_of-Holds place
  mark_nil =
      let h = chunk_of-Holds st [] in
      rw (new_chunk_lem st, set_bookmark_lem h (new_room))
        (returns (
          gap h new_room,
          length-gap h new_room,
          Wrote-trans (write_nil st []) (mark_last h new_room),
          refl,
        ))

  mark_single :
      (c : Chunk) (h : Holds st c)
      → c.read_idx < length h.raw.bytes
      → Returns (Marked st (c ∷ [])) (mark_tail (c ∷ []) st)
  unfolding mark_tail Marked chunk_of-Holds place
  mark_single c h unread =
      let size : length (content st (c ∷ [])) ≡ length (chunk_bytes st c) =
        ap length (append-nil (chunk_bytes st c)) in
      rw (fully_written_lem h) (elim (Bool-cases (c.write_idx == length h.raw.bytes)) [
        | inl full ↦
            let h' = chunk_of-Holds st [] in
            let front = write_behind h unread [] ((==_iff c.write_idx _).0 full) in
            let back = Wrote-cons front.chain (mark_last h' new_room) in
            rw (full, new_chunk_lem st, set_bookmark_lem h' new_room)
              (returns (
                gap h' new_room,
                length-gap h' new_room,
                Wrote-trans front back,
                place-behind h (marked (chunk_of st []) ∷ []) 0 _ (omega (arith, size)),
              ))
        | inr e ↦
            let room : c.write_idx < length h.raw.bytes = ground (arith, h.fits) in
            rw (e, set_bookmark_lem h room)
              (returns (
                gap h room,
                length-gap h room,
                mark_last h room,
                ap (place (marked c ∷ [])) size ∙ place-mark_last h room,
              ))
      ])

mark_tail-Marked :
    (st : Store) (cs : List Chunk) → Chain st cs → Returns (Marked st cs) (mark_tail cs st)
unfolding mark_tail Marked
mark_tail-Marked st [] h = mark_nil st
mark_tail-Marked st (c ∷ []) (h, j, a, hs) = mark_single st c h j
mark_tail-Marked st (c ∷ d ∷ cs) (h, j, a, hs) =
    Returns.bind (mark_tail-Marked st (d ∷ cs) hs) λ (ds, at) st' (g, one, w, pl). returns (
      g,
      one,
      Wrote-cons (h, j, a, hs) w,
      place-behind h ds (length (content st (d ∷ cs))) _
            (length-append (chunk_bytes st c) (content st (d ∷ cs)))
          ∙ pl,
    )

-- The places of the bytes behind the first `k`.
abbrev pub Marks : List Chunk → ℕ → List (ℕ × ℕ) → Type 0
Marks cs k [] = Unit {0}
Marks cs k (at ∷ bm) = (place cs k ≡ some at) × Marks cs (suc k) bm

pub Marks-Kept :
    (cs cs' : List Chunk) (k : ℕ) (bm : List (ℕ × ℕ)) → Kept cs cs' → Marks cs k bm → Marks cs' k bm
Marks-Kept cs cs' k [] kept m = tt
Marks-Kept cs cs' k (at ∷ bm) kept (here, m) = (kept k at here, Marks-Kept cs cs' (suc k) bm kept m)

-- After `n` rounds: `n` bytes more, at the places that are told.
abbrev pub Set : Store → List Chunk → ℕ → List Chunk × List (ℕ × ℕ) → Store → Type 0
Set st cs n (cs', bm) st' =
    (g : List ℕ) × (length g ≡ n)
    × (length bm ≡ n)
    × Wrote st cs g cs' st'
    × Marks cs' (length (content st cs)) bm

mark_loop-Set :
    (n : ℕ) (st : Store) (cs : List Chunk) → Chain st cs → Returns (Set st cs n) (mark_loop n cs st)
unfolding mark_loop Marked
mark_loop-Set zero st cs h = returns ([], refl, refl, Wrote-refl st cs h, tt)
mark_loop-Set (suc n) st cs h =
    Returns.bind (mark_tail-Marked st cs h) λ (cs', at) st' (g, one, w, pl).
      Returns.bind (mark_loop-Set n st' cs' w.chain) λ (cs'', bm) st'' (g', size, size', w', marks).
        returns (
          g ++ g',
          omega (arith, length-append g g'),
          ap suc size',
          Wrote-trans w w',
          (w'.kept _ at pl, subst (λ k. Marks cs'' k bm) (next cs cs' g st' one w) marks),
        )
  where
    next :
        (cs cs' : List Chunk) (g : List ℕ) (st' : Store)
        → length g ≡ 1
        → Wrote st cs g cs' st'
        → length (content st' cs') ≡ suc (length (content st cs))
    next cs cs' g st' one w = omega (arith, ap length w.bytes, length-append (content st cs) g)

-- `set_bookmark(n)` of an object whose `write_cnt_` is 0: it returns and no assertion fails.
pub set_bookmark-Set :
    (n : ℕ) (st : Store) (m : Marshal)
    → IsValid st m
    → m.write_cnt ≡ 0
    → Returns
        (λ (m', bm) st'.
          IsValid st' m' × (m'.write_cnt ≡ 0) × Set st m.chunks n (m'.chunks, bm) st')
        (set_bookmark n m st)
unfolding set_bookmark
set_bookmark-Set n st m v unwritten = rw ((==_iff m.write_cnt 0).1 unwritten) (
    Returns.bind (mark_loop-Set n st m.chunks v.chain) λ (cs, bm) st' (g, size, size', w, marks).
      let counted : m.content_size_ + n ≡ length (content st' cs) =
        omega (arith, v.counted, ap length w.bytes, length-append (content st m.chunks) g) in
      rw (size_slow_lem st' cs w.chain, (==_iff _ _).1 counted)
        (returns
          (record { chain = w.chain; counted = counted }, unwritten, (g, size, size', w, marks))))
