-- ===== src/Rpc/Marshal/Receive/Arrives.antt =====
-- What `Marshal::read_from_fd` of rpc/marshal.cc appends.
use simple_rpc.Prelude.{
  ℕ, zero, suc, take-take, take_all, length-take, take_nil, ◌∙◌, ◌+◌, ◌-◌, ◌%◌, ◌^◌, ◌<◌, ◌≡◌, refl,
  sym, ap, subst, arith, Bool-cases, inl, inr, ltb, ==_iff, ◌==◌, if◌then◌else◌, List, [], ◌∷◌,
  ◌++◌, length, take, length-append, some, if_case, nil_of_length,
}
use simple_rpc.Rpc.Buffer
use simple_rpc.Rpc.Buffer.{Chunk}
use simple_rpc.Rpc.Buffer.Store.{Store, Cmd, min_size}
use simple_rpc.Rpc.Buffer.Returns
use simple_rpc.Rpc.Buffer.Returns.{Returns, returns}
use simple_rpc.Rpc.Buffer.Laws.{Holds, check_lem, size_lem, fully_written_lem}
use simple_rpc.Rpc.Buffer.Writes.{
  room, after, store_after, after-Holds, store_at_lem, length-put, filled_room, chunk_of-Holds,
}
use simple_rpc.Rpc.Marshal.{Marshal}
use simple_rpc.Rpc.Marshal.Chain.{content, IsValid, Chain, check_head_lem, content_size-length}
use simple_rpc.Rpc.Marshal.Wrote.{
  Wrote, Wrote-cons, Wrote-trans, write_nil, write_behind, write_into,
}
use simple_rpc.Rpc.Marshal.Bookmark.Mark.{new_chunk_lem}
use simple_rpc.Rpc.Marshal.Receive.{chunk_read_from_fd, receive_tail, receive_loop, read_from_fd}

-- What a call takes of the bytes that are there: the first ones, and one at least if there are any.
abbrev pub Taken : List ℕ → List ℕ → Type 0
Taken there p = (k : ℕ) × (0 < k) × (p ≡ take k there)

-- The bytes that come of the answers: of each answer the first ones, one at least, up to the first answer without
-- bytes.
pub data Came : List (List ℕ) → List ℕ → Type 0 where
  no_answer : Came [] []
  nothing : {later : List (List ℕ)} → Came ([] ∷ later) []
  some_bytes :
      {there p q : List ℕ} {later : List (List ℕ)}
      → Taken there p
      → 0 < length p
      → Came later q
      → Came (there ∷ later) (p ++ q)

-- After a round: the bytes that came are appended, and were the first that were there.
Arrived : List ℕ → Store → List Chunk → List Chunk × List ℕ → Store → Type 0
Arrived there st cs (cs', p) st' = Wrote st cs p cs' st' × Taken there p

module _ {st : Store} {c : Chunk} (h : Holds st c) (there : List ℕ) where
  chunk_read_lem :
      chunk_read_from_fd there c st
      ≡ some ((after h there, take (room h there) there), store_after h there)
  unfolding chunk_read_from_fd
  chunk_read_lem =
      let came : (if ltb c.write_idx (length h.raw.bytes) then take (room h there) there else [])
          ≡ take (room h there) there =
        (elim (Bool-cases (ltb c.write_idx (length h.raw.bytes))) [
          | inl some_room ↦ rw some_room refl
          | inr no_room ↦
              let none_fits : room h there ≡ 0 = ground arith in rw (no_room, none_fits) refl
        ]) in
      let p = take (room h there) there in
      let same : after h there ≡ record c { write_idx = c.write_idx + length p } =
        ap (λ n. record c { write_idx = c.write_idx + n }) (sym (length-put h there)) in
      let checked =
        subst (λ d. Buffer.check d (store_after h there) ≡ some (tt, store_after h there)) same
          (check_lem (after-Holds h there)) in
      rw (check_lem h, size_lem h, came, store_at_lem h there, checked)
        (ap (λ d. some ((d, p), store_after h there)) (sym same))

  -- A chunk that is not full takes some.
  room-Taken : c.write_idx < length h.raw.bytes → Taken there (take (room h there) there)
  room-Taken free = (
    length h.raw.bytes - c.write_idx,
    omega arith,
    sym (take-take (length there) (length h.raw.bytes - c.write_idx) there)
        ∙ take_all (length there) (take (length h.raw.bytes - c.write_idx) there)
            (omega (arith, length-take (length h.raw.bytes - c.write_idx) there)),
  )

module _ (st : Store) (there : List ℕ) where
  receive_nil : Returns (Arrived there st []) (receive_tail there [] st)
  unfolding receive_tail Arrived chunk_of-Holds min_size
  receive_nil =
      let h = chunk_of-Holds st [] in
      rw (new_chunk_lem st, chunk_read_lem h there)
        (returns (
          Wrote-trans (write_nil st []) (write_into h (omega (arith, filled_room st [])) there),
          room-Taken h there (omega (arith, filled_room st [])),
        ))

  receive_single :
      (c : Chunk) (h : Holds st c)
      → c.read_idx < length h.raw.bytes
      → Returns (Arrived there st (c ∷ [])) (receive_tail there (c ∷ []) st)
  unfolding receive_tail Arrived chunk_of-Holds min_size
  receive_single c h unread =
      rw (fully_written_lem h) (elim (Bool-cases (c.write_idx == length h.raw.bytes)) [
        | inl full ↦
            let h' = chunk_of-Holds st [] in
            let front = write_behind h unread [] ((==_iff c.write_idx _).0 full) in
            rw (full, new_chunk_lem st, chunk_read_lem h' there)
              (returns (
                Wrote-trans front (
                    Wrote-cons front.chain
                      (write_into h' (omega (arith, filled_room st [])) there)),
                room-Taken h' there (omega (arith, filled_room st [])),
              ))
        | inr not_full ↦
            rw (not_full, chunk_read_lem h there)
              (returns (write_into h unread there, room-Taken h there (ground (arith, h.fits))))
      ])

receive_tail-Arrived :
    (there : List ℕ) (st : Store) (cs : List Chunk)
    → Chain st cs
    → Returns (Arrived there st cs) (receive_tail there cs st)
unfolding receive_tail Arrived
receive_tail-Arrived there st [] h = receive_nil st there
receive_tail-Arrived there st (c ∷ []) (h, j, a, hs) = receive_single st there c h j
receive_tail-Arrived there st (c ∷ d ∷ cs) (h, j, a, hs) =
    Returns.bind (receive_tail-Arrived there st (d ∷ cs) hs)
      λ (ds, p) st' (w, t). returns (Wrote-cons (h, j, a, hs) w, t)

-- After the loop.
Loop : List (List ℕ) → Store → List Chunk → List Chunk × List ℕ → Store → Type 0
Loop answers st cs (cs', p) st' = Wrote st cs p cs' st' × Came answers p

none_there : (there p : List ℕ) → Taken there p → p ≡ [] → there ≡ []
none_there [] p t e = refl
none_there (x ∷ there) p (zero, some_room, t) e = absurd (omega arith)
none_there (x ∷ there) p (suc k, some_room, t) e = absurd (impossible (sym t ∙ e))
  where
    impossible : (x ∷ take k there) ≡ [] → ⊥
    impossible e = cc

receive_loop-Arrived :
    (answers : List (List ℕ)) (st : Store) (cs : List Chunk)
    → Chain st cs
    → Returns (Loop answers st cs) (receive_loop answers cs st)
unfolding receive_loop Arrived Loop
receive_loop-Arrived [] st cs h =
    Returns.mono (receive_tail-Arrived [] st cs h) λ (cs', p) st' (w, (k, some_room, t)).
      (w, subst (λ q. Came [] q) (sym (t ∙ take_nil k)) no_answer)
receive_loop-Arrived (there ∷ later) st cs h =
    Returns.bind (receive_tail-Arrived there st cs h) λ (cs', p) st' (w, t).
      if_case (λ (k : Cmd (List Chunk × List ℕ)). Returns (Loop (there ∷ later) st cs) (k st'))
        (length p == 0)
        (λ none_came.
          let empty : p ≡ [] = nil_of_length p (ground arith) in
          returns (
            subst (λ q. Wrote st cs q cs' st') empty w,
            subst (λ a. Came (a ∷ later) []) (sym (none_there there p t empty)) nothing,
          ))
        (λ some_came.
          Returns.bind (receive_loop-Arrived later st' cs' w.chain) λ (cs'', q) st'' (w', came).
            returns (Wrote-trans w w', some_bytes t (ground arith) came))

-- `read_from_fd` returns and no assertion fails, whatever the kernel answers: the object has what it had,
-- then the bytes that came, and `write_cnt_` counts them modulo 2^32. Of each answer the first bytes came, one at
-- least if there was one, and the first answer without bytes is the last.
pub read_from_fd-Arrives :
    (answers : List (List ℕ)) (st : Store) (m : Marshal)
    → IsValid st m
    → Returns
        (λ (m', p) st'.
          IsValid st' m'
          × Came answers p
          × (content st' m'.chunks ≡ content st m.chunks ++ p)
          × (m'.write_cnt ≡ (m.write_cnt + length p) % 2 ^ 32))
        (read_from_fd answers m st)
unfolding read_from_fd Loop
read_from_fd-Arrives answers st m v = rw (check_head_lem m v) (
    Returns.bind (receive_loop-Arrived answers st m.chunks v.chain) λ (cs, p) st' (w, came).
      let m1 : Marshal = record {
        chunks = cs;
        write_cnt = (m.write_cnt + length p) % 2 ^ 32;
        content_size_ = m.content_size_ + length p;
      } in
      let v1 : IsValid st' m1 = record {
        chain = w.chain;
        counted =
            omega (arith, v.counted, ap length w.bytes, length-append (content st m.chunks) p);
      } in
      rw (content_size-length v1, check_head_lem m1 v1) (returns (v1, came, w.bytes, refl)))
