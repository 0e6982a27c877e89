-- ===== src/Rpc/Marshal/Send/Sends.antt =====
-- `write_to_fd` over all its rounds.
use simple_rpc.Prelude.{
  ℕ, ◌-◌, ◌<◌, ◌≤◌, ◌≡◌, refl, sym, ap, ap₂, subst, ◌∙◌, arith, Bool-cases, inl, inr, false, ==_iff,
  ◌==◌, le→leb, List, [], ◌∷◌, ◌++◌, length, All, length-drop, append-nil, nil_of_length,
  length-append, take-append-drop,
}
use simple_rpc.Rpc.Buffer.{Chunk}
use simple_rpc.Rpc.Buffer.Store.{Store}
use simple_rpc.Rpc.Buffer.Returns
use simple_rpc.Rpc.Buffer.Returns.{Returns, returns}
use simple_rpc.Rpc.Marshal.{Marshal}
use simple_rpc.Rpc.Marshal.Chain.{content, IsValid, empty_lem, size_slow_lem}
use simple_rpc.Rpc.Marshal.Took.{Took, Took-none}
use simple_rpc.Rpc.Marshal.Send.{send_loop, write_to_fd}
use simple_rpc.Rpc.Marshal.Send.Round.{Took-trans, send_round}

Sent : Store → Marshal → Marshal × List ℕ → Store → Type 0
Sent st m (m', p) st' =
    IsValid st' m' × (m'.write_cnt ≡ m.write_cnt) × Took st m.chunks (length p) m'.chunks p st'

-- After a round in which nothing went, the loop stops.
nothing_went :
    (st : Store) (m : Marshal) (cs : List Chunk) (p : List ℕ) (st' : Store)
    → length p ≡ 0
    → Took st m.chunks (length p) cs p st'
    → IsValid st' (record m { chunks = cs; content_size_ = m.content_size_ - length p })
    → Sent st m (record m { chunks = cs }, []) st'
unfolding Sent
nothing_went st m cs p st' none_sent w v = (
  record { chain = v.chain; counted = omega (arith, v.counted) },
  refl,
  subst (λ q. Took st m.chunks (length q) cs q st') (nil_of_length p none_sent) w,
)

already_empty : (st : Store) (m : Marshal) → IsValid st m → Sent st m (m, []) st
unfolding Sent
already_empty st m v = (v, refl, Took-none st m.chunks 0 v.chain (inl refl))

send_loop-Sent :
    (kernel : List ℕ) (st : Store) (m : Marshal)
    → IsValid st m
    → Returns (Sent st m) (send_loop kernel m st)
unfolding send_loop Sent
send_loop-Sent [] st m v = rw (empty_lem v) (elim (Bool-cases (length (content st m.chunks) == 0)) [
  | inl e ↦ rw e (returns (already_empty st m v))
  | inr e ↦ rw e (
      Returns.bind (send_round m 0 v e)
        λ (cs, p) st' (w, le, _, held, v'). returns (nothing_went st m cs p st' (omega arith) w v'))
])
send_loop-Sent (takes ∷ later) st m v =
    rw (empty_lem v) (elim (Bool-cases (length (content st m.chunks) == 0)) [
      | inl e ↦ rw e (returns (already_empty st m v))
      | inr e ↦ rw e (
          Returns.bind (send_round m takes v e) λ (cs, p) st' (w, le, _, held, v').
            elim (Bool-cases (length p == 0)) [
              | inl none_sent ↦
                  rw none_sent
                    (returns (nothing_went st m cs p st' ((==_iff _ 0).0 none_sent) w v'))
              | inr some_sent ↦
                  rw (some_sent, le→leb (length p) m.content_size_ held)
                    (Returns.bind
                      (send_loop-Sent later st'
                        (record m { chunks = cs; content_size_ = m.content_size_ - length p }) v')
                      λ (m', q) st'' (v'', cnt, w'). returns (
                        v'',
                        cnt,
                        subst (λ n. Took st m.chunks n m'.chunks (p ++ q) st'')
                            (sym (length-append p q)) (Took-trans (length p) (length q) w w'),
                      ))
            ])
    ])

-- `write_to_fd`, whatever the kernel takes: it returns, and no assertion fails. The bytes that went are
-- the first of the content, in order and each once, and the others are left; `write_cnt_` is as it was.
-- The bytes of every object of the store are as they were, and the only references given back are those
-- of the chunks that are gone.
pub write_to_fd-Sends :
    (kernel : List ℕ) (st : Store) (m : Marshal)
    → IsValid st m
    → Returns
        (λ (m', p) st'.
          IsValid st' m'
          × (p ++ content st' m'.chunks ≡ content st m.chunks)
          × (m'.write_cnt ≡ m.write_cnt)
          × Took st m.chunks (length p) m'.chunks p st')
        (write_to_fd kernel m st)
unfolding write_to_fd Sent
write_to_fd-Sends kernel st m v =
    Returns.bind (send_loop-Sent kernel st m v) λ (m', p) st' (v', cnt, w).
      rw (size_slow_lem st' m'.chunks v'.chain, (==_iff _ _).1 v'.counted)
        (returns (
          v',
          ap₂ (λ x y. x ++ y) w.taken w.left ∙ take-append-drop (length p) (content st m.chunks),
          cnt,
          w,
        ))

send_loop-Drains :
    (kernel : List ℕ) (st : Store) (m : Marshal)
    → IsValid st m
    → All (λ takes. 0 < takes) kernel
    → length (content st m.chunks) ≤ length kernel
    → Returns (λ r st'. content st' r.0.chunks ≡ []) (send_loop kernel m st)
unfolding send_loop
send_loop-Drains [] st m v pos enough =
    rw (empty_lem v, (==_iff (length (content st m.chunks)) 0).1 (omega arith))
      (returns (nil_of_length _ (omega arith)))
send_loop-Drains (takes ∷ later) st m v (asked, pos) enough =
    rw (empty_lem v) (elim (Bool-cases (length (content st m.chunks) == 0)) [
      | inl e ↦ rw e (returns (nil_of_length _ ((==_iff _ 0).0 e)))
      | inr e ↦ rw e (
          Returns.bind (send_round m takes v e) λ (cs, p) st' (w, le, progress, held, v').
            let went : 0 < length p = progress asked in
            let some_sent : (length p == 0) ≡ false = ground arith in
            rw (some_sent, le→leb (length p) m.content_size_ held)
              (Returns.bind
                (send_loop-Drains later st'
                  (record m { chunks = cs; content_size_ = m.content_size_ - length p }) v' pos
                  (omega (arith, ap length w.left, length-drop (length p) (content st m.chunks))))
                λ (m', q) st'' nil. returns nil))
    ])

-- Where the kernel takes at least one byte at every call, and is called as often as there are bytes,
-- `write_to_fd` writes the whole content, and leaves none.
pub write_to_fd-Drains :
    (kernel : List ℕ) (st : Store) (m : Marshal)
    → IsValid st m
    → All (λ takes. 0 < takes) kernel
    → length (content st m.chunks) ≤ length kernel
    → Returns
        (λ (m', p) st'. (p ≡ content st m.chunks) × (content st' m'.chunks ≡ []))
        (write_to_fd kernel m st)
unfolding write_to_fd Sent
write_to_fd-Drains kernel st m v pos enough =
    Returns.bind
      (Returns.both (send_loop-Sent kernel st m v) (send_loop-Drains kernel st m v pos enough))
      λ (m', p) st' ((v', cnt, w), nil).
        rw (size_slow_lem st' m'.chunks v'.chain, (==_iff _ _).1 v'.counted)
          (returns (
            sym (append-nil p)
                ∙ ap₂ (λ x y. x ++ y) w.taken (sym nil ∙ w.left)
                ∙ take-append-drop (length p) (content st m.chunks),
            nil,
          ))
