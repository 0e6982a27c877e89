-- ===== src/Rpc/Client/Request.antt =====
-- What a request of a Client is on the wire, and what becomes of the Futures when it is closed.
use simple_rpc.Prelude.{
  ℕ, ◌+◌, ◌<◌, ◌≡◌, refl, sym, ap, ◌∙◌, subst, List, ◌∷◌, ◌++◌, Option, none, some, if◌then◌else◌,
  true, false, ◌==◌, ==_iff, Bool-cases, inl, inr, arith,
}
use simple_rpc.Prelude.Int.{pos}
use simple_rpc.Prelude.Bytes.{le_bytes, length-le_bytes}
use simple_rpc.Prelude.Dict.{mem, Distinct}
use simple_rpc.Base.SparseInt.Counted.{sparse}
use simple_rpc.Rpc.Buffer.Store.{Store, Cmd, pure, ◌>>=◌}
use simple_rpc.Rpc.Buffer.Returns
use simple_rpc.Rpc.Buffer.Returns.{Returns, returns}
use simple_rpc.Rpc.Marshal.{Marshal}
use simple_rpc.Rpc.Marshal.Chain.{content, IsValid}
use simple_rpc.Rpc.Stream.Codec.{Codec}
use simple_rpc.Rpc.Stream.Codec.Basic.{put_word_lem}
use simple_rpc.Rpc.Stream.Codec.Varied.{put_v64_lem}
use simple_rpc.Rpc.Packet.{
  packet, end_packet, Begun, Framed, set_bookmark-Begun, Begun-Appended, write_size-Framed,
  mode_read_write,
}
use simple_rpc.Rpc.Client.{Client, connected, update_mode, start_packet, begin_request, end_request}
use simple_rpc.Rpc.Client.Futures.{new_future, ref_copy, with_future}

-- Between two packets.
pub record IsReady (st : Store) (c : Client) : Type 0 where
  pub valid : IsValid st c.out_
  pub reset : c.out_.write_cnt ≡ 0
  pub unmarked : c.bmark_ ≡ none

-- The table holds a reference to each Future in it, whose xid has been given out.
pub record IsTable (c : Client) : Type 0 where
  pub distinct : Distinct c.pending_fu_
  pub given : (x : ℕ) → mem x c.pending_fu_ ≡ true → x < c.xid_counter_
  pub held : (x : ℕ) → mem x c.pending_fu_ ≡ true → 0 < (c.futures x).refcnt_

-- A call of the client: the arguments are written between the two functions.
abbrev pub request : {A : Type 0} → Codec A → ℕ → A → Client → Cmd (Client × Option ℕ)
request codec rpc_id a c = do
  (c', fu) ← begin_request false rpc_id c
  m ← codec.put a c'.out_
  c'' ← end_request (record c' { out_ = m })
  pure (c'', fu)

start_packet-Begun :
    (st : Store) (c : Client) (rpc_id xid : ℕ)
    → IsReady st c
    → Returns
        (λ c' st'.
          (bm : List (ℕ × ℕ)) × (c'.bmark_ ≡ some bm)
          × Begun st c.out_ (sparse (pos xid) ++ le_bytes 4 rpc_id) c'.out_ bm st'
          × (c'.futures ≡ with_future xid (ref_copy (c.futures xid)) c.futures)
          × (c'.pending_fu_ ≡ c.pending_fu_)
          × (c'.xid_counter_ ≡ c.xid_counter_)
          × (c'.polls ≡ c.polls))
        (start_packet rpc_id xid c st)
unfolding start_packet
start_packet-Begun st c rpc_id xid r =
    Returns.bind (set_bookmark-Begun st c.out_ r.valid r.reset) λ (m, bm) st1 b.
      Returns.bind (put_v64_lem st1 m (pos xid) b.valid) λ m' st2 w.
        Returns.bind
          (put_word_lem 4 st2 m' rpc_id w.valid (omega (arith, length-le_bytes 4 rpc_id)))
          λ m'' st3 w'.
            returns (bm, refl, Begun-Appended (Begun-Appended b w) w', refl, refl, refl, refl)

end_request-Framed :
    {st st' : Store} {m : Marshal} {p : List ℕ} {bm : List (ℕ × ℕ)} (c : Client)
    → c.bmark_ ≡ some bm
    → Begun st m p c.out_ bm st'
    → Returns
        (λ c' st''.
          Framed st m p c'.out_ st''
          × (c' ≡ record c {
            out_ = c'.out_;
            bmark_ = none;
            polls = update_mode mode_read_write ∷ c.polls;
          }))
        (end_request c st')
unfolding end_request end_packet
end_request-Framed c e b = rw e (Returns.bind (write_size-Framed b) λ m' st'' f. returns (f, refl))

-- The xid of a new Future is not in the table.
new_xid : (c : Client) → IsTable c → mem c.xid_counter_ c.pending_fu_ ≡ false
new_xid c t = elim (Bool-cases (mem c.xid_counter_ c.pending_fu_)) [
  | inl here ↦ absurd (omega (arith, t.given c.xid_counter_ here))
  | inr new ↦ new
]

added-IsTable :
    (c c' : Client)
    → IsTable c
    → c'.pending_fu_ ≡ c.xid_counter_ ∷ c.pending_fu_
    → c'.xid_counter_ ≡ c.xid_counter_ + 1
    → ((x : ℕ) → (x == c.xid_counter_) ≡ false → c'.futures x ≡ c.futures x)
    → 0 < (c'.futures c.xid_counter_).refcnt_
    → IsTable c'
added-IsTable c c' t e counted others some_held = record {
  distinct = subst Distinct (sym e) (new_xid c t, t.distinct);
  given = λ x h. elim (Bool-cases (x == c.xid_counter_)) [
    | inl same ↦ omega (arith, counted, (==_iff x c.xid_counter_).0 same)
    | inr other ↦
        let h' : (if x == c.xid_counter_ then true else mem x c.pending_fu_) ≡ true =
          sym (ap (mem x) e) ∙ h in
        omega (arith, counted, t.given x (ground arith))
  ];
  held = λ x h. elim (Bool-cases (x == c.xid_counter_)) [
    | inl same ↦
        subst (λ y. 0 < (c'.futures y).refcnt_) (sym ((==_iff x c.xid_counter_).0 same)) some_held
    | inr other ↦
        let h' : (if x == c.xid_counter_ then true else mem x c.pending_fu_) ≡ true =
          sym (ap (mem x) e) ∙ h in
        subst (λ fu. 0 < fu.refcnt_) (sym (others x other)) (t.held x (ground arith))
  ];
}

begin_request-Begun :
    (st : Store) (c : Client) (rpc_id : ℕ)
    → IsReady st c
    → IsTable c
    → c.status_ ≡ connected
    → Returns
        (λ (c', fu) st'.
          (bm : List (ℕ × ℕ)) × (fu ≡ some c.xid_counter_)
          × (c'.bmark_ ≡ some bm)
          × Begun st c.out_ (sparse (pos c.xid_counter_) ++ le_bytes 4 rpc_id) c'.out_ bm st'
          × (c'.pending_fu_ ≡ c.xid_counter_ ∷ c.pending_fu_)
          × (c'.xid_counter_ ≡ c.xid_counter_ + 1)
          × (c'.futures c.xid_counter_ ≡ ref_copy new_future)
          × ((x : ℕ) → (x == c.xid_counter_) ≡ false → c'.futures x ≡ c.futures x)
          × (c'.polls ≡ c.polls))
        (begin_request false rpc_id c st)
unfolding begin_request
begin_request-Begun st c rpc_id r t up = rw up (
    Returns.bind
      (start_packet-Begun st _ rpc_id c.xid_counter_
        (record { valid = r.valid; reset = r.reset; unmarked = r.unmarked }))
      λ c' st' (bm, e, b, futures, pending, counter, polls). returns (
        bm,
        refl,
        e,
        b,
        pending ∙ rw (new_xid c t) refl,
        counter,
        ap (λ table. table c.xid_counter_) futures
            ∙ rw ((==_iff c.xid_counter_ c.xid_counter_).1 refl) refl,
        (λ x other. ap (λ table. table x) futures ∙ rw other refl),
        polls,
      ))

-- A request of a client that is connected and stays so: the output has one packet more, which carries the xid,
-- the rpc_id and the arguments behind their size. The Future has the xid, is in the table and has two
-- references; the table stays in order, and write events are asked for.
pub request-packet :
    {A : Type 0} (codec : Codec A) (st : Store) (c : Client) (rpc_id : ℕ) (a : A)
    → IsReady st c
    → IsTable c
    → c.status_ ≡ connected
    → codec.Ok a
    → Returns
        (λ (c', fu) st'.
          IsReady st' c'
          × IsTable c'
          × (fu ≡ some c.xid_counter_)
          × (content st' c'.out_.chunks
              ≡ content st c.out_.chunks
                ++ packet ((sparse (pos c.xid_counter_) ++ le_bytes 4 rpc_id) ++ codec.encode a))
          × (c'.pending_fu_ ≡ c.xid_counter_ ∷ c.pending_fu_)
          × (c'.futures c.xid_counter_ ≡ ref_copy new_future)
          × (c'.polls ≡ update_mode mode_read_write ∷ c.polls))
        (request codec rpc_id a c st)
request-packet codec st c rpc_id a r t up ok =
    Returns.bind (begin_request-Begun st c rpc_id r t up)
      λ (c1, fu) st1 (bm, e_fu, e, b, pending, counter, own, others, polls).
        Returns.bind (codec.put_lem st1 c1.out_ a b.valid ok) λ m st2 w.
          Returns.bind (end_request-Framed (record c1 { out_ = m }) e (Begun-Appended b w))
            λ c2 st3 (f, e2).
              let pending2 = ap (λ d. d.pending_fu_) e2 ∙ pending in
              let own2 = ap (λ d. d.futures c.xid_counter_) e2 ∙ own in
              returns (
                record { valid = f.valid; reset = f.reset; unmarked = ap (λ d. d.bmark_) e2 },
                added-IsTable c c2 t pending2 (ap (λ d. d.xid_counter_) e2 ∙ counter)
                    (λ x other. ap (λ d. d.futures x) e2 ∙ others x other)
                    (subst (λ fu. 0 < fu.refcnt_) (sym own2) (omega arith)),
                e_fu,
                f.bytes,
                pending2,
                own2,
                ap (λ d. d.polls) e2 ∙ ap (λ ps. update_mode mode_read_write ∷ ps) polls,
              )
