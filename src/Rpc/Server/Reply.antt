-- ===== src/Rpc/Server/Reply.antt =====
-- What a reply of a ServerTcpConnection is on the wire, and when the connection asks to be written to.
use simple_rpc.Prelude.{
  length, ◌==◌, ℕ, ◌≡◌, refl, ap, ◌∙◌, List, ◌∷◌, ◌++◌, none, some, if◌then◌else◌,
}
use simple_rpc.Prelude.Int.{ℤ}
use simple_rpc.Base.SparseInt.Counted.{sparse, sparse32}
use simple_rpc.Rpc.Buffer.Store.{Store, Cmd, ◌>>=◌}
use simple_rpc.Rpc.Buffer.Returns
use simple_rpc.Rpc.Buffer.Returns.{Returns, returns}
use simple_rpc.Rpc.Marshal.{Marshal}
use simple_rpc.Rpc.Marshal.Chain.{content, IsValid, empty_lem}
use simple_rpc.Rpc.Marshal.Send.Sends.{write_to_fd-Sends}
use simple_rpc.Rpc.Stream.Codec.{Codec}
use simple_rpc.Rpc.Stream.Codec.Varied.{put_v64_lem, put_v32_lem}
use simple_rpc.Rpc.Packet.{
  packet, end_packet, Begun, Framed, set_bookmark-Begun, Begun-Appended, write_size-Framed,
  mode_read, mode_read_write,
}
use simple_rpc.Rpc.Server.{TcpConnection, connected, begin_reply, end_reply, handle_write, send_out}

-- Between two packets.
pub record IsReady (st : Store) (c : TcpConnection) : Type 0 where
  pub valid : IsValid st c.out_
  pub reset : c.out_.write_cnt ≡ 0
  pub unmarked : c.bmark_ ≡ none

-- A reply as a service sends it: `marshal_reply_` writes the values that are returned.
abbrev pub reply : {A : Type 0} → Codec A → ℤ → ℤ → A → TcpConnection → Cmd TcpConnection
reply codec xid error_code a c = do
  c' ← begin_reply xid error_code c
  m ← codec.put a c'.out_
  end_reply (record c' { out_ = m })

begin_reply-Begun :
    (st : Store) (c : TcpConnection) (xid error_code : ℤ)
    → IsReady st c
    → Returns
        (λ c' st'.
          (bm : List (ℕ × ℕ)) × (c'.bmark_ ≡ some bm)
          × Begun st c.out_ (sparse xid ++ sparse32 error_code) c'.out_ bm st'
          × (c'.modes ≡ c.modes))
        (begin_reply xid error_code c st)
unfolding begin_reply
begin_reply-Begun st c xid error_code r =
    Returns.bind (set_bookmark-Begun st c.out_ r.valid r.reset) λ (m, bm) st1 b.
      Returns.bind (put_v64_lem st1 m xid b.valid) λ m' st2 w.
        Returns.bind (put_v32_lem st2 m' error_code w.valid)
          λ m'' st3 w'. returns (bm, refl, Begun-Appended (Begun-Appended b w) w', refl)

end_reply-Framed :
    {st st' : Store} {m : Marshal} {p : List ℕ} {bm : List (ℕ × ℕ)} (c : TcpConnection)
    → c.bmark_ ≡ some bm
    → Begun st m p c.out_ bm st'
    → Returns
        (λ c' st''.
          Framed st m p c'.out_ st'' × (c'.bmark_ ≡ none) × (c'.modes ≡ mode_read_write ∷ c.modes))
        (end_reply c st')
unfolding end_reply end_packet
end_reply-Framed c e b =
    rw e (Returns.bind (write_size-Framed b) λ m' st'' f. returns (f, refl, refl))

-- A reply between two packets: the output has one packet more, whose size is that of the xid, the error code
-- and the returned values behind it; write events are asked for, and the next reply can begin.
pub reply-packet :
    {A : Type 0} (codec : Codec A) (st : Store) (c : TcpConnection) (xid error_code : ℤ) (a : A)
    → IsReady st c
    → codec.Ok a
    → Returns
        (λ c' st'.
          IsReady st' c'
          × (content st' c'.out_.chunks
              ≡ content st c.out_.chunks
                ++ packet ((sparse xid ++ sparse32 error_code) ++ codec.encode a))
          × (c'.modes ≡ mode_read_write ∷ c.modes))
        (reply codec xid error_code a c st)
reply-packet codec st c xid error_code a r ok =
    Returns.bind (begin_reply-Begun st c xid error_code r) λ c1 st1 (bm, e, b, modes).
      Returns.bind (codec.put_lem st1 c1.out_ a b.valid ok) λ m st2 w.
        Returns.mono (end_reply-Framed (record c1 { out_ = m }) e (Begun-Appended b w))
          λ c' st' (f, unmarked, asked). (
            record { valid = f.valid; reset = f.reset; unmarked = unmarked },
            f.bytes,
            asked ∙ ap (λ ms. mode_read_write ∷ ms) modes,
          )

-- `handle_write` on an open connection: what went and what is left are the output, in this order, whatever
-- the kernel takes; only if nothing is left, the connection asks for read events alone.
pub handle_write-Sends :
    (answers : List ℕ) (st : Store) (c : TcpConnection)
    → IsReady st c
    → c.status_ ≡ connected
    → Returns
        (λ (c', sent) st'.
          IsReady st' c'
          × (sent ++ content st' c'.out_.chunks ≡ content st c.out_.chunks)
          × (c'.modes ≡ (
              if length (content st' c'.out_.chunks) == 0 then mode_read ∷ c.modes else c.modes)))
        (handle_write answers c st)
unfolding handle_write send_out
handle_write-Sends answers st c r up = rw up (
    Returns.bind (write_to_fd-Sends answers st c.out_ r.valid) λ (m, sent) st' (v, all, cnt, _).
      rw (empty_lem v)
        (returns (record { valid = v; reset = cnt ∙ r.reset; unmarked = r.unmarked }, all, refl)))
