-- ===== src/Rpc/Udp.antt =====
-- UdpBuffer of rpc/marshal.h, and the UDP requests of rpc/client.cc. The result of `get_buf` has the bytes in
-- place of `buf_` and `size`; `none` is an overflow.
mod Runs
use simple_rpc.Prelude.{
  ℕ, ◌<◌, ◌≤◌, ◌≡◌, refl, sym, ap, ◌∙◌, arith, Bool-cases, inl, inr, true, false, ltb, ◌==◌,
  if◌then◌else◌, not, List, [], ◌∷◌, ◌++◌, length, take, drop, Option, none, some, take_all,
  nil_of_length, length-drop, ◌-◌,
}
use simple_rpc.Prelude.Bytes.{le_bytes}
use simple_rpc.Rpc.Buffer.Store.{Store, Cmd, pure, ◌>>=◌, ◌>>◌}
use simple_rpc.Rpc.Buffer.Returns
use simple_rpc.Rpc.Buffer.Returns.{Returns, returns}
use simple_rpc.Rpc.Marshal
use simple_rpc.Rpc.Marshal.{Marshal, empty, content_size}
use simple_rpc.Rpc.Marshal.Chain.{content, IsValid, empty_lem, content_size-length}
use simple_rpc.Rpc.Marshal.Read.{read-Takes}
use simple_rpc.Rpc.Marshal.Bookmark.{set_bookmark, write_bookmark, get_and_reset_write_cnt}
use simple_rpc.Rpc.Stream.{put_word}
use simple_rpc.Rpc.Packet.{end_packet}

abbrev pub max_udp_packet_size_s : ℕ
max_udp_packet_size_s = 65507

unfoldable pub get_buf : Marshal → Cmd (Marshal × Option (List ℕ))
get_buf m = do
  e ← empty m
  if e then pure (m, some []) else (do
    total ← content_size m
    if ltb max_udp_packet_size_s total
        then pure (m, none)
        else (do (m', p) ← Marshal.read m total; pure (m', some p)))

-- `udp_` and `udp_bmark_` of a Client.
pub record UdpClient : Type 0 where
  pub udp_ : Marshal
  pub udp_bmark_ : Option (List (ℕ × ℕ))

unfoldable pub begin_udp_request : ℕ → UdpClient → Cmd UdpClient
begin_udp_request rpc_id c = do
  (m, bm) ← set_bookmark 4 c.udp_
  m' ← put_word 4 rpc_id m
  pure (record { udp_ = m'; udp_bmark_ = some bm })

-- E2BIG
abbrev pub e2big : ℕ
e2big = 7

-- The size is read before the test for the bookmark.
abbrev write_payload_size : Option (List (ℕ × ℕ)) → Marshal × ℕ → Cmd Marshal
write_payload_size none (m, payload_size) = pure m
write_payload_size (some bm) (m, payload_size) = do
  write_bookmark bm (le_bytes 4 payload_size)
  pure m

-- The client afterwards, the result, and what sendto is given, if it is called.
unfoldable pub end_udp_request : UdpClient → Cmd (UdpClient × ℕ × Option (List ℕ))
end_udp_request c = do
  m ← write_payload_size c.udp_bmark_ (get_and_reset_write_cnt c.udp_)
  (m', buf) ← get_buf m
  pure (record { udp_ = m'; udp_bmark_ = none }, elim buf [ none ↦ e2big | some p ↦ 0 ], buf)

-- `get_buf` of an object that is in order fails no check. Up to 65507 bytes it gives all of the content and
-- leaves none; where there are more, it tells an overflow and the content stays.
pub get_buf-cases :
    (st : Store) (m : Marshal)
    → IsValid st m
    → Returns
        (λ (m', buf) st'.
          IsValid st' m'
          × (buf ≡ (
              if ltb 65507 (length (content st m.chunks))
              then none
              else some (content st m.chunks)))
          × (content st' m'.chunks
              ≡ (if ltb 65507 (length (content st m.chunks)) then content st m.chunks else [])))
        (get_buf m st)
unfolding get_buf
get_buf-cases st m v = rw (empty_lem v) (elim (Bool-cases (length (content st m.chunks) == 0)) [
  | inl none_there ↦
      let nothing = nil_of_length (content st m.chunks) (ground arith) in
      let fits : ltb 65507 (length (content st m.chunks)) ≡ false = ground arith in
      rw (none_there, fits) (returns (v, ap some (sym nothing), nothing))
  | inr some_there ↦
      let total = length (content st m.chunks) in
      rw (some_there, content_size-length v)
        (elim (Bool-cases (ltb 65507 total)) [
          | inl over ↦ rw over (returns (v, refl, refl))
          | inr fits ↦ rw fits (
              Returns.bind (read-Takes m total v) λ (m', p) st' (v', taken, left, _, _). returns (
                v',
                ap some (taken ∙ take_all total (content st m.chunks) (omega arith)),
                nil_of_length (content st' m'.chunks)
                    (omega (arith, ap length left, length-drop total (content st m.chunks))),
              ))
        ])
])
