-- ===== src/Rpc/Packet/Complete.antt =====
-- What the test of `handle_read` for a complete packet, in rpc/client.cc and rpc/server.cc, tells.
use simple_rpc.Prelude.{
  ℕ, ◌+◌, ◌-◌, ◌%◌, ◌^◌, ◌<◌, ◌≤◌, ◌≡◌, refl, ap, ◌∙◌, arith, leb, if◌then◌else◌, List, ◌++◌,
  length, take, some, none, length-append, take-append_exact,
}
use simple_rpc.Prelude.Bytes.{le_bytes, length-le_bytes, of_le_bytes-le_bytes}
use simple_rpc.Rpc.Buffer.Store.{Store}
use simple_rpc.Rpc.Marshal.{Marshal}
use simple_rpc.Rpc.Marshal.Chain.{content, IsValid, content_size-length}
use simple_rpc.Rpc.Marshal.Peek.{peek-take}
use simple_rpc.Rpc.Packet.{complete, as_size}

module _ (st : Store) (m : Marshal) (v : IsValid st m) where
  -- Behind four bytes the test looks at their number only.
  complete_lem :
      (w : ℕ) (rest : List ℕ)
      → w < 2 ^ 32
      → content st m.chunks ≡ le_bytes 4 w ++ rest
      → complete m st
        ≡ some (
          (if leb ((as_size w + 4) % 2 ^ 64) (4 + length rest) then some (as_size w) else none),
          st,
        )
  unfolding complete
  complete_lem w rest fits e =
      let front : take 4 (content st m.chunks) ≡ le_bytes 4 w =
        ap (take 4) e ∙ take-append_exact 4 (le_bytes 4 w) rest (length-le_bytes 4 w) in
      let total : length (content st m.chunks) ≡ 4 + length rest =
        omega (arith, ap length e, length-append (le_bytes 4 w) rest, length-le_bytes 4 w) in
      rw
        (
          peek-take st m 4 v,
          front,
          length-le_bytes 4 w,
          content_size-length v,
          of_le_bytes-le_bytes 4 w fits,
          total,
        )
        refl

-- A size of -4 to -1 passes the test as soon as it is there itself, and is taken for one of more than 2^63
-- bytes.
pub complete-negative :
    (st : Store) (m : Marshal) (w : ℕ) (rest : List ℕ)
    → IsValid st m
    → 2 ^ 32 ≤ w + 4
    → w < 2 ^ 32
    → content st m.chunks ≡ le_bytes 4 w ++ rest
    → complete m st ≡ some (some (w + 2 ^ 64 - 2 ^ 32), st)
complete-negative st m w rest v low high e =
    complete_lem st m v w rest high e ∙ ap (λ o. some (o, st)) (ground arith)
