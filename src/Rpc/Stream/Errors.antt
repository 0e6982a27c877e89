-- ===== src/Rpc/Stream/Errors.antt =====
-- What `>>` does where the content is not what it asks for.
use simple_rpc.Prelude.{
  ℕ, ◌<◌, ◌≡◌, ap, arith, Bool-cases, inl, inr, ◌==◌, none, length, length-take,
}
use simple_rpc.Rpc.Buffer.Store.{Store}
use simple_rpc.Rpc.Buffer.Returns
use simple_rpc.Rpc.Buffer.Returns.{Returns, returns}
use simple_rpc.Rpc.Marshal
use simple_rpc.Rpc.Marshal.{Marshal}
use simple_rpc.Rpc.Marshal.Chain.{content, IsValid}
use simple_rpc.Rpc.Marshal.Read.{read-Takes}
use simple_rpc.Rpc.Stream.{get_bytes}

-- Where fewer than `n` bytes are left, a read of `n` bytes fails its `verify`.
pub get_bytes_short :
    (st : Store) (m : Marshal) (n : ℕ)
    → IsValid st m
    → length (content st m.chunks) < n
    → get_bytes n m st ≡ none
unfolding get_bytes
get_bytes_short st m n v few = Returns.faults (read-Takes m n v) λ (m', p) st' (_, taken, _, _, _).
    let short : length p < n =
      omega (arith, ap length taken, length-take n (content st m.chunks)) in
    elim (Bool-cases (length p == n)) [ inl e ↦ absurd (ground arith) | inr e ↦ rw e ]
