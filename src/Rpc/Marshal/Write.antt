-- ===== src/Rpc/Marshal/Write.antt =====
-- `Marshal::write` appends.
use simple_rpc.Prelude.{
  ℕ, ◌+◌, ◌%◌, ◌^◌, ◌<◌, ◌≡◌, refl, ap, ==_iff, arith, List, ◌++◌, length, get_elem?, length-append,
}
use simple_rpc.Rpc.Buffer.{Chunk}
use simple_rpc.Rpc.Buffer.Store.{Store}
use simple_rpc.Rpc.Buffer.Returns
use simple_rpc.Rpc.Buffer.Returns.{Returns, returns}
use simple_rpc.Rpc.Marshal.{Marshal, write_tail, write}
use simple_rpc.Rpc.Marshal.Chain.{content, Apart, IsValid, size_slow_lem}
use simple_rpc.Rpc.Marshal.Wrote.{Wrote, write_tail-Wrote}

-- What is known of the chunks that the cases at the last chunk leave is known of what `write` leaves.
pub write-Wrote :
    {st : Store} {Q : List Chunk → Store → Type 0} (m : Marshal) (p : List ℕ)
    → IsValid st m
    → Returns (λ cs st'. Wrote st m.chunks p cs st' × Q cs st') (write_tail m.chunks p st)
    → Returns
        (λ (m', n) st'.
          IsValid st' m'
          × (n ≡ length p)
          × (m'.write_cnt ≡ (m.write_cnt + length p) % 2 ^ 32)
          × Wrote st m.chunks p m'.chunks st'
          × Q m'.chunks st')
        (write m p st)
unfolding write
write-Wrote {st} m p v r = Returns.bind r λ cs st' (w, q).
    let counted : m.content_size_ + length p ≡ length (content st' cs) =
      omega (arith, v.counted, ap length w.bytes, length-append (content st m.chunks) p) in
    rw (size_slow_lem st' cs w.chain, (==_iff _ _).1 counted)
      (returns (record { chain = w.chain; counted = counted }, refl, refl, w, q))

-- `write` of one byte or more: it returns their number, and no assertion fails. The object holds what it
-- held, then the bytes; `write_cnt_` counts them modulo 2^32. An object of the store that is under none
-- of the chunks is as it was.
pub write-Appends :
    {st : Store} (m : Marshal) (p : List ℕ)
    → IsValid st m
    → 0 < length p
    → Returns
        (λ (m', n) st'.
          IsValid st' m'
          × (n ≡ length p)
          × (content st' m'.chunks ≡ content st m.chunks ++ p)
          × (m'.write_cnt ≡ (m.write_cnt + length p) % 2 ^ 32)
          × ((x : ℕ) → x < length st → Apart x m.chunks → get_elem? st' x ≡ get_elem? st x))
        (write m p st)
write-Appends {st} m p v some_bytes =
    Returns.mono
      (write-Wrote {Q = λ cs st'. Unit {0}} m p v
        (Returns.mono (write_tail-Wrote st m.chunks p v.chain some_bytes) λ cs st' w. (w, tt)))
      λ (m', n) st' (v', all, cnt, w, _). (v', all, w.bytes, cnt, λ x lt a. (w.frame x lt a).0)
