-- ===== src/Rpc/Stream/Codec.antt =====
-- What the two operators of a type promise each other, and the operators of the basic types.
pub mod Basic
pub mod Varied
pub mod Compound
use simple_rpc.Prelude.{
  ℕ, ◌+◌, ◌%◌, ◌^◌, ◌≡◌, sym, ap, ◌∙◌, arith, List, [], ◌++◌, length, length-append, append-nil,
  append_assoc,
}
use simple_rpc.Rpc.Buffer.Store.{Store, Cmd}
use simple_rpc.Rpc.Buffer.Returns
use simple_rpc.Rpc.Buffer.Returns.{Returns, returns}
use simple_rpc.Rpc.Marshal.{Marshal}
use simple_rpc.Rpc.Marshal.Place.{Kept}
use simple_rpc.Rpc.Marshal.Chain.{content, IsValid}

-- After a write of the wire form `p`.
pub record Appended (st : Store) (m : Marshal) (p : List ℕ) (m' : Marshal) (st' : Store)
    : Type 0 where
  pub valid : IsValid st' m'
  pub bytes : content st' m'.chunks ≡ content st m.chunks ++ p
  pub kept : Kept m.chunks m'.chunks
  pub counted : m'.write_cnt % 2 ^ 32 ≡ (m.write_cnt + length p) % 2 ^ 32

pub Appended-none : (st : Store) (m : Marshal) → IsValid st m → Appended st m [] m st
Appended-none st m v = record {
  valid = v;
  bytes = sym (append-nil _);
  kept = λ k at e. e;
  counted = omega arith;
}

-- One write after another.
pub Appended-trans :
    {st st' st'' : Store} {m m' m'' : Marshal} {p q : List ℕ}
    → Appended st m p m' st'
    → Appended st' m' q m'' st''
    → Appended st m (p ++ q) m'' st''
Appended-trans {p} {q} v w = record {
  valid = w.valid;
  bytes = w.bytes ∙ ap (λ t. t ++ q) v.bytes ∙ append_assoc _ p q;
  kept = λ k at e. w.kept k at (v.kept k at e);
  counted = omega (arith, v.counted, w.counted, length-append p q);
}

-- `<<` appends the wire form of a value, and `>>` takes it off the front, whatever follows it; both
-- return and keep the invariant, for the values in `Ok`.
pub record Codec (A : Type 0) : Type 1 where
  pub put : A → Marshal → Cmd Marshal
  pub get : Marshal → Cmd (Marshal × A)
  pub Ok : A → Type 0
  pub encode : A → List ℕ
  pub put_lem :
      (st : Store) (m : Marshal) (a : A)
      → IsValid st m
      → Ok a
      → Returns (Appended st m (encode a)) (put a m st)
  pub get_lem :
      (st : Store) (m : Marshal) (a : A) (rest : List ℕ)
      → IsValid st m
      → Ok a
      → content st m.chunks ≡ encode a ++ rest
      → Returns
          (λ (m', b) st'. IsValid st' m' × (b ≡ a) × (content st' m'.chunks ≡ rest))
          (get m st)
