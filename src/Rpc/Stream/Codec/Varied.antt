-- ===== src/Rpc/Stream/Codec/Varied.antt =====
-- The operators of v32, v64 and strings keep the promise.
use simple_rpc.Prelude.{
  subst, refl, Option, some, none, leb, ◌==◌, ==_iff, ◌≤◌, ℕ, ◌^◌, ◌<◌, ◌≡◌, sym, ap, ◌∙◌, arith,
  Bool-cases, inl, inr, List, [], ◌++◌, length, ltb, le→leb, get_or, replicate, append_assoc,
  nil_of_length,
}
use simple_rpc.Prelude.Int.{ℤ, pos, InRange, u32}
use simple_rpc.Base.SparseInt.{buf_size, load_i32, load_i64, overwrite}
use simple_rpc.Base.SparseInt.RoundTrip.{overwrite-append}
use simple_rpc.Base.SparseInt.Counted.{
  sparse32, length-sparse32_bounds, buf_size-sparse32, sparse, Sparse, val_size_bounds,
  length-sparse, buf_size-sparse, length_Sparse,
}
use simple_rpc.Base.SparseInt.Wire.{load-counted_i64, load-counted_i32}
use simple_rpc.Rpc.Buffer.Store.{Store, uninit, and_then, pure, assert, ◌>>◌}
use simple_rpc.Rpc.Buffer.Returns
use simple_rpc.Rpc.Buffer.Returns.{Returns, returns}
use simple_rpc.Rpc.Marshal
use simple_rpc.Rpc.Marshal.{Marshal}
use simple_rpc.Rpc.Marshal.Chain.{content, IsValid}
use simple_rpc.Rpc.Stream.{
  put_v64, get_v64, put_v32, get_v32, put_string, get_string, get_string_of, read_buf, get_bytes,
}
use simple_rpc.Rpc.Stream.Codec.{Appended, Appended-none, Appended-trans, Codec}
use simple_rpc.Rpc.Stream.Codec.Basic.{put_bytes_lem, get_bytes_lem, get_size_lem}

-- Where the buffer is large enough, its end is no matter.
read_buf_lem :
    (cap n : ℕ) (st : Store) (m : Marshal) → n ≤ cap → read_buf cap n m st ≡ get_bytes n m st
unfolding read_buf get_bytes
read_buf_lem room n st m h = after_read (Marshal.read m n st)
  where
    after_read :
        (o : Option ((Marshal × List ℕ) × Store))
        → and_then o
            (λ q. assert (leb (length q.1) room) >> (assert (length q.1 == n) >> pure (q.0, q.1)))
          ≡ and_then {B = Marshal × List ℕ} o (λ q. assert (length q.1 == n) >> pure (q.0, q.1))
    after_read none = refl
    after_read (some ((m', p), st')) = elim (Bool-cases (length p == n)) [
      | inl e ↦
          let size : length p ≡ n = (==_iff (length p) n).0 e in
          rw (le→leb (length p) room (omega arith)) refl
      | inr ne ↦ elim (Bool-cases (leb (length p) room)) [
        | inl fits ↦ rw (fits, ne) refl
        | inr over ↦ rw (over, ne) refl
      ]
    ]

pub put_v64_lem :
    (st : Store) (m : Marshal) (n : ℤ)
    → IsValid st m
    → Returns (Appended st m (sparse n)) (put_v64 n m st)
unfolding put_v64
put_v64_lem st m n v =
    put_bytes_lem st m v (sparse n) (omega (arith, length-sparse n, val_size_bounds n))

pub get_v64_lem :
    (st : Store) (m : Marshal) (n : ℤ) (rest : List ℕ)
    → IsValid st m
    → Sparse n
    → content st m.chunks ≡ sparse n ++ rest
    → Returns
        (λ (m', b) st'. IsValid st' m' × (b ≡ n) × (content st' m'.chunks ≡ rest))
        (get_v64 m st)
unfolding get_v64
get_v64_lem st m n rest v (range, short) e =
    let size : buf_size (get_or (sparse n) 0 0) ≡ length (sparse n) =
      buf_size-sparse n ∙ sym (length-sparse n) in
    rw
      (
        get_size_lem st m v (sparse n) rest e (omega (arith, length-sparse n, val_size_bounds n)),
        size,
        read_buf_lem 9 (length (sparse n)) st m (omega (arith, length-sparse n, val_size_bounds n)),
      )
      (Returns.bind (get_bytes_lem st m v (sparse n) rest e) λ (m', p) st' (v', same, left).
        returns (
          v',
          ap load_i64 (
                ap (λ q. overwrite q (replicate 9 uninit)) same
                ∙ overwrite-append (sparse n) (replicate 9 uninit)
                    (omega (arith, length-sparse n, val_size_bounds n)))
              ∙ load-counted_i64 n (replicate 9 uninit) _ range (omega arith) short,
          left,
        ))

abbrev pub v64 : Codec ℤ
v64 = record {
  put = put_v64;
  get = get_v64;
  Ok = Sparse;
  encode = sparse;
  put_lem = λ st m n v _. put_v64_lem st m n v;
  get_lem = λ st m n rest v ok e. get_v64_lem st m n rest v ok e;
}

pub get_v32_lem :
    (st : Store) (m : Marshal) (n : ℤ) (rest : List ℕ)
    → IsValid st m
    → InRange u32 n
    → content st m.chunks ≡ sparse32 n ++ rest
    → Returns
        (λ (m', b) st'. IsValid st' m' × (b ≡ n) × (content st' m'.chunks ≡ rest))
        (get_v32 m st)
unfolding get_v32
get_v32_lem st m n rest v range e =
    rw
      (
        get_size_lem st m v (sparse32 n) rest e (omega (arith, length-sparse32_bounds n)),
        buf_size-sparse32 n range,
        read_buf_lem 5 (length (sparse32 n)) st m (omega (arith, length-sparse32_bounds n)),
      )
      (Returns.bind (get_bytes_lem st m v (sparse32 n) rest e) λ (m', p) st' (v', same, left).
        returns (
          v',
          ap load_i32 (
                ap (λ q. overwrite q (replicate 5 uninit)) same
                ∙ overwrite-append (sparse32 n) (replicate 5 uninit)
                    (omega (arith, length-sparse32_bounds n)))
              ∙ load-counted_i32 n (replicate 5 uninit) _ range (omega arith),
          left,
        ))

pub put_v32_lem :
    (st : Store) (m : Marshal) (n : ℤ)
    → IsValid st m
    → Returns (Appended st m (sparse32 n)) (put_v32 n m st)
unfolding put_v32
put_v32_lem st m n v = put_bytes_lem st m v (sparse32 n) (omega (arith, length-sparse32_bounds n))

abbrev pub v32 : Codec ℤ
v32 = record {
  put = put_v32;
  get = get_v32;
  Ok = λ n. InRange u32 n;
  encode = sparse32;
  put_lem = λ st m n v _. put_v32_lem st m n v;
  get_lem = λ st m n rest v ok e. get_v32_lem st m n rest v ok e;
}

-- The wire form of a string: its length, then its bytes.
abbrev pub string_bytes : List ℕ → List ℕ
string_bytes s = sparse (pos (length s)) ++ s

pub put_string_lem :
    (st : Store) (m : Marshal) (s : List ℕ)
    → IsValid st m
    → Returns (Appended st m (string_bytes s)) (put_string s m st)
unfolding put_string
put_string_lem st m s v = Returns.bind (put_v64_lem st m (pos (length s)) v) λ m' st' w.
    elim (Bool-cases (ltb 0 (length s))) [
      | inl some_bytes ↦ rw some_bytes (
          Returns.mono (put_bytes_lem st' m' w.valid s (ground arith))
            λ m'' st'' w'. Appended-trans w w')
      | inr no_bytes ↦
          let nil : s ≡ [] = nil_of_length s (ground arith) in
          rw no_bytes (
            returns (
              subst (λ t. Appended st m (sparse (pos (length s)) ++ t) m' st') (sym nil)
                (Appended-trans w (Appended-none st' m' w.valid))))
    ]

pub get_string_lem :
    (st : Store) (m : Marshal) (s rest : List ℕ)
    → IsValid st m
    → length s < 2 ^ 48
    → content st m.chunks ≡ string_bytes s ++ rest
    → Returns
        (λ (m', b) st'. IsValid st' m' × (b ≡ s) × (content st' m'.chunks ≡ rest))
        (get_string m st)
unfolding get_string get_string_of
get_string_lem st m s rest v fits e =
    Returns.bind
      (get_v64_lem st m (pos (length s)) (s ++ rest) v (length_Sparse (length s) fits)
        (e ∙ append_assoc (sparse (pos (length s))) s rest))
      λ (m', n) st' (v', same, left). rw same (body st' m' v' left)
  where
    body :
        (st' : Store) (m' : Marshal)
        → IsValid st' m'
        → content st' m'.chunks ≡ s ++ rest
        → Returns
            (λ (m'', b) st''. IsValid st'' m'' × (b ≡ s) × (content st'' m''.chunks ≡ rest))
            (get_string_of (pos (length s)) m' st')
    body st' m' v' left = elim (Bool-cases (ltb 0 (length s))) [
      | inl some_bytes ↦ rw some_bytes (get_bytes_lem st' m' v' s rest left)
      | inr no_bytes ↦
          let nil : s ≡ [] = nil_of_length s (ground arith) in
          rw no_bytes (returns (v', sym nil, left ∙ ap (λ t. t ++ rest) nil))
    ]

abbrev pub string : Codec (List ℕ)
string = record {
  put = put_string;
  get = get_string;
  Ok = λ s. length s < 2 ^ 48;
  encode = string_bytes;
  put_lem = λ st m s v _. put_string_lem st m s v;
  get_lem = λ st m s rest v ok e. get_string_lem st m s rest v ok e;
}
