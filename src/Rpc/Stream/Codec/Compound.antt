-- ===== src/Rpc/Stream/Codec/Compound.antt =====
-- The operators of pairs and containers keep the promise where those of their parts do.
use simple_rpc.Prelude.{
  ℕ, ◌^◌, ◌<◌, ◌≡◌, refl, ap₂, ◌∙◌, arith, lt→ltb, List, [], ◌∷◌, ◌++◌, length, All, append_assoc,
}
use simple_rpc.Prelude.Int.{pos}
use simple_rpc.Base.SparseInt.Counted.{sparse, length_Sparse}
use simple_rpc.Rpc.Buffer.Store.{Store}
use simple_rpc.Rpc.Buffer.Returns
use simple_rpc.Rpc.Buffer.Returns.{Returns, returns}
use simple_rpc.Rpc.Marshal.{Marshal}
use simple_rpc.Rpc.Marshal.Chain.{content, IsValid}
use simple_rpc.Rpc.Stream.{put_pair, get_pair, put_all, put_seq, get_all, get_seq_of, get_seq}
use simple_rpc.Rpc.Stream.Codec.{Appended, Appended-none, Appended-trans, Codec}
use simple_rpc.Rpc.Stream.Codec.Varied.{put_v64_lem, get_v64_lem}

module _ {A B : Type 0} (c : Codec A) (d : Codec B) where
  pub put_pair_lem :
      (st : Store) (m : Marshal) (x : A × B)
      → IsValid st m
      → c.Ok x.0 × d.Ok x.1
      → Returns (Appended st m (c.encode x.0 ++ d.encode x.1)) (put_pair c.put d.put x m st)
  unfolding put_pair
  put_pair_lem st m (a, b) v (ok, ok') =
      Returns.bind (c.put_lem st m a v ok)
        λ m' st' w. Returns.mono (d.put_lem st' m' b w.valid ok') λ m'' st'' w'. Appended-trans w w'

  pub get_pair_lem :
      (st : Store) (m : Marshal) (x : A × B) (rest : List ℕ)
      → IsValid st m
      → c.Ok x.0 × d.Ok x.1
      → content st m.chunks ≡ (c.encode x.0 ++ d.encode x.1) ++ rest
      → Returns
          (λ (m', y) st'. IsValid st' m' × (y ≡ x) × (content st' m'.chunks ≡ rest))
          (get_pair c.get d.get m st)
  unfolding get_pair
  get_pair_lem st m (a, b) rest v (ok, ok') e =
      Returns.bind
        (c.get_lem st m a (d.encode b ++ rest) v ok
          (e ∙ append_assoc (c.encode a) (d.encode b) rest))
        λ (m', a') st' (v', same, left).
          Returns.bind (d.get_lem st' m' b rest v' ok' left) λ (m'', b') st'' (v'', same', left').
            returns (v'', ap₂ (λ x y. (x, y)) same same', left')

  abbrev pub pair : Codec (A × B)
  pair = record {
    put = put_pair c.put d.put;
    get = get_pair c.get d.get;
    Ok = λ x. c.Ok x.0 × d.Ok x.1;
    encode = λ x. c.encode x.0 ++ d.encode x.1;
    put_lem = put_pair_lem;
    get_lem = get_pair_lem;
  }

module _ {A : Type 0} (c : Codec A) where
  abbrev pub encode_all : List A → List ℕ
  encode_all [] = []
  encode_all (x ∷ xs) = c.encode x ++ encode_all xs

  pub put_all_lem :
      (st : Store) (m : Marshal) (xs : List A)
      → IsValid st m
      → All c.Ok xs
      → Returns (Appended st m (encode_all xs)) (put_all c.put xs m st)
  unfolding put_all
  put_all_lem st m [] v ok = returns (Appended-none st m v)
  put_all_lem st m (x ∷ xs) v (ok, oks) = Returns.bind (c.put_lem st m x v ok) λ m' st' w.
      Returns.mono (put_all_lem st' m' xs w.valid oks) λ m'' st'' w'. Appended-trans w w'

  pub get_all_lem :
      (st : Store) (m : Marshal) (xs : List A) (rest : List ℕ)
      → IsValid st m
      → All c.Ok xs
      → content st m.chunks ≡ encode_all xs ++ rest
      → Returns
          (λ (m', ys) st'. IsValid st' m' × (ys ≡ xs) × (content st' m'.chunks ≡ rest))
          (get_all c.get (length xs) m st)
  unfolding get_all
  get_all_lem st m [] rest v ok e = returns (v, refl, e)
  get_all_lem st m (x ∷ xs) rest v (ok, oks) e =
      Returns.bind
        (c.get_lem st m x (encode_all xs ++ rest) v ok
          (e ∙ append_assoc (c.encode x) (encode_all xs) rest))
        λ (m', x') st' (v', same, left).
          Returns.bind (get_all_lem st' m' xs rest v' oks left)
            λ (m'', xs') st'' (v'', same', left').
              returns (v'', ap₂ (λ y ys. y ∷ ys) same same', left')

  pub put_seq_lem :
      (st : Store) (m : Marshal) (xs : List A)
      → IsValid st m
      → All c.Ok xs
      → Returns (Appended st m (sparse (pos (length xs)) ++ encode_all xs)) (put_seq c.put xs m st)
  unfolding put_seq
  put_seq_lem st m xs v oks = Returns.bind (put_v64_lem st m (pos (length xs)) v) λ m' st' w.
      Returns.mono (put_all_lem st' m' xs w.valid oks) λ m'' st'' w'. Appended-trans w w'

  pub get_seq_lem :
      (st : Store) (m : Marshal) (xs : List A) (rest : List ℕ)
      → IsValid st m
      → (length xs < 2 ^ 31) × All c.Ok xs
      → content st m.chunks ≡ (sparse (pos (length xs)) ++ encode_all xs) ++ rest
      → Returns
          (λ (m', ys) st'. IsValid st' m' × (ys ≡ xs) × (content st' m'.chunks ≡ rest))
          (get_seq c.get m st)
  unfolding get_seq get_seq_of
  get_seq_lem st m xs rest v (few, oks) e =
      Returns.bind
        (get_v64_lem st m (pos (length xs)) (encode_all xs ++ rest) v
          (length_Sparse (length xs) (omega arith))
          (e ∙ append_assoc (sparse (pos (length xs))) (encode_all xs) rest))
        λ (m', n) st' (v', same, left).
          rw (same, lt→ltb (length xs) (2 ^ 31) few) (get_all_lem st' m' xs rest v' oks left)

  abbrev pub seq : Codec (List A)
  seq = record {
    put = put_seq c.put;
    get = get_seq c.get;
    Ok = λ xs. (length xs < 2 ^ 31) × All c.Ok xs;
    encode = λ xs. sparse (pos (length xs)) ++ encode_all xs;
    put_lem = λ st m xs v ok. put_seq_lem st m xs v ok.1;
    get_lem = get_seq_lem;
  }
