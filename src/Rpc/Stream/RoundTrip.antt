-- ===== src/Rpc/Stream/RoundTrip.antt =====
-- What `<<` writes into an empty Marshal, `>>` reads out of it.
use simple_rpc.Prelude.{
  ℕ, ◌^◌, ◌<◌, ◌≡◌, ◌≢◌, sym, ap, ◌∙◌, List, [], ◌++◌, length, All, append-nil,
}
use simple_rpc.Prelude.Int.{ℤ, InRange, u32, u64}
use simple_rpc.Base.SparseInt.{val_size}
use simple_rpc.Rpc.Buffer.Store.{Store, ◌>>=◌}
use simple_rpc.Rpc.Buffer.Returns
use simple_rpc.Rpc.Buffer.Returns.{Returns, returns}
use simple_rpc.Rpc.Marshal.{Marshal}
use simple_rpc.Rpc.Marshal.Chain.{content, IsValid}
use simple_rpc.Rpc.Stream.{
  put_word, get_word, put_v32, get_v32, put_v64, get_v64, put_string, get_string, put_pair,
  get_pair, put_seq, get_seq,
}
use simple_rpc.Rpc.Stream.Codec.{Codec}
use simple_rpc.Rpc.Stream.Codec.Basic.{word}
use simple_rpc.Rpc.Stream.Codec.Varied.{v32, v64, string}
use simple_rpc.Rpc.Stream.Codec.Compound.{pair, seq}

round_trip :
    {A : Type 0} (c : Codec A) (st : Store) (m : Marshal) (a : A)
    → IsValid st m
    → content st m.chunks ≡ []
    → c.Ok a
    → Returns
        (λ (m', b) st'. IsValid st' m' × (b ≡ a) × (content st' m'.chunks ≡ []))
        ((c.put a m >>= c.get) st)
round_trip c st m a v nil ok = Returns.bind (c.put_lem st m a v ok) λ m' st' w.
    c.get_lem st' m' a [] w.valid ok
      (w.bytes ∙ ap (λ t. t ++ c.encode a) nil ∙ sym (append-nil (c.encode a)))

-- An integer of `width` bytes is read as it was written, and the object is empty again; neither operator
-- fails a `verify`.
pub get-put_word :
    (st : Store) (m : Marshal) (width w : ℕ)
    → IsValid st m
    → content st m.chunks ≡ []
    → 0 < width
    → w < 256 ^ width
    → Returns
        (λ (m', b) st'. IsValid st' m' × (b ≡ w) × (content st' m'.chunks ≡ []))
        ((put_word width w m >>= get_word width) st)
get-put_word st m width w v nil some_bytes fits =
    round_trip (word width) st m w v nil (some_bytes, fits)

-- Every i32 is read from a v32 as it was written, and the object is empty again; neither operator fails.
pub get-put_v32 :
    (st : Store) (m : Marshal) (n : ℤ)
    → IsValid st m
    → content st m.chunks ≡ []
    → InRange u32 n
    → Returns
        (λ (m', b) st'. IsValid st' m' × (b ≡ n) × (content st' m'.chunks ≡ []))
        ((put_v32 n m >>= get_v32) st)
get-put_v32 st m n v nil range = round_trip v32 st m n v nil range

-- Every i64 whose size is not 8 is read from a v64 as it was written, and the object is empty again;
-- neither operator fails.
pub get-put_v64 :
    (st : Store) (m : Marshal) (n : ℤ)
    → IsValid st m
    → content st m.chunks ≡ []
    → InRange u64 n
    → val_size n ≢ 8
    → Returns
        (λ (m', b) st'. IsValid st' m' × (b ≡ n) × (content st' m'.chunks ≡ []))
        ((put_v64 n m >>= get_v64) st)
get-put_v64 st m n v nil range short = round_trip v64 st m n v nil (range, short)

-- A string of fewer than 2^48 bytes is read as it was written, the empty one too, and the object is empty
-- again; neither operator fails.
pub get-put_string :
    (st : Store) (m : Marshal) (s : List ℕ)
    → IsValid st m
    → content st m.chunks ≡ []
    → length s < 2 ^ 48
    → Returns
        (λ (m', b) st'. IsValid st' m' × (b ≡ s) × (content st' m'.chunks ≡ []))
        ((put_string s m >>= get_string) st)
get-put_string st m s v nil short = round_trip string st m s v nil short

-- Vectors and pairs, over parts whose operators keep the promise of Codec.
module _ {A B : Type 0} (c : Codec A) (d : Codec B) where
  -- A vector of fewer than 2^31 elements is read as it was written, with its elements in order, and the
  -- object is empty again; neither operator fails. The operators of the elements keep the promise of Codec.
  pub get-put_seq :
      (st : Store) (m : Marshal) (xs : List A)
      → IsValid st m
      → content st m.chunks ≡ []
      → length xs < 2 ^ 31
      → All c.Ok xs
      → Returns
          (λ (m', b) st'. IsValid st' m' × (b ≡ xs) × (content st' m'.chunks ≡ []))
          ((put_seq c.put xs m >>= get_seq c.get) st)
  get-put_seq st m xs v nil few oks = round_trip (seq c) st m xs v nil (few, oks)

  -- A pair is read as it was written, and the object is empty again; neither operator fails. The operators
  -- of its parts keep the promise of Codec.
  pub get-put_pair :
      (st : Store) (m : Marshal) (x : A × B)
      → IsValid st m
      → content st m.chunks ≡ []
      → c.Ok x.0 × d.Ok x.1
      → Returns
          (λ (m', b) st'. IsValid st' m' × (b ≡ x) × (content st' m'.chunks ≡ []))
          ((put_pair c.put d.put x m >>= get_pair c.get d.get) st)
  get-put_pair st m x v nil oks = round_trip (pair c d) st m x v nil oks
