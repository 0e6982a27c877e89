-- ===== src/Rpc/Stream/Containers/RoundTrip.antt =====
-- What `<<` writes of a list, a set or a map, `>>` reads again.
use simple_rpc.Prelude.{
  ℕ, ◌^◌, ◌<◌, ◌≡◌, refl, sym, ap, ◌∙◌, arith, lt→ltb, Bool, true, false, List, [], ◌∷◌, ◌++◌,
  length, All, append_assoc, append-nil,
}
use simple_rpc.Prelude.Int.{pos}
use simple_rpc.Base.SparseInt.Counted.{sparse, length_Sparse}
use simple_rpc.Rpc.Buffer.Store.{Store, ◌>>=◌}
use simple_rpc.Rpc.Buffer.Returns
use simple_rpc.Rpc.Buffer.Returns.{Returns, returns}
use simple_rpc.Rpc.Marshal.{Marshal}
use simple_rpc.Rpc.Marshal.Chain.{content, IsValid}
use simple_rpc.Rpc.Stream.{put_seq, put_pair}
use simple_rpc.Rpc.Stream.Codec.{Codec}
use simple_rpc.Rpc.Stream.Codec.Varied.{get_v64_lem}
use simple_rpc.Rpc.Stream.Codec.Compound.{encode_all, put_seq_lem, pair}
use simple_rpc.Rpc.Stream.Containers.{
  push_back, insert_set, get_into, get_rounds, get_container, get_list, get_set, get_map,
  key_before,
}
use simple_rpc.Rpc.Stream.Containers.Order.{filled, filled_list, filled-ascending, IsAscending}

module _ {A : Type 0} (c : Codec A) (ins : A → List A → List A) where
  get_into_lem :
      (st : Store) (m : Marshal) (v xs : List A) (rest : List ℕ)
      → IsValid st m
      → All c.Ok xs
      → content st m.chunks ≡ encode_all c xs ++ rest
      → Returns
          (λ (m', ys) st'. IsValid st' m' × (ys ≡ filled ins v xs) × (content st' m'.chunks ≡ rest))
          (get_into ins c.get (length xs) v m st)
  unfolding get_into
  get_into_lem st m v [] rest valid ok e = returns (valid, refl, e)
  get_into_lem st m v (x ∷ xs) rest valid (ok, oks) e =
      Returns.bind
        (c.get_lem st m x (encode_all c xs ++ rest) valid ok
          (e ∙ append_assoc (c.encode x) (encode_all c xs) rest))
        λ (m', x') st' (valid', same, left).
          rw same (get_into_lem st' m' (ins x v) xs rest valid' oks left)

  -- Written as every container is, and read into an empty one.
  put-get_container :
      (st : Store) (m : Marshal) (xs : List A)
      → IsValid st m
      → content st m.chunks ≡ []
      → length xs < 2 ^ 31
      → All c.Ok xs
      → Returns
          (λ (m', b) st'. IsValid st' m' × (b ≡ filled ins [] xs) × (content st' m'.chunks ≡ []))
          ((put_seq c.put xs m >>= get_container ins c.get) st)
  unfolding get_container get_rounds
  put-get_container st m xs valid nil few oks =
      Returns.bind (put_seq_lem c st m xs valid oks) λ m' st' w.
        Returns.bind
          (get_v64_lem st' m' (pos (length xs)) (encode_all c xs ++ []) w.valid
            (length_Sparse (length xs) (omega arith))
            (w.bytes
              ∙ ap (λ t. t ++ (sparse (pos (length xs)) ++ encode_all c xs)) nil
              ∙ ap (λ t. sparse (pos (length xs)) ++ t) (sym (append-nil (encode_all c xs)))))
          λ (m'', n) st'' (valid'', same, left).
            rw (same, lt→ltb (length xs) (2 ^ 31) few)
              (get_into_lem st'' m'' [] xs [] valid'' oks left)

module _ {A : Type 0} (c : Codec A) where
  -- A list of fewer than 2^31 elements is read as it was written, and the object is empty again.
  pub get-put_list :
      (st : Store) (m : Marshal) (xs : List A)
      → IsValid st m
      → content st m.chunks ≡ []
      → length xs < 2 ^ 31
      → All c.Ok xs
      → Returns
          (λ (m', b) st'. IsValid st' m' × (b ≡ xs) × (content st' m'.chunks ≡ []))
          ((put_seq c.put xs m >>= get_list c.get) st)
  unfolding get_list
  get-put_list st m xs valid nil few oks =
      Returns.mono (put-get_container c push_back st m xs valid nil few oks)
        λ (m', b) st' (valid', same, left). (valid', same ∙ filled_list [] xs, left)

  -- A set of fewer than 2^31 elements, written in ascending order, is read as it was written, and the object is
  -- empty again.
  pub get-put_set :
      (before : A → A → Bool)
      → ((x y : A) → before x y ≡ true → before y x ≡ false)
      → (st : Store) (m : Marshal) (xs : List A) → IsAscending before xs
      → IsValid st m
      → content st m.chunks ≡ []
      → length xs < 2 ^ 31
      → All c.Ok xs
      → Returns
          (λ (m', b) st'. IsValid st' m' × (b ≡ xs) × (content st' m'.chunks ≡ []))
          ((put_seq c.put xs m >>= get_set before c.get) st)
  unfolding get_set
  get-put_set before asymmetric st m xs up valid nil few oks =
      Returns.mono (put-get_container c (insert_set before) st m xs valid nil few oks)
        λ (m', b) st' (valid', same, left).
          (valid', same ∙ filled-ascending before asymmetric xs up, left)

module _ {K V : Type 0} (k : Codec K) (v : Codec V) where
  -- A map of fewer than 2^31 entries, written in the order of its keys, which a comparison gives that never puts
  -- each of two before the other, is read as it was written, and the object is empty again; neither operator
  -- fails. The operators of the keys and of the values keep the promise of Codec.
  pub get-put_map :
      (before : K → K → Bool)
      → ((x y : K) → before x y ≡ true → before y x ≡ false)
      → (st : Store) (m : Marshal) (xs : List (K × V)) → IsAscending (key_before before) xs
      → IsValid st m
      → content st m.chunks ≡ []
      → length xs < 2 ^ 31
      → All (λ x. k.Ok x.0 × v.Ok x.1) xs
      → Returns
          (λ (m', b) st'. IsValid st' m' × (b ≡ xs) × (content st' m'.chunks ≡ []))
          ((put_seq (put_pair k.put v.put) xs m >>= get_map before k.get v.get) st)
  unfolding get_map
  get-put_map before asymmetric st m xs up valid nil few oks =
      Returns.mono
        (put-get_container (pair k v) (insert_set (key_before before)) st m xs valid nil few oks)
        λ (m', b) st' (valid', same, left). (
          valid',
          same ∙ filled-ascending (key_before before) (λ x y h. asymmetric x.0 y.0 h) xs up,
          left,
        )
