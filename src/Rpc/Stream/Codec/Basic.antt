-- ===== src/Rpc/Stream/Codec/Basic.antt =====
-- The operators of the fixed-width integers keep the promise, and those that read and write bytes.
use simple_rpc.Prelude.{
  ℕ, ◌^◌, ◌<◌, ◌≡◌, refl, ap, subst, ◌∙◌, arith, List, [], ◌∷◌, ◌++◌, length, take, drop, ==_iff,
  some, get_or, take-append_exact,
}
use simple_rpc.Prelude.Bytes.{le_bytes, of_le_bytes, length-le_bytes, of_le_bytes-le_bytes}
use simple_rpc.Base.SparseInt.{buf_size}
use simple_rpc.Rpc.Buffer.Store.{Store}
use simple_rpc.Rpc.Buffer.Returns
use simple_rpc.Rpc.Buffer.Returns.{Returns, returns}
use simple_rpc.Rpc.Marshal.{Marshal}
use simple_rpc.Rpc.Marshal.Chain.{content, IsValid}
use simple_rpc.Rpc.Marshal.Wrote.{write_tail-Wrote}
use simple_rpc.Rpc.Marshal.Write.{write-Wrote}
use simple_rpc.Rpc.Marshal.Read.{read-Takes}
use simple_rpc.Rpc.Marshal.Peek.{peek-take}
use simple_rpc.Rpc.Stream.{put_bytes, get_bytes, put_word, get_word, get_size}
use simple_rpc.Rpc.Stream.Codec.{Appended, Codec}

drop_front : (p rest : List ℕ) → drop (length p) (p ++ rest) ≡ rest
drop_front [] rest = refl
drop_front (x ∷ p) rest = drop_front p rest

module _ (st : Store) (m : Marshal) (v : IsValid st m) where
  pub put_bytes_lem : (p : List ℕ) → 0 < length p → Returns (Appended st m p) (put_bytes p m st)
  unfolding put_bytes
  put_bytes_lem p some_bytes =
      Returns.bind
        (write-Wrote {Q = λ cs st'. Unit {0}} m p v
          (Returns.mono (write_tail-Wrote st m.chunks p v.chain some_bytes) λ cs st' w. (w, tt)))
        λ (m', n) st' (v', all, cnt, w, _). rw ((==_iff n (length p)).1 all) (
          returns
            (record { valid = v'; bytes = w.bytes; kept = w.kept; counted = omega (arith, cnt) }))

  pub get_bytes_lem :
      (p rest : List ℕ)
      → content st m.chunks ≡ p ++ rest
      → Returns
          (λ (m', q) st'. IsValid st' m' × (q ≡ p) × (content st' m'.chunks ≡ rest))
          (get_bytes (length p) m st)
  unfolding get_bytes
  get_bytes_lem p rest e =
      Returns.bind (read-Takes m (length p) v) λ (m', q) st' (v', taken, left, _, _).
        let same : q ≡ p =
          taken ∙ ap (take (length p)) e ∙ take-append_exact (length p) p rest refl in
        rw ((==_iff (length q) (length p)).1 (ap length same))
          (returns (v', same, left ∙ ap (drop (length p)) e ∙ drop_front p rest))

  -- The first byte of the content tells the size.
  pub get_size_lem :
      (p rest : List ℕ)
      → content st m.chunks ≡ p ++ rest
      → 0 < length p
      → get_size m st ≡ some (buf_size (get_or p 0 0), st)
  unfolding get_size
  get_size_lem [] rest e some_bytes = absurd (omega arith)
  get_size_lem (b ∷ p) rest e some_bytes = rw (peek-take st m 1 v, e)

pub put_word_lem :
    (width : ℕ) (st : Store) (m : Marshal) (w : ℕ)
    → IsValid st m
    → 0 < length (le_bytes width w)
    → Returns (Appended st m (le_bytes width w)) (put_word width w m st)
unfolding put_word
put_word_lem width st m w v some_bytes = put_bytes_lem st m v (le_bytes width w) some_bytes

pub get_word_lem :
    (width : ℕ) (st : Store) (m : Marshal) (w : ℕ) (rest : List ℕ)
    → IsValid st m
    → w < 256 ^ width
    → content st m.chunks ≡ le_bytes width w ++ rest
    → Returns
        (λ (m', b) st'. IsValid st' m' × (b ≡ w) × (content st' m'.chunks ≡ rest))
        (get_word width m st)
unfolding get_word
get_word_lem width st m w rest v fits e =
    Returns.bind
      (subst
        (λ k.
          Returns
            (λ (m', q) st'.
              IsValid st' m' × (q ≡ le_bytes width w) × (content st' m'.chunks ≡ rest))
            (get_bytes k m st))
        (length-le_bytes width w) (get_bytes_lem st m v (le_bytes width w) rest e))
      λ (m', q) st' (v', same, left).
        returns (v', ap of_le_bytes same ∙ of_le_bytes-le_bytes width w fits, left)

-- An integer of fixed width.
abbrev pub word : ℕ → Codec ℕ
word width = record {
  put = put_word width;
  get = get_word width;
  Ok = λ w. (0 < width) × (w < 256 ^ width);
  encode = λ w. le_bytes width w;
  put_lem = λ st m w v (some_bytes, _).
      put_word_lem width st m w v (omega (arith, length-le_bytes width w));
  get_lem = λ st m w rest v (_, fits) e. get_word_lem width st m w rest v fits e;
}
