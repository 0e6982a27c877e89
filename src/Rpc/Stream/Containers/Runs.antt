-- ===== src/Rpc/Stream/Containers/Runs.antt =====
-- A map that is written and read.
use simple_rpc.Prelude.{ℕ, ◌≡◌, refl, arith, true, false, List, [], ◌∷◌, ltb}
use simple_rpc.Rpc.Buffer.Store.{◌>>=◌}
use simple_rpc.Rpc.Buffer.Returns.{Returns}
use simple_rpc.Rpc.Marshal.{empty_marshal}
use simple_rpc.Rpc.Marshal.Chain.{content, IsValid}
use simple_rpc.Rpc.Stream.{put_seq, put_pair, put_word, put_string, get_word, get_string}
use simple_rpc.Rpc.Stream.Codec.Basic.{word}
use simple_rpc.Rpc.Stream.Codec.Varied.{string}
use simple_rpc.Rpc.Stream.Containers.{get_map, insert_set}
use simple_rpc.Rpc.Stream.Containers.RoundTrip.{get-put_map}

none_yet : IsValid [] empty_marshal
none_yet = record { chain = tt; counted = refl }

-- 3 has "h", 5 has nothing, 300 has "hi".
abbrev table : List (ℕ × List ℕ)
table = (3, 104 ∷ []) ∷ (5, []) ∷ (300, 104 ∷ 105 ∷ []) ∷ []

ltb_asymmetric : (x y : ℕ) → ltb x y ≡ true → ltb y x ≡ false
ltb_asymmetric x y h = ground arith

get-put_map_example :
    Returns
      (λ (m', b) st'. IsValid st' m' × (b ≡ table) × (content st' m'.chunks ≡ []))
      ((put_seq (put_pair (put_word 4) put_string) table empty_marshal
          >>= get_map ltb (get_word 4) get_string)
        [])
get-put_map_example =
    get-put_map (word 4) string ltb ltb_asymmetric [] empty_marshal table
      ((refl, (refl, tt)), ((refl, tt), (tt, tt))) none_yet refl (omega arith)
      (
        ((omega arith, omega arith), omega arith),
        (
          ((omega arith, omega arith), omega arith),
          (((omega arith, omega arith), omega arith), tt),
        ),
      )

-- A key that comes again keeps its value.
again : insert_set ltb 5 (3 ∷ 5 ∷ 9 ∷ []) ≡ 3 ∷ 5 ∷ 9 ∷ []
again = refl
