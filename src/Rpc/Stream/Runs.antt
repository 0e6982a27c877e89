-- ===== src/Rpc/Stream/Runs.antt =====
-- Concrete runs of the stream operators.
use simple_rpc.Prelude.{◌≡◌, refl, arith, [], ◌∷◌}
use simple_rpc.Rpc.Buffer.Store.{Store, ◌>>=◌}
use simple_rpc.Rpc.Buffer.Returns.{Returns}
use simple_rpc.Rpc.Marshal
use simple_rpc.Rpc.Marshal.{Marshal, empty_marshal}
use simple_rpc.Rpc.Marshal.Chain.{content, IsValid}
use simple_rpc.Rpc.Stream.{put_string, get_string, put_seq, get_seq}
use simple_rpc.Rpc.Stream.Codec.Varied.{string}
use simple_rpc.Rpc.Stream.RoundTrip.{get-put_seq}

none_yet : IsValid [] empty_marshal
none_yet = record { chain = tt; counted = refl }

-- An object that holds the byte 0xF8 and five more.
abbrev store : Store
store = record { bytes = 0xF8 ∷ 1 ∷ 2 ∷ 3 ∷ 4 ∷ 5 ∷ 0 ∷ []; refcnt = 1 } ∷ []

abbrev six : Marshal
six = record {
  chunks = record { data_ = 0; read_idx = 0; write_idx = 6 } ∷ [];
  write_cnt = 6;
  content_size_ = 6;
}

get-put_seq_example :
    Returns
      (λ (m', b) st'.
        IsValid st' m' × (b ≡ (104 ∷ 105 ∷ []) ∷ [] ∷ []) × (content st' m'.chunks ≡ []))
      ((put_seq put_string ((104 ∷ 105 ∷ []) ∷ [] ∷ []) empty_marshal >>= get_seq get_string) [])
get-put_seq_example =
    get-put_seq string string [] empty_marshal ((104 ∷ 105 ∷ []) ∷ [] ∷ []) none_yet refl
      (omega arith) (omega arith, (omega arith, tt))
