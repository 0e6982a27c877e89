-- ===== src/Rpc/Udp/Runs.antt =====
-- A concrete datagram.
use simple_rpc.Prelude.{◌≡◌, refl, arith, [], ◌∷◌, some}
use simple_rpc.Rpc.Buffer.Store.{Store}
use simple_rpc.Rpc.Buffer.Returns.{Returns}
use simple_rpc.Rpc.Marshal.{Marshal}
use simple_rpc.Rpc.Marshal.Chain.{content, IsValid}
use simple_rpc.Rpc.Udp.{get_buf, get_buf-cases}

abbrev store : Store
store = record { bytes = 4 ∷ 0 ∷ 0 ∷ 0 ∷ 17 ∷ 0 ∷ 0 ∷ 0 ∷ []; refcnt = 1 } ∷ []

abbrev udp : Marshal
udp = record {
  chunks = record { data_ = 0; read_idx = 0; write_idx = 8 } ∷ [];
  write_cnt = 0;
  content_size_ = 8;
}

udp-IsValid : IsValid store udp
udp-IsValid = record {
  chain = (
    record {
      raw = record { bytes = 4 ∷ 0 ∷ 0 ∷ 0 ∷ 17 ∷ 0 ∷ 0 ∷ 0 ∷ []; refcnt = 1 };
      here = refl;
      alive = omega arith;
      ordered = omega arith;
      fits = omega arith;
    },
    omega arith,
    tt,
    tt,
  );
  counted = refl;
}

get_buf-cases_example :
    Returns
      (λ (m', buf) st'.
        IsValid st' m'
        × (buf ≡ some (4 ∷ 0 ∷ 0 ∷ 0 ∷ 17 ∷ 0 ∷ 0 ∷ 0 ∷ []))
        × (content st' m'.chunks ≡ []))
      (get_buf udp store)
get_buf-cases_example = get_buf-cases store udp udp-IsValid
