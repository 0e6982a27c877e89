-- ===== src/Rpc/Packet/Runs.antt =====
-- The test for a complete packet, on concrete input.
use simple_rpc.Prelude.{◌+◌, ◌-◌, ◌^◌, ◌≡◌, refl, arith, [], ◌∷◌, some}
use simple_rpc.Rpc.Buffer.Store.{Store}
use simple_rpc.Rpc.Marshal.{Marshal}
use simple_rpc.Rpc.Marshal.Chain.{IsValid}
use simple_rpc.Rpc.Packet.{complete}
use simple_rpc.Rpc.Packet.Complete.{complete-negative}

-- A size of 2 with one of the two bytes, and a size of -4.
abbrev store : Store
store =
    record { bytes = 2 ∷ 0 ∷ 0 ∷ 0 ∷ 7 ∷ []; refcnt = 1 }
    ∷ record { bytes = 0xFC ∷ 0xFF ∷ 0xFF ∷ 0xFF ∷ []; refcnt = 1 }
    ∷ []

abbrev begun : Marshal
begun = record {
  chunks = record { data_ = 0; read_idx = 0; write_idx = 5 } ∷ [];
  write_cnt = 5;
  content_size_ = 5;
}

abbrev minus_four : Marshal
minus_four = record {
  chunks = record { data_ = 1; read_idx = 0; write_idx = 4 } ∷ [];
  write_cnt = 4;
  content_size_ = 4;
}

minus_four-IsValid : IsValid store minus_four
minus_four-IsValid = record {
  chain = (
    record {
      raw = record { bytes = 0xFC ∷ 0xFF ∷ 0xFF ∷ 0xFF ∷ []; refcnt = 1 };
      here = refl;
      alive = omega arith;
      ordered = omega arith;
      fits = omega arith;
    },
    omega arith,
    tt,
    tt,
  );
  counted = refl;
}

complete-negative_example :
    complete minus_four store ≡ some (some (0xFFFFFFFC + 2 ^ 64 - 2 ^ 32), store)
complete-negative_example =
    complete-negative store minus_four 0xFFFFFFFC [] minus_four-IsValid (omega arith) (omega arith)
      refl
