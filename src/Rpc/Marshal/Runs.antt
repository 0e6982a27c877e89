-- ===== src/Rpc/Marshal/Runs.antt =====
-- Concrete runs of the functions on Marshal.
use simple_rpc.Prelude.{length, ◌++◌, ℕ, ◌<◌, ◌≡◌, refl, arith, some, [], ◌∷◌, get_elem?}
use simple_rpc.Rpc.Buffer.Store.{Store}
use simple_rpc.Rpc.Buffer.Returns.{Returns}
use simple_rpc.Rpc.Marshal.{Marshal, write, read, peek}
use simple_rpc.Rpc.Marshal.Chain.{content, Apart, IsValid}
use simple_rpc.Rpc.Marshal.Took.{Took}
use simple_rpc.Rpc.Marshal.Write.{write-Appends}
use simple_rpc.Rpc.Marshal.Read.{read-Takes}
use simple_rpc.Rpc.Marshal.Peek.{peek-take}
use simple_rpc.Rpc.Marshal.Send.{write_to_fd}
use simple_rpc.Rpc.Marshal.Send.Sends.{write_to_fd-Sends, write_to_fd-Drains}
use simple_rpc.Rpc.Marshal.Slice.{read_from_marshal}
use simple_rpc.Rpc.Marshal.Slice.Join.{Moved}
use simple_rpc.Rpc.Marshal.Slice.Move.{read_from_marshal-Moves}

-- Two objects of one process: the first has room for one byte behind what it holds, the second holds
-- three bytes in two chunks.
abbrev store : Store
store =
    record { bytes = 1 ∷ 2 ∷ 0 ∷ []; refcnt = 1 }
    ∷ record { bytes = 7 ∷ 8 ∷ []; refcnt = 1 }
    ∷ record { bytes = 9 ∷ 0 ∷ []; refcnt = 1 }
    ∷ []

abbrev here : Marshal
here = record {
  chunks = record { data_ = 0; read_idx = 1; write_idx = 2 } ∷ [];
  write_cnt = 2;
  content_size_ = 1;
}

abbrev there : Marshal
there = record {
  chunks =
      record { data_ = 1; read_idx = 0; write_idx = 2 }
      ∷ record { data_ = 2; read_idx = 0; write_idx = 1 }
      ∷ [];
  write_cnt = 3;
  content_size_ = 3;
}

here-IsValid : IsValid store here
here-IsValid = record {
  chain = (
    record {
      raw = record { bytes = 1 ∷ 2 ∷ 0 ∷ []; refcnt = 1 };
      here = refl;
      alive = omega arith;
      ordered = omega arith;
      fits = omega arith;
    },
    omega arith,
    tt,
    tt,
  );
  counted = refl;
}

there-IsValid : IsValid store there
there-IsValid = record {
  chain = (
    record {
      raw = record { bytes = 7 ∷ 8 ∷ []; refcnt = 1 };
      here = refl;
      alive = omega arith;
      ordered = omega arith;
      fits = omega arith;
    },
    (refl, omega arith),
    ((λ e. absurd (omega arith)), tt),
    (
      record {
        raw = record { bytes = 9 ∷ 0 ∷ []; refcnt = 1 };
        here = refl;
        alive = omega arith;
        ordered = omega arith;
        fits = omega arith;
      },
      omega arith,
      tt,
      tt,
    ),
  );
  counted = refl;
}

write-Appends_example :
    Returns
      (λ (m', n) st'.
        IsValid st' m'
        × (n ≡ 2)
        × (content st' m'.chunks ≡ 2 ∷ 5 ∷ 6 ∷ [])
        × (m'.write_cnt ≡ 4)
        × ((x : ℕ) → x < 3 → Apart x here.chunks → get_elem? st' x ≡ get_elem? store x))
      (write here (5 ∷ 6 ∷ []) store)
write-Appends_example = write-Appends here (5 ∷ 6 ∷ []) here-IsValid (omega arith)

read-Takes_example :
    Returns
      (λ (m', p) st'.
        IsValid st' m'
        × (p ≡ 7 ∷ 8 ∷ [])
        × (content st' m'.chunks ≡ 9 ∷ [])
        × (m'.write_cnt ≡ 3)
        × Took store there.chunks 2 m'.chunks p st')
      (read there 2 store)
read-Takes_example = read-Takes there 2 there-IsValid

peek-take_example : peek there 2 store ≡ some (7 ∷ 8 ∷ [], store)
peek-take_example = peek-take store there 2 there-IsValid

-- One byte is copied, two are shared.
read_from_marshal-Moves_example :
    Returns (λ r st'. Moved store here there 3 r.0 r.1 st') (read_from_marshal 2 here there 3 store)
read_from_marshal-Moves_example =
    read_from_marshal-Moves here there 3 here-IsValid there-IsValid
      (((λ e. absurd (omega arith)), ((λ e. absurd (omega arith)), tt)), tt) (omega arith)
      (omega arith)

-- The kernel takes one byte, then none.
write_to_fd-Sends_example :
    Returns
      (λ (m', p) st'.
        IsValid st' m'
        × (p ++ content st' m'.chunks ≡ 7 ∷ 8 ∷ 9 ∷ [])
        × (m'.write_cnt ≡ 3)
        × Took store there.chunks (length p) m'.chunks p st')
      (write_to_fd (1 ∷ 0 ∷ []) there store)
write_to_fd-Sends_example = write_to_fd-Sends (1 ∷ 0 ∷ []) store there there-IsValid

write_to_fd-Drains_example :
    Returns
      (λ (m', p) st'. (p ≡ 7 ∷ 8 ∷ 9 ∷ []) × (content st' m'.chunks ≡ []))
      (write_to_fd (1 ∷ 1 ∷ 5 ∷ []) there store)
write_to_fd-Drains_example =
    write_to_fd-Drains (1 ∷ 1 ∷ 5 ∷ []) store there there-IsValid
      (omega arith, (omega arith, (omega arith, tt))) (omega arith)
