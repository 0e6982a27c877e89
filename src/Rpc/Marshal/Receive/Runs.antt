-- ===== src/Rpc/Marshal/Receive/Runs.antt =====
-- Concrete runs of the functions that put bytes in front of others, or take them from a socket.
use simple_rpc.Prelude.{◌+◌, ◌%◌, ◌^◌, ◌≡◌, refl, [], ◌∷◌, ◌++◌, length}
use simple_rpc.Rpc.Buffer.Returns.{Returns}
use simple_rpc.Rpc.Marshal.{empty_marshal}
use simple_rpc.Rpc.Marshal.Chain.{content, IsValid}
use simple_rpc.Rpc.Marshal.Bookmark.{set_bookmark}
use simple_rpc.Rpc.Marshal.Bookmark.Mark.{Set, set_bookmark-Set}
use simple_rpc.Rpc.Marshal.Receive.{read_from_fd}
use simple_rpc.Rpc.Marshal.Receive.Arrives.{Came, read_from_fd-Arrives}

nothing-IsValid : IsValid [] empty_marshal
nothing-IsValid = record { chain = tt; counted = refl }

set_bookmark-Set_example :
    Returns
      (λ (m', bm) st'. IsValid st' m' × (m'.write_cnt ≡ 0) × Set [] [] 4 (m'.chunks, bm) st')
      (set_bookmark 4 empty_marshal [])
set_bookmark-Set_example = set_bookmark-Set 4 [] empty_marshal nothing-IsValid refl

-- Two bytes come, then one, then none.
read_from_fd-Arrives_example :
    Returns
      (λ (m', p) st'.
        IsValid st' m'
        × Came ((7 ∷ 8 ∷ []) ∷ (9 ∷ []) ∷ []) p
        × (content st' m'.chunks ≡ [] ++ p)
        × (m'.write_cnt ≡ (0 + length p) % 2 ^ 32))
      (read_from_fd ((7 ∷ 8 ∷ []) ∷ (9 ∷ []) ∷ []) empty_marshal [])
read_from_fd-Arrives_example =
    read_from_fd-Arrives ((7 ∷ 8 ∷ []) ∷ (9 ∷ []) ∷ []) [] empty_marshal nothing-IsValid
