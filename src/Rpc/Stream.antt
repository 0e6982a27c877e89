-- ===== src/Rpc/Stream.antt =====
-- The stream operators of rpc/marshal.h: `put_*` is `operator <<` and `get_*` is `operator >>`. The
-- integers of fixed width, signed or not, and double are patterns of as many bytes as they have. A
-- container is written as the list of its elements in the order of its iterator. `get_seq` reads a vector,
-- Stream/Containers has the other containers.
pub mod Codec
pub mod Containers
pub mod RoundTrip
pub mod Errors
mod Runs
use simple_rpc.Prelude.{
  ℕ, zero, suc, ◌^◌, ◌≡◌, true, false, List, [], ◌∷◌, ◌++◌, length, take, ltb, leb, ◌==◌,
  if◌then◌else◌, none, get_or, replicate,
}
use simple_rpc.Prelude.Int.{ℤ, pos, negsuc}
use simple_rpc.Prelude.Bytes.{le_bytes, of_le_bytes}
use simple_rpc.Base.SparseInt.{buf_size, dump_i32, dump_i64, load_i32, load_i64, overwrite}
use simple_rpc.Rpc.Buffer.Store.{Cmd, pure, ◌>>=◌, ◌>>◌, assert, uninit}
use simple_rpc.Rpc.Marshal
use simple_rpc.Rpc.Marshal.{Marshal}

-- `verify(m.write(p, n) == n)`
unfoldable pub put_bytes : List ℕ → Marshal → Cmd Marshal
put_bytes p m = do (m', n) ← Marshal.write m p; assert (n == length p); pure m'

-- `verify(m.read(p, n) == n)`
unfoldable pub get_bytes : ℕ → Marshal → Cmd (Marshal × List ℕ)
get_bytes n m = do (m', p) ← Marshal.read m n; assert (length p == n); pure (m', p)

unfoldable pub put_word : ℕ → ℕ → Marshal → Cmd Marshal
put_word width w m = put_bytes (le_bytes width w) m

unfoldable pub get_word : ℕ → Marshal → Cmd (Marshal × ℕ)
get_word width m = do (m', p) ← get_bytes width m; pure (m', of_le_bytes p)

-- `dump` into `char buf[5]`, then a write of the bytes that it counts
unfoldable pub put_v32 : ℤ → Marshal → Cmd Marshal
put_v32 v m = let (buf, bsize) = dump_i32 v (replicate 5 uninit) in put_bytes (take bsize buf) m

unfoldable pub put_v64 : ℤ → Marshal → Cmd Marshal
put_v64 v m = let (buf, bsize) = dump_i64 v (replicate 9 uninit) in put_bytes (take bsize buf) m

-- The size that the first byte tells.
unfoldable pub get_size : Marshal → Cmd ℕ
get_size m = do p ← Marshal.peek m 1; assert (length p == 1); pure (buf_size (get_or p 0 0))

-- `m.read` into a buffer of `room` bytes, and the `verify` on its answer: bytes behind the end of the buffer are an
-- access outside it.
unfoldable pub read_buf : ℕ → ℕ → Marshal → Cmd (Marshal × List ℕ)
read_buf room n m = do
  (m', p) ← Marshal.read m n
  assert (leb (length p) room)
  assert (length p == n)
  pure (m', p)

unfoldable pub get_v32 : Marshal → Cmd (Marshal × ℤ)
get_v32 m = do
  bsize ← get_size m
  (m', p) ← read_buf 5 bsize m
  pure (m', load_i32 (overwrite p (replicate 5 uninit)))

unfoldable pub get_v64 : Marshal → Cmd (Marshal × ℤ)
get_v64 m = do
  bsize ← get_size m
  (m', p) ← read_buf 9 bsize m
  pure (m', load_i64 (overwrite p (replicate 9 uninit)))

unfoldable pub put_string : List ℕ → Marshal → Cmd Marshal
put_string s m = do
  m' ← put_v64 (pos (length s)) m
  if ltb 0 (length s) then put_bytes s m' else pure m'

-- `resize` throws where the length is negative.
unfoldable pub get_string_of : ℤ → Marshal → Cmd (Marshal × List ℕ)
get_string_of (pos n) m = if ltb 0 n then get_bytes n m else pure (m, [])
get_string_of (negsuc n) m = λ _. none

unfoldable pub get_string : Marshal → Cmd (Marshal × List ℕ)
get_string m = do (m', v_len) ← get_v64 m; get_string_of v_len m'

module _ {A B : Type 0} where
  unfoldable pub put_pair :
      (A → Marshal → Cmd Marshal) → (B → Marshal → Cmd Marshal) → A × B → Marshal → Cmd Marshal
  put_pair put_a put_b (a, b) m = do m' ← put_a a m; put_b b m'

  unfoldable pub get_pair :
      (Marshal → Cmd (Marshal × A))
      → (Marshal → Cmd (Marshal × B))
      → Marshal
      → Cmd (Marshal × (A × B))
  get_pair get_a get_b m = do (m', a) ← get_a m; (m'', b) ← get_b m'; pure (m'', (a, b))

module _ {A : Type 0} where
  unfoldable pub put_all : (A → Marshal → Cmd Marshal) → List A → Marshal → Cmd Marshal
  put_all put [] m = pure m
  put_all put (x ∷ xs) m = do m' ← put x m; put_all put xs m'

  unfoldable pub put_seq : (A → Marshal → Cmd Marshal) → List A → Marshal → Cmd Marshal
  put_seq put xs m = do m' ← put_v64 (pos (length xs)) m; put_all put xs m'

  unfoldable pub get_all : (Marshal → Cmd (Marshal × A)) → ℕ → Marshal → Cmd (Marshal × List A)
  get_all get zero m = pure (m, [])
  get_all get (suc n) m = do (m', x) ← get m; (m'', xs) ← get_all get n m'; pure (m'', x ∷ xs)

  -- `reserve` throws where the length is negative. The counter of the loop is an int, which 2^31 rounds
  -- overflow.
  unfoldable pub get_seq_of : (Marshal → Cmd (Marshal × A)) → ℤ → Marshal → Cmd (Marshal × List A)
  get_seq_of get (pos n) m = do assert (ltb n (2 ^ 31)); get_all get n m
  get_seq_of get (negsuc n) m = λ _. none

  unfoldable pub get_seq : (Marshal → Cmd (Marshal × A)) → Marshal → Cmd (Marshal × List A)
  get_seq get m = do (m', v_len) ← get_v64 m; get_seq_of get v_len m'
