-- ===== src/Rpc/Stream/Containers.antt =====
-- `operator >>` of rpc/marshal.h for lists, sets and maps. A set is the list of its elements in ascending order,
-- a map that of its pairs in the order of the keys; `before` is the comparison of the container. The unordered
-- containers are read by the same loops.
pub mod Order
pub mod RoundTrip
mod Runs
use simple_rpc.Prelude.{ℕ, zero, suc, ◌^◌, Bool, List, [], ◌∷◌, ◌++◌, ltb, if◌then◌else◌}
use simple_rpc.Prelude.Int.{ℤ, pos, negsuc}
use simple_rpc.Rpc.Buffer.Store.{Cmd, pure, ◌>>=◌, ◌>>◌, assert}
use simple_rpc.Rpc.Marshal.{Marshal}
use simple_rpc.Rpc.Stream.{get_v64, get_pair}

module _ {A : Type 0} where
  -- `std::list::push_back`
  abbrev pub push_back : A → List A → List A
  push_back x xs = xs ++ (x ∷ [])

  -- `std::set::insert`, which keeps an element that is there.
  abbrev pub insert_set : (A → A → Bool) → A → List A → List A
  insert_set before x [] = x ∷ []
  insert_set before x (y ∷ ys) =
      let rest = insert_set before x ys in
      if before x y then x ∷ y ∷ ys else if before y x then y ∷ rest else y ∷ ys

  -- The loop, with what is in the container so far.
  unfoldable pub get_into :
      (A → List A → List A)
      → (Marshal → Cmd (Marshal × A))
      → ℕ
      → List A
      → Marshal
      → Cmd (Marshal × List A)
  get_into ins get zero v m = pure (m, v)
  get_into ins get (suc n) v m = do (m', elem) ← get m; get_into ins get n (ins elem v) m'

  -- No round for a negative length. The counter of the loop is an int, which 2^31 rounds overflow.
  unfoldable pub get_rounds :
      (A → List A → List A) → (Marshal → Cmd (Marshal × A)) → ℤ → Marshal → Cmd (Marshal × List A)
  get_rounds ins get (pos n) m = do assert (ltb n (2 ^ 31)); get_into ins get n [] m
  get_rounds ins get (negsuc n) m = pure (m, [])

  unfoldable pub get_container :
      (A → List A → List A) → (Marshal → Cmd (Marshal × A)) → Marshal → Cmd (Marshal × List A)
  get_container ins get m = do (m', v_len) ← get_v64 m; get_rounds ins get v_len m'

  unfoldable pub get_list : (Marshal → Cmd (Marshal × A)) → Marshal → Cmd (Marshal × List A)
  get_list = get_container push_back

  unfoldable pub get_set :
      (A → A → Bool) → (Marshal → Cmd (Marshal × A)) → Marshal → Cmd (Marshal × List A)
  get_set before = get_container (insert_set before)

-- `m >> key >> value`, then `insert_into_map`, which keeps the value of a key that is there.
module _ {K V : Type 0} where
  abbrev pub key_before : (K → K → Bool) → K × V → K × V → Bool
  key_before before (k, v) (k', v') = before k k'

  unfoldable pub get_map :
      (K → K → Bool)
      → (Marshal → Cmd (Marshal × K))
      → (Marshal → Cmd (Marshal × V))
      → Marshal
      → Cmd (Marshal × List (K × V))
  get_map before get_key get_value =
      get_container (insert_set (key_before before)) (get_pair get_key get_value)
