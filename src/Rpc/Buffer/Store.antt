-- ===== src/Rpc/Buffer/Store.antt =====
-- The raw_bytes objects of a process, reference counted as RefCounted of base/basetypes.h counts.
-- A byte that was never written holds `uninit`, which is no byte. A deleted object has the count 0,
-- and to touch it is a fault, as is an access outside its bytes.
use simple_rpc.Prelude.{
  ℕ, ◌+◌, ◌-◌, max, Bool, true, false, Option, none, some, List, [], ◌∷◌, ◌++◌, length, take, drop,
  leb, ◌==◌, if◌then◌else◌, replicate, get_elem?, set,
}

pub record RawBytes : Type 0 where
  pub bytes : List ℕ
  pub refcnt : ℕ

abbrev pub Store : Type 0
Store = List RawBytes

-- `none` is a fault: a failed `verify` or `assert`, or a bad access.
abbrev pub Cmd : Type 0 → Type 0
Cmd A = Store → Option (A × Store)

abbrev pub pure : {A : Type 0} → A → Cmd A
pure a st = some (a, st)

module _ {A B : Type 0} where
  abbrev pub and_then : Option (A × Store) → (A → Cmd B) → Option (B × Store)
  and_then none k = none
  and_then (some (a, st)) k = k a st

  infixl 5 ◌>>=◌ ◌>>◌
  abbrev pub ◌>>=◌ : Cmd A → (A → Cmd B) → Cmd B
  ◌>>=◌ m k st = and_then (m st) k

  abbrev pub ◌>>◌ : Cmd A → Cmd B → Cmd B
  m >> k = m >>= λ _. k

abbrev pub assert : Bool → Cmd (Unit {0})
assert true st = some (tt, st)
assert false st = none

abbrev pub uninit : ℕ
uninit = 256

unfoldable pub min_size : ℕ
min_size = 8192

-- `new`: the object comes behind the others.
abbrev pub allocate : List ℕ → Cmd ℕ
allocate bs st = some (length st, st ++ (record { bytes = bs; refcnt = 1 } ∷ []))

unfoldable pub new_raw : Cmd ℕ
unfolding min_size
new_raw = allocate (replicate (max min_size min_size) uninit)

unfoldable pub new_raw_from : List ℕ → Cmd ℕ
unfolding min_size
new_raw_from p = allocate (p ++ replicate (max (length p) min_size - length p) uninit)

abbrev pub live : Option RawBytes → Option RawBytes
live none = none
live (some r) = if r.refcnt == 0 then none else some r

-- `*data`
unfoldable pub deref : ℕ → Cmd RawBytes
deref d st = elim (live (get_elem? st d)) [ none ↦ none | some r ↦ some (r, st) ]

unfoldable pub update : ℕ → RawBytes → Cmd (Unit {0})
update d r st = some (tt, set st d r)

unfoldable pub ref_copy : ℕ → Cmd (Unit {0})
unfolding deref update
ref_copy d = do r ← deref d; update d (record r { refcnt = r.refcnt + 1 })

-- `verify(r >= 0)` fails at the count 0; there `deref` faults too.
unfoldable pub release : ℕ → Cmd (Unit {0})
unfolding deref update
release d = do r ← deref d; update d (record r { refcnt = r.refcnt - 1 })

unfoldable pub size : ℕ → Cmd ℕ
unfolding deref
size d = do r ← deref d; pure (length r.bytes)

-- `memcpy(.., ptr + i, n)`
unfoldable pub memory : ℕ → ℕ → ℕ → Cmd (List ℕ)
unfolding deref
memory d i n = do r ← deref d; assert (leb (i + n) (length r.bytes)); pure (take n (drop i r.bytes))

abbrev pub splice : List ℕ → ℕ → List ℕ → List ℕ
splice bs i p = take i bs ++ (p ++ drop (i + length p) bs)

-- `memcpy(ptr + i, p, ..)`
unfoldable pub store_at : ℕ → ℕ → List ℕ → Cmd (Unit {0})
unfolding deref update
store_at d i p = do
  r ← deref d
  assert (leb (i + length p) (length r.bytes))
  update d (record r { bytes = splice r.bytes i p })
