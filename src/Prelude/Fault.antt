-- ===== src/Prelude/Fault.antt =====
-- Code that may abort, without a store: `none` is a failed `verify` or `assert`.
use Prim.Native.Nat.{ℕ, zero, suc, ◌<◌}
use mathlib.Core.List.{List, [], ◌∷◌}
use native.Mathlib.Omega.{arith}
use simple_rpc.Prelude.Lists.{length, get_elem?}
use mathlib.Core.Bool.{Bool, true, false, not}
use mathlib.Core.Option.{Option, none, some}
use mathlib.Core.Path.{◌≡◌, refl, sym, subst}

infixl 5 ◌>>=◌ ◌>>◌
abbrev pub ◌>>=◌ {ℓ κ} : {A : Type ℓ} {B : Type κ} → Option A → (A → Option B) → Option B
none >>= f = none
some a >>= f = f a

abbrev pub ◌>>◌ {ℓ} : {B : Type ℓ} → Option (Unit {0}) → Option B → Option B
m >> k = m >>= λ _. k

abbrev pub verify : Bool → Option (Unit {0})
verify true = some tt
verify false = none

-- There is a result, and `P` holds of it.
pub data Gives {A : Type 0} (P : A → Type 0) : Option A → Type 0 where
  gives : {a : A} → P a → Gives P (some a)

-- `P` holds of the result, if there is one.
abbrev pub Keeps : {A : Type 0} → (A → Type 0) → Option A → Type 0
Keeps P none = Unit {0}
Keeps P (some a) = P a

module _ {B : Type 0} (P : B → Type 0) (k : Option B) where
  pub verify-Keeps : (b : Bool) → (b ≡ true → Keeps P k) → Keeps P (verify b >> k)
  verify-Keeps true h = h refl
  verify-Keeps false h = tt

  pub verify-Gives : {b : Bool} → b ≡ true → Gives P k → Gives P (verify b >> k)
  verify-Gives {b} e h = subst (λ c. Gives P (verify c >> k)) (sym e) h

  pub verify-not-Keeps : (b : Bool) → (b ≡ false → Keeps P k) → Keeps P (verify (not b) >> k)
  verify-not-Keeps true h = tt
  verify-not-Keeps false h = h refl

  pub verify-not-Gives : {b : Bool} → b ≡ false → Gives P k → Gives P (verify (not b) >> k)
  verify-not-Gives {b} e h = subst (λ c. Gives P (verify (not c) >> k)) (sym e) h

pub Keeps-some : {A : Type 0} (P : A → Type 0) {o : Option A} {a : A} → o ≡ some a → Keeps P o → P a
Keeps-some P e h = subst (Keeps P) e h

module _ {A : Type 0} {P : A → Type 0} where
  pub Gives-Keeps : {o : Option A} → Gives P o → Keeps P o
  Gives-Keeps (gives p) = p

  pub Gives-bind :
      {B : Type 0} {Q : B → Type 0} {o : Option A} {f : A → Option B}
      → Gives P o
      → ((a : A) → P a → Gives Q (f a))
      → Gives Q (o >>= f)
  Gives-bind (gives p) next = next _ p

  pub Gives-mono : {Q : A → Type 0} {o : Option A} → Gives P o → ((a : A) → P a → Q a) → Gives Q o
  Gives-mono (gives p) weaken = gives (weaken _ p)

pub get_elem?-Gives :
    {A : Type 0} (xs : List A) (i : ℕ)
    → i < length xs
    → Gives (λ a. get_elem? xs i ≡ some a) (get_elem? xs i)
get_elem?-Gives [] i h = absurd (omega arith)
get_elem?-Gives (x ∷ xs) zero h = gives refl
get_elem?-Gives (x ∷ xs) (suc i) h = get_elem?-Gives xs i (omega arith)
