-- ===== src/Prelude/Dict.antt =====
-- Sets and maps with numbers as keys: lists in which a key stands once.
use Prim.Native.Nat.{ℕ, ◌+◌}
use mathlib.Core.Path.{◌≡◌, refl, ap, ◌∙◌}
use mathlib.Core.Logic.{◌≢◌, inl, inr}
use mathlib.Core.Bool.{Bool, true, false}
use mathlib.Core.Option.{Option, none, some}
use mathlib.Core.List.{List, [], ◌∷◌, ◌++◌}
use native.Mathlib.Omega.{arith}
use simple_rpc.Prelude.Tests.{◌==◌, if◌then◌else◌, Bool-cases, ==_iff, if_case}

abbrev pub mem : ℕ → List ℕ → Bool
mem x [] = false
mem x (y ∷ ys) = if x == y then true else mem x ys

abbrev pub erase : ℕ → List ℕ → List ℕ
erase x [] = []
erase x (y ∷ ys) = let rest = erase x ys in if x == y then rest else y ∷ rest

-- `insert` of a set.
abbrev pub include : ℕ → List ℕ → List ℕ
include x ys = if mem x ys then ys else x ∷ ys

abbrev pub count : ℕ → List ℕ → ℕ
count x [] = 0
count x (y ∷ ys) = (if x == y then 1 else 0) + count x ys

abbrev pub Distinct : List ℕ → Type 0
Distinct [] = Unit {0}
Distinct (x ∷ xs) = (mem x xs ≡ false) × Distinct xs

module _ {ℓ} {A : Type ℓ} where
  abbrev pub lookup : ℕ → List (ℕ × A) → Option A
  lookup k [] = none
  lookup k ((j, v) ∷ d) = if k == j then some v else lookup k d

  abbrev pub keys : List (ℕ × A) → List ℕ
  keys [] = []
  keys ((j, v) ∷ d) = j ∷ keys d

  abbrev pub remove : ℕ → List (ℕ × A) → List (ℕ × A)
  remove k [] = []
  remove k ((j, v) ∷ d) = let rest = remove k d in if k == j then rest else (j, v) ∷ rest

  -- `it->second = v`
  abbrev pub replace : ℕ → A → List (ℕ × A) → List (ℕ × A)
  replace k v [] = []
  replace k v ((j, w) ∷ d) = let rest = replace k v d in (j, if k == j then v else w) ∷ rest

  pub keys-remove : (k : ℕ) (d : List (ℕ × A)) → keys (remove k d) ≡ erase k (keys d)
  keys-remove k [] = refl
  keys-remove k ((j, v) ∷ d) = ground (arith, keys-remove k d)

  pub keys-replace : (k : ℕ) (v : A) (d : List (ℕ × A)) → keys (replace k v d) ≡ keys d
  keys-replace k v [] = refl
  keys-replace k v ((j, w) ∷ d) = ap (λ t. j ∷ t) (keys-replace k v d)

pub erase_absent : (x : ℕ) (ys : List ℕ) → mem x ys ≡ false → erase x ys ≡ ys
erase_absent x [] h = refl
erase_absent x (y ∷ ys) h = ground (arith, erase_absent x ys)

pub mem-erase_self : (x : ℕ) (ys : List ℕ) → mem x (erase x ys) ≡ false
mem-erase_self x [] = refl
mem-erase_self x (y ∷ ys) = ground (arith, mem-erase_self x ys)

pub mem-erase_ne : (x z : ℕ) (ys : List ℕ) → x ≢ z → mem x (erase z ys) ≡ mem x ys
mem-erase_ne x z [] ne = refl
mem-erase_ne x z (y ∷ ys) ne = ground (arith, mem-erase_ne x z ys)

pub mem-erase_absent : (x z : ℕ) (ys : List ℕ) → mem x ys ≡ false → mem x (erase z ys) ≡ false
mem-erase_absent x z [] h = refl
mem-erase_absent x z (y ∷ ys) h = ground (arith, mem-erase_absent x z ys)

pub Distinct-erase : (x : ℕ) (ys : List ℕ) → Distinct ys → Distinct (erase x ys)
Distinct-erase x [] h = tt
Distinct-erase x (y ∷ ys) (h, hs) =
    if_case Distinct (x == y) (λ _. Distinct-erase x ys hs)
      (λ _. (mem-erase_absent y x ys h, Distinct-erase x ys hs))

pub count_absent : (x : ℕ) (ys : List ℕ) → mem x ys ≡ false → count x ys ≡ 0
count_absent x [] h = refl
count_absent x (y ∷ ys) h = ground (arith, count_absent x ys)

pub count-erase_ne : (x z : ℕ) (ys : List ℕ) → x ≢ z → count x (erase z ys) ≡ count x ys
count-erase_ne x z [] ne = refl
count-erase_ne x z (y ∷ ys) ne = ground (arith, count-erase_ne x z ys)

pub count_present : (x : ℕ) (ys : List ℕ) → Distinct ys → mem x ys ≡ true → count x ys ≡ 1
count_present x [] h m = cc
count_present x (y ∷ ys) (h, hs) m = elim (Bool-cases (x == y)) [
  | inl e ↦
      let none_left : count x ys ≡ 0 =
        count_absent x ys (ap (λ z. mem z ys) ((==_iff x y).0 e) ∙ h) in
      ground arith
  | inr ne ↦ ground (arith, count_present x ys hs)
]

pub count-append : (x : ℕ) (xs ys : List ℕ) → count x (xs ++ ys) ≡ count x xs + count x ys
count-append x [] ys = omega arith
count-append x (y ∷ xs) ys = omega (arith, count-append x xs ys)
