-- ===== src/Prelude/Perms.antt =====
-- Lists with the same members in another order, and predicates on every member.
use mathlib.Core.Path.{◌≡◌, refl, ap, subst, ◌∙◌}
use Prim.Native.Nat.{suc}
use mathlib.Core.List.{List, [], ◌∷◌, ◌++◌, append_assoc}
pub use mathlib.Core.List.{Permᴰ}
use mathlib.Core.List.Permᴰ
use simple_rpc.Prelude.Lists.{All, length}

module _ {ℓ} {A : Type ℓ} where
  pub Permᴰ-refl : (xs : List A) → Permᴰ xs xs
  Permᴰ-refl xs = Permᴰ.refl xs

  pub Permᴰ_skip : (x : A) {xs ys : List A} → Permᴰ xs ys → Permᴰ (x ∷ xs) (x ∷ ys)
  Permᴰ_skip x p = Permᴰ.cons refl p

  pub Permᴰ_sym : {xs ys : List A} → Permᴰ xs ys → Permᴰ ys xs
  Permᴰ_sym p = Permᴰ.symm p

  pub Permᴰ_prepend : (zs : List A) {xs ys : List A} → Permᴰ xs ys → Permᴰ (zs ++ xs) (zs ++ ys)
  Permᴰ_prepend zs p = Permᴰ.append_left zs p

  -- The element behind `xs` to the front.
  pub Permᴰ_front : (x : A) (xs ys : List A) → Permᴰ (xs ++ (x ∷ ys)) (x ∷ (xs ++ ys))
  Permᴰ_front x xs ys = Permᴰ.middle x xs ys

module _ {ℓ κ} {A : Type ℓ} (P : A → Type κ) where
  pub All-perm : {xs ys : List A} → Permᴰ xs ys → All P xs → All P ys
  All-perm Permᴰ.nil h = tt
  All-perm (Permᴰ.cons e p) (h, hs) = (subst P e h, All-perm p hs)
  All-perm (Permᴰ.swap e f) (h, (h2, hs)) = (subst P f h2, (subst P e h, hs))
  All-perm (Permᴰ.trans p q) h = All-perm q (All-perm p h)

  pub All-append_left : (xs ys : List A) → All P (xs ++ ys) → All P xs
  All-append_left [] ys h = tt
  All-append_left (x ∷ xs) ys (h, hs) = (h, All-append_left xs ys hs)

  pub All-append_right : (xs ys : List A) → All P (xs ++ ys) → All P ys
  All-append_right [] ys h = h
  All-append_right (x ∷ xs) ys (h, hs) = All-append_right xs ys hs

module _ {ℓ} {A : Type ℓ} where
  pub Permᴰ_swap : (x y : A) (xs : List A) → Permᴰ (x ∷ y ∷ xs) (y ∷ x ∷ xs)
  Permᴰ_swap x y xs = Permᴰ.swap refl refl

  -- Two pieces in front of a third.
  pub Permᴰ_exchange : (xs ys zs : List A) → Permᴰ (xs ++ (ys ++ zs)) (ys ++ (xs ++ zs))
  Permᴰ_exchange xs ys zs =
      subst (λ l. Permᴰ l (ys ++ (xs ++ zs))) (append_assoc xs ys zs)
        (subst (Permᴰ ((xs ++ ys) ++ zs)) (append_assoc ys xs zs)
          (Permᴰ.append_right zs (Permᴰ.append_comm xs ys)))

  pub length-Permᴰ : {xs ys : List A} → Permᴰ xs ys → length xs ≡ length ys
  length-Permᴰ Permᴰ.nil = refl
  length-Permᴰ (Permᴰ.cons e p) = ap suc (length-Permᴰ p)
  length-Permᴰ (Permᴰ.swap e f) = refl
  length-Permᴰ (Permᴰ.trans p q) = length-Permᴰ p ∙ length-Permᴰ q

module _ {ℓ κ} {A : Type ℓ} (P : A → Type κ) where
  pub All-append : (xs ys : List A) → All P xs → All P ys → All P (xs ++ ys)
  All-append [] ys h k = k
  All-append (x ∷ xs) ys (h, hs) k = (h, All-append xs ys hs k)
