-- ===== src/Prelude/Sets.antt =====
-- The replacement of one element, seen through slices.
use Prim.Native.Nat.{ℕ, zero, suc, ◌+◌, ◌<◌}
use mathlib.Core.Path.{◌≡◌, refl, ap}
use mathlib.Core.List.{List, [], ◌∷◌, ◌++◌}
use native.Mathlib.Omega.{arith}
use native.Mathlib.Nat.{zero-add, suc-add}
use simple_rpc.Prelude.Lists.{length, take, drop, set}
use simple_rpc.Prelude.Slices.{splice}

module _ {ℓ} {A : Type ℓ} where
  pub splice-eq-set :
      (bs : List A) (i : ℕ) (b : A) → i < length bs → splice bs i (b ∷ []) ≡ set bs i b
  splice-eq-set [] i b h = absurd (omega arith)
  splice-eq-set (x ∷ bs) zero b h = refl
  splice-eq-set (x ∷ bs) (suc i) b h =
      rw (suc-add i 1) (ap (λ t. x ∷ t) (splice-eq-set bs i b (omega arith)))

  pub drop-set : (f k : ℕ) (bs : List A) (b : A) → drop f (set bs (f + k) b) ≡ set (drop f bs) k b
  drop-set zero k bs b = rw (zero-add k)
  drop-set (suc f) k [] b = refl
  drop-set (suc f) k (x ∷ bs) b = rw (suc-add f k) (drop-set f k bs b)

  pub take-set : (m k : ℕ) (bs : List A) (b : A) → take m (set bs k b) ≡ set (take m bs) k b
  take-set zero k bs b = refl
  take-set (suc m) k [] b = refl
  take-set (suc m) zero (x ∷ bs) b = refl
  take-set (suc m) (suc k) (x ∷ bs) b = ap (λ t. x ∷ t) (take-set m k bs b)

  -- The element behind `a`.
  pub set-append : (a r : List A) (g b : A) → set (a ++ (g ∷ r)) (length a) b ≡ a ++ (b ∷ r)
  set-append [] r g b = refl
  set-append (x ∷ a) r g b = ap (λ t. x ∷ t) (set-append a r g b)

  -- In the first list or in the second.
  pub set-append_left :
      (us bs : List A) (k : ℕ) (b : A) → k < length us → set (us ++ bs) k b ≡ set us k b ++ bs
  set-append_left [] bs k b h = absurd (omega arith)
  set-append_left (x ∷ us) bs zero b h = refl
  set-append_left (x ∷ us) bs (suc k) b h =
      ap (λ t. x ∷ t) (set-append_left us bs k b (omega arith))

  pub set-append_right :
      (us bs : List A) (k n : ℕ) (b : A) → n ≡ length us + k → set (us ++ bs) n b ≡ us ++ set bs k b
  set-append_right [] bs k n b e = ap (λ i. set bs i b) (omega arith)
  set-append_right (x ∷ us) bs k zero b e = absurd (omega arith)
  set-append_right (x ∷ us) bs k (suc n) b e =
      ap (λ t. x ∷ t) (set-append_right us bs k n b (omega arith))
