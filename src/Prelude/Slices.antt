-- ===== src/Prelude/Slices.antt =====
-- Prefixes and suffixes of lists.
use Prim.Native.Nat.{ℕ, zero, suc, ◌+◌, ◌-◌, ◌≤◌, min}
use mathlib.Core.Path.{◌≡◌, refl, sym, ap, ap₂, ◌∙◌}
use mathlib.Core.List.{List, [], ◌∷◌, ◌++◌}
use native.Mathlib.Omega.{arith}
use native.Mathlib.Nat.{zero-add, suc-add}
use mathlib.Core.Logic.{inl, inr}
use simple_rpc.Prelude.Tests.{Bool-cases, leb}
use simple_rpc.Prelude.Lists.{length, take, drop, length-append, length-take, length-drop}

suc-min : (m n : ℕ) → suc (min m n) ≡ min (suc m) (suc n)
suc-min m n = omega arith

zero_sub : (m : ℕ) → 0 - suc m ≡ 0
zero_sub m = omega arith

module _ {ℓ} {A : Type ℓ} where
  pub take-append_left : (xs ys : List A) (n : ℕ) → n ≤ length xs → take n (xs ++ ys) ≡ take n xs
  take-append_left xs ys zero h = refl
  take-append_left [] ys (suc n) h = absurd (omega arith)
  take-append_left (x ∷ xs) ys (suc n) h = ap (λ t. x ∷ t) (take-append_left xs ys n (omega arith))

  pub take-append_exact : (n : ℕ) (xs ys : List A) → length xs ≡ n → take n (xs ++ ys) ≡ xs
  take-append_exact zero [] ys h = refl
  take-append_exact zero (x ∷ xs) ys h = absurd (omega arith)
  take-append_exact (suc n) [] ys h = absurd (omega arith)
  take-append_exact (suc n) (x ∷ xs) ys h =
      ap (λ t. x ∷ t) (take-append_exact n xs ys (omega arith))

  pub drop-append_exact : (n : ℕ) (xs ys : List A) → length xs ≡ n → drop n (xs ++ ys) ≡ ys
  drop-append_exact zero [] ys h = refl
  drop-append_exact zero (x ∷ xs) ys h = absurd (omega arith)
  drop-append_exact (suc n) [] ys h = absurd (omega arith)
  drop-append_exact (suc n) (x ∷ xs) ys h = drop-append_exact n xs ys (omega arith)

  pub drop-append_left :
      (n : ℕ) (xs ys : List A) → n ≤ length xs → drop n (xs ++ ys) ≡ drop n xs ++ ys
  drop-append_left zero xs ys h = refl
  drop-append_left (suc n) [] ys h = absurd (omega arith)
  drop-append_left (suc n) (x ∷ xs) ys h = drop-append_left n xs ys (omega arith)

  -- Beyond `xs` the counts go on into `ys`.
  pub take-append_right :
      (xs ys : List A) (n : ℕ) → take (length xs + n) (xs ++ ys) ≡ xs ++ take n ys
  take-append_right [] ys n = rw (zero-add n)
  take-append_right (x ∷ xs) ys n =
      rw (suc-add (length xs) n) (ap (λ t. x ∷ t) (take-append_right xs ys n))

  pub drop-append_right : (xs ys : List A) (n : ℕ) → drop (length xs + n) (xs ++ ys) ≡ drop n ys
  drop-append_right [] ys n = rw (zero-add n)
  drop-append_right (x ∷ xs) ys n = rw (suc-add (length xs) n) (drop-append_right xs ys n)

  pub take_all : (n : ℕ) (xs : List A) → length xs ≤ n → take n xs ≡ xs
  take_all zero [] h = refl
  take_all zero (x ∷ xs) h = absurd (omega arith)
  take_all (suc n) [] h = refl
  take_all (suc n) (x ∷ xs) h = ap (λ t. x ∷ t) (take_all n xs (omega arith))

  pub drop_all : (n : ℕ) (xs : List A) → length xs ≤ n → drop n xs ≡ []
  drop_all zero [] h = refl
  drop_all zero (x ∷ xs) h = absurd (omega arith)
  drop_all (suc n) [] h = refl
  drop_all (suc n) (x ∷ xs) h = drop_all n xs (omega arith)

  pub drop_nil : (k : ℕ) → drop {A = A} k [] ≡ []
  drop_nil zero = refl
  drop_nil (suc k) = refl

  pub take_nil : (k : ℕ) → take {A = A} k [] ≡ []
  take_nil zero = refl
  take_nil (suc k) = refl

  pub drop-drop : (m n : ℕ) (xs : List A) → drop m (drop n xs) ≡ drop (n + m) xs
  drop-drop m zero xs = rw (zero-add m)
  drop-drop m (suc n) [] = rw (suc-add n m) (drop_nil m)
  drop-drop m (suc n) (x ∷ xs) = rw (suc-add n m) (drop-drop m n xs)

  -- A prefix, and what follows it within a longer prefix.
  pub take-split :
      (m n : ℕ) (xs : List A) → m ≤ n → take n xs ≡ take m xs ++ take (n - m) (drop m xs)
  take-split zero n xs h = ap (λ k. take k xs) (omega arith)
  take-split (suc m) zero xs h = absurd (omega arith)
  take-split (suc m) (suc n) [] h = sym (take_nil (suc n - suc m))
  take-split (suc m) (suc n) (x ∷ xs) h =
      ap (λ t. x ∷ t)
        (take-split m n xs (omega arith) ∙ ap (λ k. take m xs ++ take k (drop m xs)) (omega arith))

module _ {ℓ} {A : Type ℓ} where
  pub take-take : (m n : ℕ) (xs : List A) → take m (take n xs) ≡ take (min m n) xs
  take-take zero n xs = ap (λ k. take k xs) {x = 0} (omega arith)
  take-take (suc m) zero xs = ap (λ k. take k xs) {x = 0} (omega arith)
  take-take (suc m) (suc n) [] = sym (take_nil (min (suc m) (suc n)))
  take-take (suc m) (suc n) (x ∷ xs) =
      ap (λ t. x ∷ t) (take-take m n xs) ∙ ap (λ k. take k (x ∷ xs)) (suc-min m n)

  pub drop-take : (m n : ℕ) (xs : List A) → drop m (take n xs) ≡ take (n - m) (drop m xs)
  drop-take zero n xs = ap (λ k. take k xs) (omega arith)
  drop-take (suc m) zero xs = sym (ap (λ k. take k (drop (suc m) xs)) (zero_sub m))
  drop-take (suc m) (suc n) [] = sym (take_nil (suc n - suc m))
  drop-take (suc m) (suc n) (x ∷ xs) = drop-take m n xs ∙ ap (λ k. take k (drop m xs)) (omega arith)

  -- `p` put over the elements from `i` on.
  abbrev pub splice : List A → ℕ → List A → List A
  splice bs i p = take i bs ++ (p ++ drop (i + length p) bs)

  pub length-splice :
      (bs : List A) (i : ℕ) (p : List A)
      → i + length p ≤ length bs
      → length (splice bs i p) ≡ length bs
  length-splice bs i p h = omega (
    arith,
    length-append (take i bs) (p ++ drop (i + length p) bs),
    length-append p (drop (i + length p) bs),
    length-take i bs,
    length-drop (i + length p) bs,
  )

  -- The slice from `r` to the end of `p` is the old slice from `r` to `i`, then `p`.
  pub slice-splice :
      (bs : List A) (r i : ℕ) (p : List A)
      → r ≤ i
      → i + length p ≤ length bs
      → take (i + length p - r) (drop r (splice bs i p)) ≡ take (i - r) (drop r bs) ++ p
  slice-splice bs r i p h k =
      let front = take (i - r) (drop r bs) in
      let long : length front ≡ i - r =
        omega (arith, length-take (i - r) (drop r bs), length-drop r bs) in
      rw
        (
          drop-append_left r (take i bs) (p ++ drop (i + length p) bs)
              (omega (arith, length-take i bs)),
          drop-take r i bs,
        )
        (ap (λ n. take n (front ++ (p ++ drop (i + length p) bs))) (omega arith)
          ∙ take-append_right front (p ++ drop (i + length p) bs) (length p)
          ∙ ap (λ t. front ++ t) (take-append_exact (length p) p (drop (i + length p) bs) refl))

  -- A slice that ends before `i` is not changed.
  pub slice-splice_before :
      (bs : List A) (r w i : ℕ) (p : List A)
      → w ≤ i
      → i ≤ length bs
      → take (w - r) (drop r (splice bs i p)) ≡ take (w - r) (drop r bs)
  slice-splice_before bs r w i p h k =
      sym (drop-take r w (splice bs i p))
      ∙ ap (drop r) (
          take-append_left (take i bs) (p ++ drop (i + length p) bs) w
            (omega (arith, length-take i bs))
          ∙ take-take w i bs
          ∙ ap (λ n. take n bs) (omega arith))
      ∙ drop-take r w bs

  -- What is left of a slice once at most `n` elements are taken off its front.
  pub slice-advance :
      (r w n : ℕ) (bs : List A)
      → take (w - (r + min n (w - r))) (drop (r + min n (w - r)) bs)
        ≡ drop n (take (w - r) (drop r bs))
  slice-advance r w n bs = sym (
      drop-take n (w - r) (drop r bs)
      ∙ ap (take (w - r - n)) (drop-drop n r bs)
      ∙ elim (Bool-cases (leb n (w - r))) [
        | inl le ↦ ap₂ (λ a b. take a (drop b bs)) (omega arith) (ap (λ k. r + k) (ground arith))
        | inr gt ↦
            ap (λ a. take a (drop (r + n) bs)) {y = 0} (ground arith)
            ∙ ap (λ a. take a (drop (r + min n (w - r)) bs)) {x = 0} (ground arith)
      ])

module _ {ℓ} {A : Type ℓ} where
  pub take-append :
      (n : ℕ) (xs ys : List A) → take n (xs ++ ys) ≡ take n xs ++ take (n - length xs) ys
  take-append zero [] ys = refl
  take-append zero (x ∷ xs) ys = ap (λ k. take k ys) {x = 0} (omega arith)
  take-append (suc n) [] ys = ap (λ k. take k ys) {x = suc n} {y = suc n - 0} (omega arith)
  take-append (suc n) (x ∷ xs) ys =
      ap (λ t. x ∷ t)
        (take-append n xs ys
          ∙ ap (λ k. take n xs ++ take k ys) {x = n - length xs} {y = suc n - suc (length xs)}
              (omega arith))

  pub drop-append :
      (n : ℕ) (xs ys : List A) → drop n (xs ++ ys) ≡ drop n xs ++ drop (n - length xs) ys
  drop-append zero [] ys = refl
  drop-append zero (x ∷ xs) ys = ap (λ k. x ∷ xs ++ drop k ys) {x = 0} (omega arith)
  drop-append (suc n) [] ys = ap (λ k. drop k ys) {x = suc n} {y = suc n - 0} (omega arith)
  drop-append (suc n) (x ∷ xs) ys =
      drop-append n xs ys
      ∙ ap (λ k. drop n xs ++ drop k ys) {x = n - length xs} {y = suc n - suc (length xs)}
          (omega arith)

  -- The rest of a prefix, after what `xs` could give.
  pub take-append_rest :
      (n : ℕ) (xs ys : List A) → take n xs ++ take (n - length (take n xs)) ys ≡ take n (xs ++ ys)
  take-append_rest n xs ys =
      ap (λ k. take n xs ++ take k ys) {y = n - length xs} (omega (arith, length-take n xs))
      ∙ sym (take-append n xs ys)

  pub nil_of_length : (xs : List A) → length xs ≡ 0 → xs ≡ []
  nil_of_length [] h = refl
  nil_of_length (x ∷ xs) h = absurd (omega arith)
