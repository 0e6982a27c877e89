-- ===== src/Rpc/Stream/Containers/Order.antt =====
-- A container that is filled with its own elements, one by one, in their order.
use simple_rpc.Prelude.{
  ◌≡◌, refl, sym, ap, ◌∙◌, Bool, true, false, List, [], ◌∷◌, ◌++◌, All, append-nil, append_assoc,
}
use simple_rpc.Rpc.Stream.Containers.{push_back, insert_set}

module _ {A : Type 0} where
  -- The elements of the second list into what the first one holds.
  abbrev pub filled : (A → List A → List A) → List A → List A → List A
  filled ins v [] = v
  filled ins v (x ∷ xs) = filled ins (ins x v) xs

  pub filled_list : (v xs : List A) → filled push_back v xs ≡ v ++ xs
  filled_list v [] = sym (append-nil v)
  filled_list v (x ∷ xs) = filled_list (v ++ (x ∷ [])) xs ∙ append_assoc v (x ∷ []) xs

  module _ (before : A → A → Bool) where
    abbrev pub IsAscending : List A → Type 0
    IsAscending [] = Unit {0}
    IsAscending (x ∷ xs) = All (λ y. before x y ≡ true) xs × IsAscending xs

  module _ (before : A → A → Bool)
      (asymmetric : (x y : A) → before x y ≡ true → before y x ≡ false) where
    -- An element behind all others.
    insert_set_last :
        (x : A) (v : List A)
        → All (λ y. before y x ≡ true) v
        → insert_set before x v ≡ v ++ (x ∷ [])
    insert_set_last x [] h = refl
    insert_set_last x (y ∷ v) (h, hs) =
        rw (asymmetric y x h, h) (ap (λ t. y ∷ t) (insert_set_last x v hs))

    abbrev pub Behind : List A → List A → Type 0
    Behind v xs = All (λ x. All (λ y. before y x ≡ true) v) xs

    Behind-snoc :
        (v xs : List A) (x : A)
        → Behind v xs
        → All (λ y. before x y ≡ true) xs
        → Behind (v ++ (x ∷ [])) xs
    Behind-snoc v [] x h k = tt
    Behind-snoc v (z ∷ xs) x (h, hs) (k, ks) = (All_snoc v h k, Behind-snoc v xs x hs ks)
      where
        All_snoc :
            (v : List A)
            → All (λ y. before y z ≡ true) v
            → before x z ≡ true
            → All (λ y. before y z ≡ true) (v ++ (x ∷ []))
        All_snoc [] h k = (k, tt)
        All_snoc (y ∷ v) (h, hs) k = (h, All_snoc v hs k)

    pub filled_set :
        (v xs : List A)
        → Behind v xs
        → IsAscending before xs
        → filled (insert_set before) v xs ≡ v ++ xs
    filled_set v [] h k = sym (append-nil v)
    filled_set v (x ∷ xs) (h, hs) (k, ks) =
        ap (λ t. filled (insert_set before) t xs) (insert_set_last x v h)
        ∙ filled_set (v ++ (x ∷ [])) xs (Behind-snoc v xs x hs k) ks
        ∙ append_assoc v (x ∷ []) xs

    nothing_before : (xs : List A) → Behind [] xs
    nothing_before [] = tt
    nothing_before (x ∷ xs) = (tt, nothing_before xs)

    pub filled-ascending :
        (xs : List A) → IsAscending before xs → filled (insert_set before) [] xs ≡ xs
    filled-ascending xs h = filled_set [] xs (nothing_before xs) h
