-- ===== src/Prelude/Least.antt =====
-- std::priority_queue as a list: the entry that comes first in its order is taken, of equals the first one.
use mathlib.Core.Path.{◌≡◌}
use mathlib.Core.Bool.{Bool, true, false}
use mathlib.Core.List.{List, [], ◌∷◌}
use simple_rpc.Prelude.Tests.{if◌then◌else◌, if_case}
use simple_rpc.Prelude.Lists.{All}
use simple_rpc.Prelude.Perms.{Permᴰ, Permᴰ-refl, Permᴰ_skip, Permᴰ_swap}

-- `top` of a queue that is not empty, and what `pop` leaves. `after a b` says that `b` comes before `a`.
unfoldable pub take_top : {A : Type 0} → (A → A → Bool) → A → List A → A × List A
take_top after e [] = (e, [])
take_top after e (f ∷ q) =
    let (best, rest) = take_top after e q in
    if after best f then (f, best ∷ rest) else (best, f ∷ rest)

module _ {A : Type 0} (after : A → A → Bool) where
  pub take_top-perm :
      (e : A) (q : List A) → (let r = take_top after e q in Permᴰ (r.0 ∷ r.1) (e ∷ q))
  unfolding take_top
  take_top-perm e [] = Permᴰ-refl _
  take_top-perm e (f ∷ q) =
      let ih = take_top-perm e q in
      let r = take_top after e q in
      if_case (λ (t : A × List A). Permᴰ (t.0 ∷ t.1) (e ∷ f ∷ q)) (after r.0 f)
        (λ later. Permᴰ.trans (Permᴰ_skip f ih) (Permᴰ_swap f e q))
        (λ first.
          Permᴰ.trans (Permᴰ_swap r.0 f r.1) (Permᴰ.trans (Permᴰ_skip f ih) (Permᴰ_swap f e q)))

  module _ (First : A → A → Type 0) (trans : (a b c : A) → First a b → First b c → First a c)
      (later : (a b : A) → after a b ≡ true → First b a)
      (first : (a b : A) → after a b ≡ false → First a b) where
    trans-All : (a b : A) (q : List A) → First a b → All (First b) q → All (First a) q
    trans-All a b [] h hs = tt
    trans-All a b (c ∷ q) h (hc, hs) = (trans a b c h hc, trans-All a b q h hs)

    -- No entry that stays comes before the one that is taken.
    pub take_top-All : (e : A) (q : List A) → (let r = take_top after e q in All (First r.0) r.1)
    unfolding take_top
    take_top-All e [] = tt
    take_top-All e (f ∷ q) =
        let ih = take_top-All e q in
        let r = take_top after e q in
        if_case (λ (t : A × List A). All (First t.0) t.1) (after r.0 f)
          (λ b. (later r.0 f b, trans-All f r.0 r.1 (later r.0 f b) ih)) (λ b. (first r.0 f b, ih))
