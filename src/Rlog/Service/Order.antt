-- ===== src/Rlog/Service/Order.antt =====
-- The order in which `RLogServiceImpl::log` prints the pieces of a source.
use simple_rpc.Prelude.{
  ℕ, zero, suc, ◌+◌, ◌≡◌, ◌≢◌, refl, ap, ap₂, subst, ◌∙◌, List, [], ◌∷◌, ◌++◌, map, not, All, arith,
  if_case,
}
use simple_rpc.Prelude.Int.{ℤ, pos, leb_ℤ, ◌<ℤ◌, succ_ℤ, max_ℤ, eq_of_parts}
use simple_rpc.Prelude.Perms.{Permᴰ, Permᴰ-refl, Permᴰ_skip}
use simple_rpc.Rlog.Service.{LogPiece, insert, flush}

abbrev pub After : ℤ → LogPiece → Type 0
After i p = i <ℤ p.msg_id

abbrev pub IsSorted : List LogPiece → Type 0
IsSorted [] = Unit {0}
IsSorted (p ∷ ps) = All (After p.msg_id) ps × IsSorted ps

abbrev pub Other : LogPiece → LogPiece → Type 0
Other p q = p.msg_id ≢ q.msg_id

-- The ids of the `k` pieces behind that of number `n`.
abbrev pub upward : ℕ → ℕ → List ℤ
upward n zero = []
upward n (suc k) = pos (n + 1) ∷ upward (n + 1) k

pub insert-All :
    (P : LogPiece → Type 0) (p : LogPiece) (ps : List LogPiece)
    → P p
    → All P ps
    → All P (insert p ps)
unfolding insert
insert-All P p [] h hs = (h, tt)
insert-All P p (q ∷ ps) h hs = ground (arith, insert-All P p ps h)

pub All-After_trans : (i j : ℤ) (ps : List LogPiece) → i <ℤ j → All (After j) ps → All (After i) ps
All-After_trans i j [] h hs = tt
All-After_trans i j (p ∷ ps) h (hp, hs) = (omega arith, All-After_trans i j ps h hs)

pub insert-IsSorted : (p : LogPiece) (ps : List LogPiece) → IsSorted ps → IsSorted (insert p ps)
unfolding insert
insert-IsSorted p [] h = (tt, tt)
insert-IsSorted p (q ∷ ps) (h, hs) =
    if_case IsSorted (not (leb_ℤ q.msg_id p.msg_id))
      (λ less. ((ground arith, All-After_trans p.msg_id q.msg_id ps (ground arith) h), (h, hs)))
      (λ more.
        if_case IsSorted (not (leb_ℤ p.msg_id q.msg_id))
          (λ greater. (insert-All (After q.msg_id) p ps (ground arith) h, insert-IsSorted p ps hs))
          (λ same. (h, hs)))

pub insert-perm :
    (p : LogPiece) (ps : List LogPiece) → All (Other p) ps → Permᴰ (insert p ps) (p ∷ ps)
unfolding insert
insert-perm p [] h = Permᴰ-refl _
insert-perm p (q ∷ ps) (h, hs) =
    if_case (λ t. Permᴰ t (p ∷ q ∷ ps)) (not (leb_ℤ q.msg_id p.msg_id)) (λ less. Permᴰ-refl _)
      (λ more.
        if_case (λ t. Permᴰ t (p ∷ q ∷ ps)) (not (leb_ℤ p.msg_id q.msg_id))
          (λ greater. Permᴰ.trans (Permᴰ_skip q (insert-perm p ps hs)) (Permᴰ.swap refl refl))
          (λ same. absurd (h (eq_of_parts p.msg_id q.msg_id (ground arith)))))

-- What the loop makes of a sorted buffer whose pieces lie behind that of number `n`: the first `k` go, which
-- are the next ones without a gap, and the one behind them is not there.
abbrev pub Flushed : ℕ → List LogPiece → ℤ × List LogPiece × List LogPiece → Type 0
Flushed n buffer (done, left, printed) =
    (k : ℕ) × (done ≡ pos (n + k))
    × (map (λ p. p.msg_id) printed ≡ upward n k)
    × (buffer ≡ printed ++ left)
    × All (After (pos (n + k + 1))) left
    × IsSorted left

-- `printed` grows at the front.
cons-Flushed :
    (n : ℕ) (p : LogPiece) (buffer : List LogPiece) (r : ℤ × List LogPiece × List LogPiece)
    → p.msg_id ≡ pos (n + 1)
    → Flushed (n + 1) buffer r
    → Flushed n (p ∷ buffer) (r.0, r.1, p ∷ r.2)
cons-Flushed n p buffer (done, left, printed) next (k, at, ids, split, behind, sorted) = (
  suc k,
  at ∙ ap pos (omega arith),
  ap₂ (λ i is. i ∷ is) next ids,
  ap (λ t. p ∷ t) split,
  subst (λ m. All (After (pos m)) left) (omega arith) behind,
  sorted,
)

pub flush-Flushed :
    (n : ℕ) (buffer : List LogPiece)
    → All (After (pos n)) buffer
    → IsSorted buffer
    → Flushed n buffer (flush (pos n) buffer)
unfolding flush
flush-Flushed n [] later sorted = (0, ap pos (omega arith), refl, refl, tt, tt)
flush-Flushed n (p ∷ buffer) (later, _) (h, hs) =
    if_case (Flushed n (p ∷ buffer)) (leb_ℤ p.msg_id (succ_ℤ (pos n)))
      (λ is_next.
        let next : p.msg_id ≡ pos (n + 1) = eq_of_parts p.msg_id (pos (n + 1)) (ground arith) in
        cons-Flushed n p buffer (flush (max_ℤ (pos n) p.msg_id) buffer) next (
          subst (λ i. Flushed (n + 1) buffer (flush i buffer)) (ground arith)
            (flush-Flushed (n + 1) buffer (subst (λ i. All (After i) buffer) next h) hs)))
      (λ gap. (
        0,
        ap pos (omega arith),
        refl,
        refl,
        (ground arith, All-After_trans (pos (n + 0 + 1)) p.msg_id buffer (ground arith) h),
        (h, hs),
      ))
