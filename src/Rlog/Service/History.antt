-- ===== src/Rlog/Service/History.antt =====
-- The calls of `log`, one after another, seen from one source.
use Prim.Native.String.{String}
use text.Mathlib.Text.{◌==◌ as str_eq}
use text.Mathlib.TextEquality.{eq_iff}
use native.Mathlib.Nat.{suc-add}
use mathlib.Core.List.{map-append}
use simple_rpc.Prelude.{
  ℕ, zero, suc, ◌+◌, ◌≡◌, ◌≢◌, refl, sym, ap, ap₂, subst, ◌∙◌, false, List, [], ◌∷◌, ◌++◌, map,
  append-nil, append_assoc, if◌then◌else◌, All, arith, Bool-cases, inl, inr,
}
use simple_rpc.Prelude.Int.{ℤ, pos, ◌<ℤ◌, eq_of_parts}
use simple_rpc.Prelude.Perms.{
  Permᴰ, Permᴰ-refl, Permᴰ_skip, Permᴰ_front, Permᴰ_sym, Permᴰ_prepend, All-perm, All-append_left,
  All-append_right,
}
use simple_rpc.Rlog.Service.{LogPiece, Service, insert, flush, log, lines, fresh, Printed}
use simple_rpc.Rlog.Service.Order.{
  After, Other, IsSorted, upward, Flushed, insert-All, insert-IsSorted, insert-perm, flush-Flushed,
  All-After_trans,
}

pub record Call : Type 0 where
  pub level : ℤ
  pub source : String
  pub msg_id : ℤ
  pub message : String

abbrev pub piece_of : Call → LogPiece
piece_of c = record { msg_id = c.msg_id; level = c.level; message = c.message }

-- What the service holds and what it has printed after calls, of which the last comes first.
unfoldable pub logs : List Call → Service × Printed
logs [] = (fresh, [])
logs (c ∷ before) =
    let (s, printed) = logs before in
    let (s', now) = log c.level c.source c.msg_id c.message s in (s', printed ++ now)

-- The pieces of one source in what was printed, and in the calls.
abbrev pub of_source : String → Printed → List LogPiece
of_source source [] = []
of_source source ((s, p) ∷ printed) =
    let more = of_source source printed in if str_eq source s then p ∷ more else more

abbrev pub asked : String → List Call → List LogPiece
asked source [] = []
asked source (c ∷ before) =
    let more = asked source before in if str_eq source c.source then piece_of c ∷ more else more

abbrev pub Distinct : List LogPiece → Type 0
Distinct [] = Unit {0}
Distinct (p ∷ ps) = All (Other p) ps × Distinct ps

abbrev pub IsPositive : LogPiece → Type 0
IsPositive p = pos 0 <ℤ p.msg_id

-- `n` pieces are printed.
abbrev pub InOrder : List LogPiece → ℤ → List LogPiece → List LogPiece → Type 0
InOrder asked done buffer printed =
    (n : ℕ) × (done ≡ pos n)
    × (map (λ p. p.msg_id) printed ≡ upward 0 n)
    × Permᴰ (printed ++ buffer) asked
    × All (After (pos (n + 1))) buffer
    × IsSorted buffer

beyond :
    (i : ℤ) (m k : ℕ) (ps : List LogPiece)
    → map (λ p. p.msg_id) ps ≡ upward m k
    → All (λ q. i ≢ q.msg_id) ps
    → pos m <ℤ i
    → pos (m + k) <ℤ i
beyond i m zero ps ids others h = omega arith
beyond i m (suc k) [] ids others h = cc
beyond i m (suc k) (q ∷ ps) ids (other, others) h =
    let later : pos (m + 1) <ℤ i = ground (arith, eq_of_parts i q.msg_id) in
    omega (arith, beyond i (m + 1) k ps (ground arith) others later)

upward-append : (m k l : ℕ) → upward m (k + l) ≡ upward m k ++ upward (m + k) l
upward-append m zero l = ap₂ upward (omega arith) (omega arith)
upward-append m (suc k) l =
    let tail : upward (m + 1) (k + l) ≡ upward (m + 1) k ++ upward (m + suc k) l =
      upward-append (m + 1) k l ∙ ap (λ j. upward (m + 1) k ++ upward j l) (omega arith) in
    rw (suc-add k l) (ap (λ t. pos (m + 1) ∷ t) tail)

-- A further piece of the source itself.
Flushed-InOrder :
    (p : LogPiece) (before : List LogPiece) (n : ℕ) (buffer printed : List LogPiece)
    (r : ℤ × List LogPiece × List LogPiece)
    → All (Other p) buffer
    → map (λ p. p.msg_id) printed ≡ upward 0 n
    → Permᴰ (printed ++ buffer) before
    → Flushed n (insert p buffer) r
    → InOrder (p ∷ before) r.0 r.1 (printed ++ r.2)
Flushed-InOrder p before n buffer printed (done, left, now) others ids perm
      (k, at, new, split, behind, sorted) =
    (
      n + k,
      at,
      map-append (λ p. p.msg_id) printed now
          ∙ ap₂ (λ a b. a ++ b) ids (new ∙ ap (λ j. upward j k) (omega arith))
          ∙ sym (upward-append 0 n k),
      subst (λ t. Permᴰ t (p ∷ before))
          (ap (λ t. printed ++ t) split ∙ sym (append_assoc printed now left))
          (Permᴰ.trans (Permᴰ_prepend printed (insert-perm p buffer others))
            (Permᴰ.trans (Permᴰ_front p printed buffer) (Permᴰ_skip p perm))),
      behind,
      sorted,
    )

flush-InOrder :
    (p : LogPiece) (before : List LogPiece) (done : ℤ) (buffer printed : List LogPiece)
    → IsPositive p
    → All (Other p) before
    → InOrder before done buffer printed
    → (let r = flush done (insert p buffer) in InOrder (p ∷ before) r.0 r.1 (printed ++ r.2))
flush-InOrder p before done buffer printed above others (n, at, ids, perm, behind, sorted) =
    let all_others : All (Other p) (printed ++ buffer) =
      All-perm (Other p) (Permᴰ_sym perm) others in
    let new : pos n <ℤ p.msg_id = omega (
      arith,
      beyond p.msg_id 0 n printed ids (All-append_left (Other p) printed buffer all_others) above,
    ) in
    let apart : All (Other p) buffer = All-append_right (Other p) printed buffer all_others in
    subst (λ d. let r = flush d (insert p buffer) in InOrder (p ∷ before) r.0 r.1 (printed ++ r.2))
      (sym at)
      (Flushed-InOrder p before n buffer printed (flush (pos n) (insert p buffer)) apart ids perm (
        flush-Flushed n (insert p buffer)
          (insert-All (After (pos n)) p buffer new
            (All-After_trans (pos n) (pos (n + 1)) buffer (omega arith) behind))
          (insert-IsSorted p buffer sorted)))

of_source-append :
    (source : String) (xs ys : Printed)
    → of_source source (xs ++ ys) ≡ of_source source xs ++ of_source source ys
of_source-append source [] ys = refl
of_source-append source ((s, p) ∷ xs) ys = ground (arith, of_source-append source xs ys)

of_source-lines :
    (source s : String) (ps : List LogPiece)
    → of_source source (lines s ps) ≡ (if str_eq source s then ps else [])
of_source-lines source s [] = ground arith
of_source-lines source s (p ∷ ps) = ground (arith, of_source-lines source s ps)

abbrev pub Ordered : String → List LogPiece → Service × Printed → Type 0
Ordered source before (s, printed) =
    InOrder before (s.done_ source) (s.buffer_ source) (of_source source printed)

abbrev answer : Call → Service × Printed → Service × Printed
answer c (s, printed) =
    let (s', now) = log c.level c.source c.msg_id c.message s in (s', printed ++ now)

-- A call of the source itself, and one of another source.
own-Ordered :
    (source : String) (c : Call) (before : List LogPiece) (r : Service × Printed)
    → source ≡ c.source
    → IsPositive (piece_of c)
    → All (Other (piece_of c)) before
    → Ordered source before r
    → Ordered source (piece_of c ∷ before) (answer c r)
unfolding log
own-Ordered source c before (s, printed) same above others h =
    rw
      (
        of_source-append source printed,
        of_source-lines source c.source,
        (eq_iff source c.source).1 same,
        sym same,
      )
      (flush-InOrder (piece_of c) before (s.done_ source) (s.buffer_ source)
        (of_source source printed) above others h)

other-Ordered :
    (source : String) (c : Call) (before : List LogPiece) (r : Service × Printed)
    → str_eq source c.source ≡ false
    → Ordered source before r
    → Ordered source before (answer c r)
unfolding log
other-Ordered source c before (s, printed) other h =
    rw
      (
        of_source-append source printed,
        of_source-lines source c.source,
        other,
        append-nil (of_source source printed),
      )
      h

-- If the ids of the pieces that a source has sent are positive and different, then those printed for it are
-- the numbers from 1 to `done_` in order without a gap, what was sent is what was printed and what the
-- buffer holds, and the piece that follows the last one printed is not in the buffer.
pub logs-Ordered :
    (source : String) (calls : List Call)
    → All IsPositive (asked source calls)
    → Distinct (asked source calls)
    → Ordered source (asked source calls) (logs calls)
unfolding logs
logs-Ordered source [] above apart = (0, refl, refl, Permᴰ-refl [], tt, tt)
logs-Ordered source (c ∷ before) above apart = elim (Bool-cases (str_eq source c.source)) [
  | inl same ↦
      let above' : All IsPositive (piece_of c ∷ asked source before) = rw same at above in
      let apart' : Distinct (piece_of c ∷ asked source before) = rw same at apart in
      rw same (
        own-Ordered source c (asked source before) (logs before) ((eq_iff source c.source).0 same)
          above'.0 apart'.0 (logs-Ordered source before above'.1 apart'.1))
  | inr other ↦ rw other (
      other-Ordered source c (asked source before) (logs before) other
        (logs-Ordered source before (rw other at above) (rw other at apart)))
]
