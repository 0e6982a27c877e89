-- ===== src/Base/Strop/Split.antt =====
-- What `strsplit` of base/strop.cc gives.
use simple_rpc.Prelude.{
  ℕ, zero, suc, ◌+◌, ◌-◌, ◌<◌, ◌≡◌, refl, sym, ap, ap₂, subst, ◌∙◌, ◌⊎◌, inl, inr, Bool, true,
  false, [], ◌∷◌, ◌++◌, Option, none, some, if◌then◌else◌, All, length, length-append, length-drop,
  take, drop, arith, append-nil, Bool-cases, drop-drop, drop-append_exact, take-append_exact,
  lt→ltb,
}
use simple_rpc.Prelude.Fault.{Gives, gives, ◌>>=◌}
use simple_rpc.Base.Strop.Words.{
  words, words-word, words-sep, words-skip, words-flush, words-flush_nil, flush_some, IsWord, join,
  without, words-All, join-words,
}
use simple_rpc.Base.Strop.{
  Text, find_if, find_from, is_sep, not_sep, substr, split_round, split_loop, strsplit,
}

-- `p` fails for every byte, or there is a first one at which it holds.
abbrev Found : (ℕ → Bool) → ℕ → Text → Type 0
Found p i s =
    (All (λ c. p c ≡ false) s × (find_if p i s ≡ none))
    ⊎ ((w : Text) × (c : ℕ) × (r : Text) × (s ≡ w ++ (c ∷ r))
        × All (λ d. p d ≡ false) w
        × (p c ≡ true)
        × (find_if p i s ≡ some (i + length w)))

Found-cons :
    (p : ℕ → Bool) (i c : ℕ) (s : Text) → p c ≡ false → Found p (i + 1) s → Found p i (c ∷ s)
unfolding find_if
Found-cons p i c s fails (inl (all, at)) = inl ((fails, all), rw fails at)
Found-cons p i c s fails (inr (w, d, r, split, all, holds, at)) =
    inr (
      c ∷ w,
      d,
      r,
      ap (λ t. c ∷ t) split,
      (fails, all),
      holds,
      rw fails (at ∙ ap some (omega arith)),
    )

find_if-Found : (p : ℕ → Bool) (i : ℕ) (s : Text) → Found p i s
unfolding find_if
find_if-Found p i [] = inl (tt, refl)
find_if-Found p i (c ∷ s) = elim (Bool-cases (p c)) [
  | inl holds ↦ inr ([], c, s, refl, tt, holds, rw holds (ap some (omega arith)))
  | inr fails ↦ Found-cons p i c s fails (find_if-Found p (i + 1) s)
]

module _ (str : Text) (sep : ℕ) where
  -- The loop at the fuel that is given, from a place on, gives the words behind that place.
  abbrev Splits : ℕ → Option ℕ → ℕ → Type 0
  Splits fuel begin place = split_loop fuel str sep begin ≡ some (words sep [] (drop place str))

  abbrev IsStart : ℕ → Type 0
  IsStart place = (c : ℕ) × (r : Text) × (drop place str ≡ c ∷ r) × (is_sep sep c ≡ false)

  -- A word that goes to the end of the text.
  last_word :
      (fuel begin : ℕ)
      → IsStart begin
      → All (λ c. is_sep sep c ≡ false) (drop begin str)
      → find_if (is_sep sep) begin (drop begin str) ≡ none
      → Splits (suc fuel) (some begin) begin
  unfolding split_loop
  last_word fuel begin (c, r, at, starts) all missing =
      let inside : begin < length str = omega (arith, ap length at, length-drop begin str) in
      let some_bytes : 0 < length (drop begin str) = omega (arith, ap length at) in
      let whole : words sep [] (drop begin str) ≡ drop begin str ∷ [] =
        ap (words sep []) (sym (append-nil (drop begin str)))
        ∙ words-word sep [] (drop begin str) [] all
        ∙ words-flush sep (drop begin str) some_bytes in
      ap (split_round (split_loop fuel str sep) str sep begin) missing
      ∙ ap (λ b. some (if b then drop begin str ∷ [] else [])) (lt→ltb begin (length str) inside)
      ∙ ap some (sym whole)

  not_empty :
      (w : Text) (c : ℕ) (r : Text) (d : ℕ) (t : Text)
      → is_sep sep c ≡ true
      → is_sep sep d ≡ false
      → w ++ (c ∷ r) ≡ d ∷ t
      → 0 < length w
  not_empty [] c r d t holds starts e = ground arith
  not_empty (x ∷ w) c r d t holds starts e = omega arith

  -- A word with a separator behind it.
  next_word :
      (fuel begin : ℕ) (w : Text) (c : ℕ) (r : Text)
      → IsStart begin
      → drop begin str ≡ w ++ (c ∷ r)
      → All (λ d. is_sep sep d ≡ false) w
      → is_sep sep c ≡ true
      → find_if (is_sep sep) begin (drop begin str) ≡ some (begin + length w)
      → Splits fuel (find_from (not_sep sep) str (some (begin + length w))) (begin + length w)
      → Splits (suc fuel) (some begin) begin
  unfolding split_loop
  next_word fuel begin w c r (d, t, first, starts) at all holds found rest =
      let some_bytes : 0 < length w = not_empty w c r d t holds starts (sym at ∙ first) in
      let behind : drop (begin + length w) str ≡ c ∷ r =
        sym (drop-drop (length w) begin str)
        ∙ ap (drop (length w)) at
        ∙ drop-append_exact (length w) w (c ∷ r) refl in
      let piece : substr str begin (begin + length w - begin) ≡ w =
        ap₂ take (omega arith) at ∙ take-append_exact (length w) w (c ∷ r) refl in
      ap (split_round (split_loop fuel str sep) str sep begin) found
      ∙ ap (λ o. o >>= λ ps. some (substr str begin (begin + length w - begin) ∷ ps)) rest
      ∙ ap some (
          ap₂ (λ p ps. p ∷ ps) piece (ap (words sep []) behind ∙ words-sep sep c [] r holds)
          ∙ sym (
              ap (words sep []) at
              ∙ words-word sep [] w (c ∷ r) all
              ∙ words-sep sep c w r holds
              ∙ ap (λ f. f ++ words sep [] r) (flush_some w some_bytes)))

  shorter :
      (begin : ℕ) (w : Text) (c : ℕ) (r : Text) {fuel : ℕ}
      → IsStart begin
      → drop begin str ≡ w ++ (c ∷ r)
      → is_sep sep c ≡ true
      → length (drop begin str) < suc fuel
      → length (drop (begin + length w) str) < fuel
  shorter begin w c r (d, t, first, starts) at holds enough =
      let some_bytes : 0 < length w = not_empty w c r d t holds starts (sym at ∙ first) in
      omega (
        arith,
        ap length at,
        length-append w (c ∷ r),
        length-drop begin str,
        length-drop (begin + length w) str,
      )

  begin_step :
      (fuel : ℕ)
      → ((place : ℕ)
          → length (drop place str) < fuel
          → Splits fuel (find_from (not_sep sep) str (some place)) place)
      → (begin : ℕ) → IsStart begin
      → length (drop begin str) < suc fuel
      → Splits (suc fuel) (some begin) begin
  begin_step fuel rest begin start enough =
      elim (find_if-Found (is_sep sep) begin (drop begin str)) [
        | inl (all, missing) ↦ last_word fuel begin start all missing
        | inr (w, c, r, at, all, holds, found) ↦
            next_word fuel begin w c r start at all holds found
              (rest (begin + length w) (shorter begin w c r start at holds enough))
      ]

  end_step :
      (fuel : ℕ)
      → ((begin : ℕ)
          → IsStart begin
          → length (drop begin str) < suc fuel
          → Splits (suc fuel) (some begin) begin)
      → (place : ℕ) → length (drop place str) < suc fuel
      → Splits (suc fuel) (find_from (not_sep sep) str (some place)) place
  unfolding split_loop
  end_step fuel word place enough = elim (find_if-Found (not_sep sep) place (drop place str)) [
    | inl (all, missing) ↦
        ap (split_loop (suc fuel) str sep) missing
        ∙ ap some (
            sym (
              ap (words sep []) (sym (append-nil (drop place str)))
              ∙ words-skip sep (drop place str) [] all
              ∙ words-flush_nil sep))
    | inr (w, c, r, at, all, holds, found) ↦
        let behind : drop (place + length w) str ≡ c ∷ r =
          sym (drop-drop (length w) place str)
          ∙ ap (drop (length w)) at
          ∙ drop-append_exact (length w) w (c ∷ r) refl in
        ap (split_loop (suc fuel) str sep) found
        ∙ word (place + length w) (c, r, behind, ground arith)
            (omega (arith, length-drop place str, length-drop (place + length w) str))
        ∙ ap some
            (ap (words sep []) behind ∙ sym (ap (words sep []) at ∙ words-skip sep w (c ∷ r) all))
  ]

  loop-Splits :
      (fuel place : ℕ)
      → length (drop place str) < fuel
      → Splits fuel (find_from (not_sep sep) str (some place)) place
  loop-Splits zero place enough = absurd (omega arith)
  loop-Splits (suc fuel) place enough =
      end_step fuel (begin_step fuel (loop-Splits fuel)) place enough

-- `strsplit` ends, with the words of the text in their order: no piece is empty or has the separator in it, the
-- pieces are the longest such stretches, and together they are the text without the separators.
pub strsplit-Gives :
    (str : Text) (sep : ℕ)
    → Gives
        (λ pieces.
          (pieces ≡ words sep [] str) × All (IsWord sep) pieces × (join pieces ≡ without sep str))
        (strsplit str sep)
unfolding strsplit
strsplit-Gives str sep =
    subst (Gives _) (sym (loop-Splits str sep (length str + 1) 0 (omega arith)))
      (gives (refl, words-All sep [] str tt, join-words sep [] str))
