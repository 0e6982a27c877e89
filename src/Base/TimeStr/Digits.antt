-- ===== src/Base/TimeStr/Digits.antt =====
-- What `make_int` and `time_now_str` of base/misc.cc write, and that it can be read again.
use simple_rpc.Prelude.{
  ℕ, zero, suc, ◌+◌, ◌-◌, ◌*◌, ◌/◌, ◌%◌, ◌^◌, ◌≤◌, ◌<◌, ◌≡◌, refl, sym, ap, ap₂, ◌∙◌, arith, List,
  [], ◌∷◌, ◌++◌, append_assoc, length, length-append, length-drop, set-append_right, drop-drop, set,
  take, drop, take-append_exact, drop-append_right, take-append-drop, length-set, lt→ltb, some,
}
use simple_rpc.Prelude.Fault.{Gives, gives, Gives-bind}
use native.Mathlib.Nat.{add-zero, add-suc}
use simple_rpc.Base.TimeStr.{write_at, int_loop, make_int, Calendar, time_now_str}

-- The number in as many decimal digits.
unfoldable pub digits : ℕ → ℕ → List ℕ
digits zero v = []
digits (suc d) v = digits d (v / 10) ++ ((b'0' + v % 10) ∷ [])

-- The number that decimal digits tell, behind those that told `n`.
unfoldable pub value : ℕ → List ℕ → ℕ
value n [] = n
value n (c ∷ cs) = value (n * 10 + (c - b'0')) cs

value-append : (n : ℕ) (xs ys : List ℕ) → value n (xs ++ ys) ≡ value (value n xs) ys
unfolding value
value-append n [] ys = refl
value-append n (x ∷ xs) ys = value-append (n * 10 + (x - b'0')) xs ys

-- A number that fits into the digits is read from them again.
pub value-digits : (d v : ℕ) → v < 10 ^ d → value 0 (digits d v) ≡ v
unfolding digits value
value-digits zero v h = omega arith
value-digits (suc d) v h =
    value-append 0 (digits d (v / 10)) ((b'0' + v % 10) ∷ [])
    ∙ rw (value-digits d (v / 10) (omega arith)) (omega arith)

length-digits : (d v : ℕ) → length (digits d v) ≡ d
unfolding digits
length-digits zero v = refl
length-digits (suc d) v =
    length-append (digits d (v / 10)) ((b'0' + v % 10) ∷ [])
    ∙ rw (length-digits d (v / 10)) (omega arith)

take-set_before : (q i : ℕ) (buf : List ℕ) (c : ℕ) → q ≤ i → take q (set buf i c) ≡ take q buf
take-set_before zero i buf c h = refl
take-set_before (suc q) i [] c h = refl
take-set_before (suc q) zero (x ∷ buf) c h = absurd (omega arith)
take-set_before (suc q) (suc i) (x ∷ buf) c h =
    ap (λ t. x ∷ t) (take-set_before q i buf c (omega arith))

drop-set_here :
    (i : ℕ) (buf : List ℕ) (c : ℕ) → i < length buf → drop i (set buf i c) ≡ c ∷ drop (suc i) buf
drop-set_here i [] c h = absurd (omega arith)
drop-set_here zero (x ∷ buf) c h = refl
drop-set_here (suc i) (x ∷ buf) c h = drop-set_here i buf c (omega arith)

int_loop-digits :
    (d q v : ℕ) (buf : List ℕ)
    → q + d ≤ length buf
    → int_loop d (q + d) v buf ≡ some (take q buf ++ (digits d v ++ drop (q + d) buf))
unfolding int_loop digits
int_loop-digits zero q v buf h =
    ap some (sym (ap (λ k. take q buf ++ drop k buf) (add-zero q) ∙ take-append-drop q buf))
int_loop-digits (suc d) q v buf h =
    let one_less : q + suc d - 1 ≡ q + d = omega arith in
    rw one_less rw (lt→ltb (q + d) (length buf) (omega arith)) (
      int_loop-digits d q (v / 10) (set buf (q + d) (b'0' + v % 10))
        (rw (length-set buf (q + d) (b'0' + v % 10)) (omega arith))
      ∙ ap some (
          rw
            (
              take-set_before q (q + d) buf (b'0' + v % 10) (omega arith),
              drop-set_here (q + d) buf (b'0' + v % 10) (omega arith),
              add-suc q d,
            )
            (ap (λ t. take q buf ++ t)
              (sym (
                append_assoc (digits d (v / 10)) ((b'0' + v % 10) ∷ [])
                  (drop (suc (q + d)) buf))))))

-- The text in the buffer.
abbrev pub text : Calendar → ℕ → List ℕ
text t tv_usec =
    digits 4 (t.tm_year + 1900)
    ++ (b'-' ∷ digits 2 (t.tm_mon + 1))
    ++ (b'-' ∷ digits 2 t.tm_mday)
    ++ (b' ' ∷ digits 2 t.tm_hour)
    ++ (b':' ∷ digits 2 t.tm_min)
    ++ (b':' ∷ digits 2 t.tm_sec)
    ++ (b'.' ∷ digits 6 tv_usec)
    ++ (0 ∷ [])

-- The buffer `b` starts with the text `t`, and is as `now` behind it.
pub record Filled (now t b : List ℕ) : Type 0 where
  pub written : b ≡ t ++ drop (length t) now

module _ (now : List ℕ) where
  length-Filled :
      (t : List ℕ) → length t ≤ length now → length (t ++ drop (length t) now) ≡ length now
  length-Filled t h =
      length-append t (drop (length t) now) ∙ rw (length-drop (length t) now) (omega arith)

  drop-Filled : (t s : List ℕ) → drop (length s) (drop (length t) now) ≡ drop (length (t ++ s)) now
  drop-Filled t s =
      drop-drop (length s) (length t) now ∙ ap (λ k. drop k now) (sym (length-append t s))

  make_int-Filled :
      {t : List ℕ} (d v : ℕ) {b : List ℕ}
      → Filled now t b
      → length t + d ≤ length now
      → Gives (Filled now (t ++ digits d v)) (make_int (length t) v d b)
  unfolding make_int
  make_int-Filled {t} d v {b} e h =
      rw
        (
          e.written,
          int_loop-digits d (length t) v (t ++ drop (length t) now)
              (rw (length-Filled t (omega arith)) h),
        )
        (gives (record {
          written =
              ap₂ (λ a r. a ++ (digits d v ++ r))
                (take-append_exact (length t) t (drop (length t) now) refl)
                (drop-append_right t (drop (length t) now) d
                  ∙ ap (λ k. drop k (drop (length t) now)) (sym (length-digits d v))
                  ∙ drop-Filled t (digits d v))
              ∙ sym (append_assoc t (digits d v) (drop (length (t ++ digits d v)) now));
        }))

  set_here :
      (t : List ℕ) (c : ℕ)
      → length t < length now
      → set (t ++ drop (length t) now) (length t) c
        ≡ (t ++ (c ∷ [])) ++ drop (length (t ++ (c ∷ []))) now
  set_here t c h =
      set-append_right t (drop (length t) now) 0 (length t) c (omega arith)
      ∙ ap (λ r. t ++ r)
          (drop-set_here 0 (drop (length t) now) c (rw (length-drop (length t) now) (omega arith))
            ∙ ap (λ r. c ∷ r) (drop-Filled t (c ∷ [])))
      ∙ sym (append_assoc t (c ∷ []) (drop (length (t ++ (c ∷ []))) now))

  write_at-Filled :
      {t : List ℕ} (c : ℕ) {b : List ℕ}
      → Filled now t b
      → length t < length now
      → Gives (Filled now (t ++ (c ∷ []))) (write_at (length t) c b)
  write_at-Filled {t} c {b} e h =
      rw
        (
          e.written,
          lt→ltb (length t) (length (t ++ drop (length t) now))
              (rw (length-Filled t (omega arith)) h),
        )
        (gives (record { written = set_here t c h }))

  -- A buffer of 27 bytes or more: nothing is written outside it, it starts with the time, whose last byte is 0, and
  -- what is behind that stays.
  time_now_str-Filled :
      (t : Calendar) (tv_usec : ℕ)
      → 27 ≤ length now
      → Gives (Filled now (text t tv_usec)) (time_now_str t tv_usec now)
  unfolding time_now_str digits
  time_now_str-Filled t us h =
      let nothing : Filled now [] now = record { written = refl } in
      Gives-bind (make_int-Filled 4 (t.tm_year + 1900) nothing (omega arith)) λ b e.
        Gives-bind (write_at-Filled b'-' e (omega arith)) λ b e.
          Gives-bind (make_int-Filled 2 (t.tm_mon + 1) e (omega arith)) λ b e.
            Gives-bind (write_at-Filled b'-' e (omega arith)) λ b e.
              Gives-bind (make_int-Filled 2 t.tm_mday e (omega arith)) λ b e.
                Gives-bind (write_at-Filled b' ' e (omega arith)) λ b e.
                  Gives-bind (make_int-Filled 2 t.tm_hour e (omega arith)) λ b e.
                    Gives-bind (write_at-Filled b':' e (omega arith)) λ b e.
                      Gives-bind (make_int-Filled 2 t.tm_min e (omega arith)) λ b e.
                        Gives-bind (write_at-Filled b':' e (omega arith)) λ b e.
                          Gives-bind (make_int-Filled 2 t.tm_sec e (omega arith)) λ b e.
                            Gives-bind (write_at-Filled b'.' e (omega arith)) λ b e.
                              Gives-bind (make_int-Filled 6 us e (omega arith))
                                λ b e. write_at-Filled 0 e (omega arith)
