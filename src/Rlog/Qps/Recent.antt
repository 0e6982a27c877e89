-- ===== src/Rlog/Qps/Recent.antt =====
-- The records that `RLogServiceImpl::aggregate_qps` of rlog/log_service_impl.cc keeps.
use simple_rpc.Prelude.{
  ℕ, ◌+◌, ◌*◌, ◌≤◌, ◌<◌, ◌≡◌, refl, sym, ap, arith, true, false, Bool-cases, inl, inr, List, [],
  ◌∷◌, ◌++◌, All, if◌then◌else◌, ltb, if_case,
}
use simple_rpc.Prelude.Fault.{Gives, gives}
use simple_rpc.Rlog.Qps.{second, AggQpsRecord, drop_old}

-- The times go up.
abbrev pub InOrder : List AggQpsRecord → Type 0
InOrder [] = Unit {0}
InOrder (r ∷ records) = All (λ s. r.tm ≤ s.tm) records × InOrder records

-- The records of the last five minutes.
abbrev pub recent : ℕ → List AggQpsRecord → List AggQpsRecord
recent now [] = []
recent now (r ∷ records) =
    let rest = recent now records in if ltb (r.tm + 300 * second) now then rest else r ∷ rest

pub ltb→lt : (a b : ℕ) → ltb a b ≡ true → a < b
ltb→lt a b h = ground arith

ge→ltb : (a b : ℕ) → b ≤ a → ltb a b ≡ false
ge→ltb a b h = ground arith

ltb→ge : (a b : ℕ) → ltb a b ≡ false → b ≤ a
ltb→ge a b h = ground arith

recent_all :
    (now : ℕ) (r : AggQpsRecord) (records : List AggQpsRecord)
    → now ≤ r.tm + 300 * second
    → All (λ s. r.tm ≤ s.tm) records
    → recent now records ≡ records
recent_all now r [] h o = refl
recent_all now r (s ∷ records) h (le, o) =
    rw (ge→ltb (s.tm + 300 * second) now (omega arith))
      (ap (λ t. s ∷ t) (recent_all now r records h o))

pub drop_old-recent :
    (now : ℕ) (records : List AggQpsRecord) (last : AggQpsRecord)
    → InOrder (records ++ (last ∷ []))
    → last.tm ≡ now
    → Gives
        (λ kept. kept ≡ recent now (records ++ (last ∷ [])))
        (drop_old now (records ++ (last ∷ [])))
unfolding drop_old
drop_old-recent now [] last h e =
    rw (ge→ltb (last.tm + 300 * second) now (omega arith)) (gives refl)
drop_old-recent now (r ∷ records) last (first, h) e =
    elim (Bool-cases (ltb (r.tm + 300 * second) now)) [
      | inl old ↦ rw old (drop_old-recent now records last h e)
      | inr new ↦ rw new (
          gives (
            ap (λ t. r ∷ t)
              (sym (
                recent_all now r (records ++ (last ∷ [])) (ltb→ge (r.tm + 300 * second) now new)
                  first))))
    ]

pub All-append :
    (P : AggQpsRecord → Type 0) (rs : List AggQpsRecord) (last : AggQpsRecord)
    → All P rs
    → P last
    → All P (rs ++ (last ∷ []))
All-append P [] last o l = (l, tt)
All-append P (s ∷ rs) last (o, os) l = (o, All-append P rs last os l)

pub InOrder-append :
    (records : List AggQpsRecord) (last : AggQpsRecord)
    → InOrder records
    → All (λ r. r.tm ≤ last.tm) records
    → InOrder (records ++ (last ∷ []))
InOrder-append [] last h le = (tt, tt)
InOrder-append (r ∷ records) last (first, h) (le, les) =
    (All-append (λ s. r.tm ≤ s.tm) records last first le, InOrder-append records last h les)

pub All-recent :
    (P : AggQpsRecord → Type 0) (now : ℕ) (records : List AggQpsRecord)
    → All P records
    → All P (recent now records)
All-recent P now [] h = tt
All-recent P now (r ∷ records) (h, hs) =
    if_case (All P) (ltb (r.tm + 300 * second) now) (λ e. All-recent P now records hs)
      (λ e. (h, All-recent P now records hs))

pub InOrder-recent :
    (now : ℕ) (records : List AggQpsRecord) → InOrder records → InOrder (recent now records)
InOrder-recent now [] h = tt
InOrder-recent now (r ∷ records) (first, h) =
    if_case InOrder (ltb (r.tm + 300 * second) now) (λ e. InOrder-recent now records h)
      (λ e. (All-recent (λ s. r.tm ≤ s.tm) now records first, InOrder-recent now records h))
