-- ===== src/Rlog/Qps/Order.antt =====
-- What `RLogServiceImpl::aggregate_qps` of rlog/log_service_impl.cc keeps and reports.
use Prim.Native.String.{String}
use text.Mathlib.Text.{◌==◌ as str_eq}
use text.Mathlib.TextEquality.{eq_iff}
use simple_rpc.Prelude.{
  ap, ℕ, ◌+◌, ◌*◌, ◌≤◌, ◌<◌, ◌≡◌, ◌≢◌, refl, ◌∙◌, arith, Bool, true, false, Bool-cases, inl, inr,
  ◌&&◌, List, [], ◌∷◌, ◌++◌, All, if◌then◌else◌, ltb, leb, lt→ltb, if_case,
}
use simple_rpc.Prelude.Fault.{Gives, gives, Gives-bind}
use simple_rpc.Prelude.Int.{ℤ, pos, negsuc, leb_ℤ}
use simple_rpc.Rlog.Service.{assign}
use simple_rpc.Rlog.Qps.{
  ◌+ℤ◌, ◌-ℤ◌, second, AggQpsRecord, Qps, counted, look_back, report, report_intervals, reported,
  aggregate_qps,
}
use simple_rpc.Rlog.Qps.Recent.{
  All-append, All-recent, InOrder, InOrder-append, InOrder-recent, drop_old-recent, ltb→lt, recent,
}

-- What has been counted since the first record that is less than `interval` seconds old, or -1 if none is.
abbrev pub since_first : ℕ → ℕ → ℤ → List AggQpsRecord → ℤ
since_first now interval newest [] = negsuc 0
since_first now interval newest (r ∷ records) =
    if ltb now (r.tm + interval * second)
    then newest -ℤ r.agg_count
    else since_first now interval newest records

and-false : (b : Bool) → b && false ≡ false
and-false true = refl
and-false false = refl

look_back-all :
    (now interval : ℕ) (newest : ℤ) (records : List AggQpsRecord)
    → All (λ r. now < r.tm + interval * second) records
    → (look_back now interval newest records).1 ≡ true
unfolding look_back
look_back-all now interval newest [] h = refl
look_back-all now interval newest (r ∷ records) (h, hs) =
    rw (look_back-all now interval newest records hs, lt→ltb now (r.tm + interval * second) h) refl

All-after :
    (now interval : ℕ) (r : AggQpsRecord) (records : List AggQpsRecord)
    → now < r.tm + interval * second
    → All (λ s. r.tm ≤ s.tm) records
    → All (λ s. now < s.tm + interval * second) records
All-after now interval r [] h o = tt
All-after now interval r (s ∷ records) h (le, o) =
    (omega arith, All-after now interval r records h o)

-- Over records in the order of their times the loop from the back finds what the first record in the interval tells.
pub look_back-since_first :
    (now interval : ℕ) (newest : ℤ) (records : List AggQpsRecord)
    → InOrder records
    → (look_back now interval newest records).0 ≡ since_first now interval newest records
unfolding look_back
look_back-since_first now interval newest [] h = refl
look_back-since_first now interval newest (r ∷ records) (first, h) =
    elim (Bool-cases (ltb now (r.tm + interval * second))) [
      | inl new ↦
          rw
            (
              look_back-all now interval newest records (
                  All-after now interval r records (ltb→lt now (r.tm + interval * second) new)
                    first),
              new,
            )
            refl
      | inr old ↦
          rw (old, and-false (look_back now interval newest records).1)
            (look_back-since_first now interval newest records h)
    ]

-- What a report tells, with `since_first` in place of the loop.
abbrev pub told : ℕ → ℤ → List AggQpsRecord → List ℕ → List (ℕ × ℤ)
told now newest records [] = []
told now newest records (interval ∷ intervals) =
    let increment = since_first now interval newest records in
    let rest = told now newest records intervals in
    if leb_ℤ (pos 1) increment then (interval, increment) ∷ rest else rest

report-told :
    (now : ℕ) (newest : ℤ) (records : List AggQpsRecord) (intervals : List ℕ)
    → InOrder records
    → report now newest records intervals ≡ told now newest records intervals
unfolding report
report-told now newest records [] h = refl
report-told now newest records (interval ∷ intervals) h =
    rw
      (
        look_back-since_first now interval newest records h,
        report-told now newest records intervals h,
      )
      refl

-- What a call leaves and prints.
pub record Aggregated (now : ℕ) (metric : String) (incr : ℤ) (s : Qps) (r : Qps × List (ℕ × ℤ))
    : Type 0 where
  pub newest : AggQpsRecord
  pub time : newest.tm ≡ now
  pub first_count : s.agg_qps_ metric ≡ [] → newest.agg_count ≡ incr
  pub count :
      (earlier : List AggQpsRecord) (last : AggQpsRecord)
      → s.agg_qps_ metric ≡ earlier ++ (last ∷ [])
      → newest.agg_count ≡ last.agg_count +ℤ incr
  pub kept : r.0.agg_qps_ metric ≡ recent now (s.agg_qps_ metric ++ (newest ∷ []))
  pub in_order : InOrder (r.0.agg_qps_ metric)
  pub past : All (λ q. q.tm ≤ now) (r.0.agg_qps_ metric)
  pub others : (m : String) → m ≢ metric → r.0.agg_qps_ m ≡ s.agg_qps_ m
  pub reported_at :
      r.0.last_qps_tm_ metric
      ≡ (if leb (s.last_qps_tm_ metric + s.qps_interval_) now then now else s.last_qps_tm_ metric)
  pub other_times : (m : String) → m ≢ metric → r.0.last_qps_tm_ m ≡ s.last_qps_tm_ m
  pub same_interval : r.0.qps_interval_ ≡ s.qps_interval_
  pub printed : r.1 ≡ (
      if leb (s.last_qps_tm_ metric + s.qps_interval_) now
      then told now newest.agg_count (r.0.agg_qps_ metric) report_intervals
      else [])

assign_self : {V : Type 0} (k : String) (v : V) (m : String → V) → assign k v m k ≡ v
assign_self k v m = rw ((eq_iff k k).1 refl) refl

assign_other : {V : Type 0} (k j : String) (v : V) (m : String → V) → j ≢ k → assign k v m j ≡ m j
assign_other k j v m apart = elim (Bool-cases (str_eq j k)) [
  | inl same ↦ absurd (apart ((eq_iff j k).0 same))
  | inr other ↦ rw other refl
]

counted-first :
    (incr : ℤ) (records : List AggQpsRecord) → records ≡ [] → counted incr records ≡ incr
unfolding counted
counted-first incr [] e = refl
counted-first incr (r ∷ records) e = cc

counted-last :
    (incr : ℤ) (earlier : List AggQpsRecord) (last : AggQpsRecord)
    → counted incr (earlier ++ (last ∷ [])) ≡ last.agg_count +ℤ incr
unfolding counted
counted-last incr [] last = refl
counted-last incr (r ∷ []) last = refl
counted-last incr (r ∷ q ∷ earlier) last = counted-last incr (q ∷ earlier) last

reported-Aggregated :
    (now : ℕ) (metric : String) (incr : ℤ) (s : Qps) (records : List AggQpsRecord)
    → (let new_rec : AggQpsRecord = record {
      agg_count = counted incr (s.agg_qps_ metric);
      tm = now;
    } in
        records ≡ recent now (s.agg_qps_ metric ++ (new_rec ∷ [])))
    → InOrder records
    → All (λ q. q.tm ≤ now) records
    → Aggregated now metric incr s
        (reported now metric (counted incr (s.agg_qps_ metric)) records s)
reported-Aggregated now metric incr s records e ordered up_to =
    if_case (Aggregated now metric incr s) (leb (s.last_qps_tm_ metric + s.qps_interval_) now)
      (λ due. record {
        newest = record { agg_count = counted incr (s.agg_qps_ metric); tm = now };
        time = refl;
        first_count = counted-first incr (s.agg_qps_ metric);
        count = λ earlier last split. ap (counted incr) split ∙ counted-last incr earlier last;
        kept = assign_self metric records s.agg_qps_ ∙ e;
        in_order = rw (assign_self metric records s.agg_qps_) ordered;
        past = rw (assign_self metric records s.agg_qps_) up_to;
        others = λ m apart. assign_other metric m records s.agg_qps_ apart;
        reported_at = rw due (assign_self metric now s.last_qps_tm_);
        other_times = λ m apart. assign_other metric m now s.last_qps_tm_ apart;
        same_interval = refl;
        printed =
            rw (due, assign_self metric records s.agg_qps_)
              (report-told now _ records report_intervals ordered);
      })
      (λ early. record {
        newest = record { agg_count = counted incr (s.agg_qps_ metric); tm = now };
        time = refl;
        first_count = counted-first incr (s.agg_qps_ metric);
        count = λ earlier last split. ap (counted incr) split ∙ counted-last incr earlier last;
        kept = assign_self metric records s.agg_qps_ ∙ e;
        in_order = rw (assign_self metric records s.agg_qps_) ordered;
        past = rw (assign_self metric records s.agg_qps_) up_to;
        others = λ m apart. assign_other metric m records s.agg_qps_ apart;
        reported_at = rw early refl;
        other_times = λ m apart. refl;
        same_interval = refl;
        printed = rw early refl;
      })

-- `aggregate_qps` of a metric whose records are in the order of their times, none of them later than now: no access
-- to an empty list, and the records of the metric are in order again and are those of the last five minutes with the
-- new one, other metrics are as they were, and a report that is due tells for each interval what has been counted
-- since the first record in it, and is the last one from now on. The new record counts what the last one has counted
-- and the increment, or the increment alone where there is none.
pub aggregate_qps-Aggregated :
    (now : ℕ) (metric : String) (incr : ℤ) (s : Qps)
    → InOrder (s.agg_qps_ metric)
    → All (λ r. r.tm ≤ now) (s.agg_qps_ metric)
    → Gives (Aggregated now metric incr s) (aggregate_qps now metric incr s)
unfolding aggregate_qps
aggregate_qps-Aggregated now metric incr s h le =
    let new_rec : AggQpsRecord = record {
      agg_count = counted incr (s.agg_qps_ metric);
      tm = now;
    } in
    let ordered = InOrder-append (s.agg_qps_ metric) new_rec h le in
    Gives-bind (drop_old-recent now (s.agg_qps_ metric) new_rec ordered refl) λ records e. gives (
      reported-Aggregated now metric incr s records e
        (rw e (InOrder-recent now (s.agg_qps_ metric ++ (new_rec ∷ [])) ordered))
        (rw e (
          All-recent (λ q. q.tm ≤ now) now (s.agg_qps_ metric ++ (new_rec ∷ []))
            (All-append (λ q. q.tm ≤ now) (s.agg_qps_ metric) new_rec le (omega arith)))))
