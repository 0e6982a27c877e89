-- ===== src/Rpc/Client/Futures/Table.antt =====
-- What `invalidate_pending_futures` of rpc/client.cc does to the Futures of a Client.
use simple_rpc.Prelude.{
  ℕ, ◌+◌, ◌-◌, Bool, arith, ◌<◌, ◌≡◌, refl, ap, ◌∙◌, true, false, List, [], ◌∷◌, if◌then◌else◌,
  ◌==◌, Bool-cases, inl, inr, ==_iff, lt→ltb,
}
use simple_rpc.Prelude.Fault.{Gives, gives, Gives-mono, Gives-bind}
use simple_rpc.Prelude.Dict.{mem, Distinct}
use simple_rpc.Rpc.Client.Futures.{
  Future, FutureTable, notify_ready, enotconn, release_at, with_future, invalidate_all,
}

-- A Future whose request will have no reply, after the table has given up its reference.
abbrev pub invalidated : Future → Future
invalidated fu = record fu {
  error_code_ = enotconn;
  ready_ = if fu.timed_out_ then fu.ready_ else true;
  callbacks = fu.callbacks + (if fu.timed_out_ then if fu.ready_ then 1 else 0 else 1);
  refcnt_ = fu.refcnt_ - 1;
}

-- The same as the code has it.
abbrev signalled : Future → Future
signalled fu =
    let fu' = notify_ready (record fu { error_code_ = enotconn }) in
    record fu' { refcnt_ = fu.refcnt_ - 1 }

signalled_lem : (fu : Future) → signalled fu ≡ invalidated fu
unfolding notify_ready
signalled_lem fu =
    ap
      (λ c. record fu {
        error_code_ = enotconn;
        ready_ = if fu.timed_out_ then fu.ready_ else true;
        callbacks = c;
        refcnt_ = fu.refcnt_ - 1;
      })
      (calls fu.timed_out_ fu.ready_ fu.callbacks)
  where
    calls :
        (t r : Bool) (n : ℕ)
        → (if (if t then r else true) then n + 1 else n) ≡ n + (if t then if r then 1 else 0 else 1)
    calls true true n = refl
    calls true false n = omega arith
    calls false r n = refl

first_invalidated :
    (xid : ℕ) (futures : FutureTable)
    → 0 < (futures xid).refcnt_
    → Gives
        (λ futures'. (x : ℕ) → futures' x ≡ (if x == xid then signalled (futures x) else futures x))
        (release_at xid (
          with_future xid (notify_ready (record (futures xid) { error_code_ = enotconn })) futures))
unfolding notify_ready
first_invalidated xid futures some_held =
    rw ((==_iff xid xid).1 refl, lt→ltb 0 (futures xid).refcnt_ some_held) (gives λ x. same x)
  where
    same :
        (x : ℕ)
        → (if x == xid
            then signalled (futures xid)
            else with_future xid
                (notify_ready (record (futures xid) { error_code_ = enotconn }))
                futures
                x)
          ≡ (if x == xid then signalled (futures x) else futures x)
    same x = elim (Bool-cases (x == xid)) [
      | inl e ↦ rw (e, ap (λ y. signalled (futures y)) ((==_iff x xid).0 e)) refl
      | inr ne ↦ rw ne refl
    ]

invalidate_all_signals :
    (xids : List ℕ) (futures : FutureTable)
    → Distinct xids
    → ((x : ℕ) → mem x xids ≡ true → 0 < (futures x).refcnt_)
    → Gives
        (λ futures'.
          (x : ℕ) → futures' x ≡ (if mem x xids then signalled (futures x) else futures x))
        (invalidate_all xids futures)
unfolding invalidate_all notify_ready
invalidate_all_signals [] futures d held = gives (λ x. refl)
invalidate_all_signals (xid ∷ xids) futures (new, d) held =
    let here : (xid == xid) ≡ true = (==_iff xid xid).1 refl in
    let some_held : 0 < (futures xid).refcnt_ =
      held xid (ap (λ b. if b then true else mem xid xids) here) in
    Gives-bind (first_invalidated xid futures some_held) λ futures1 one.
      Gives-mono
        (invalidate_all_signals xids futures1 d
          λ x later. let other = apart x later in rw (one x, other) (held x (rw other later)))
        λ futures2 all x. elim (Bool-cases (x == xid)) [
          | inl e ↦
              let gone : mem x xids ≡ false = ap (λ y. mem y xids) ((==_iff x xid).0 e) ∙ new in
              all x ∙ rw (gone, one x, e) refl
          | inr ne ↦ all x ∙ rw (one x, ne) refl
        ]
  where
    apart : (x : ℕ) → mem x xids ≡ true → (x == xid) ≡ false
    apart x later = elim (Bool-cases (x == xid)) [
      | inl e ↦ let gone = ap (λ y. mem y xids) ((==_iff x xid).0 e) in cc
      | inr ne ↦ ne
    ]

pub invalidate_all-Gives :
    (xids : List ℕ) (futures : FutureTable)
    → Distinct xids
    → ((x : ℕ) → mem x xids ≡ true → 0 < (futures x).refcnt_)
    → Gives
        (λ futures'.
          (x : ℕ) → futures' x ≡ (if mem x xids then invalidated (futures x) else futures x))
        (invalidate_all xids futures)
invalidate_all-Gives xids futures d held =
    Gives-mono (invalidate_all_signals xids futures d held) λ futures' all x.
      all x ∙ ap (λ fu. if mem x xids then fu else futures x) (signalled_lem (futures x))
