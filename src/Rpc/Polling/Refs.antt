-- ===== src/Rpc/Polling/Refs.antt =====
-- The references to Pollables that a PollThread of rpc/polling.cc holds, and who else holds some.
use simple_rpc.Prelude.{
  ℕ, ◌+◌, ◌-◌, ◌≤◌, ◌<◌, ◌≡◌, refl, sym, ap, ◌∙◌, Bool, true, List, [], ◌∷◌, Option, none, some,
  ◌==◌, if◌then◌else◌, Bool-cases, ==_iff, inl, inr, if_case, arith, ltb, lt→ltb,
}
use simple_rpc.Prelude.Fault.{Keeps, Gives, gives, verify-Keeps, verify-Gives, verify-not-Keeps}
use simple_rpc.Prelude.Dict.{
  mem, erase, keys, lookup, count, count_absent, count-erase_ne, count_present, mem-erase_self,
  Distinct,
}
use simple_rpc.Rpc.Polling.{
  update_found, PollThread, Refcnt, release, enroll, unregister, postpone, update_mode, watch,
  forget_fd,
}

count-erase :
    (x poll : ℕ) (ys : List ℕ)
    → count x (erase poll ys) + (if x == poll then count x ys else 0) ≡ count x ys
count-erase x poll ys = elim (Bool-cases (x == poll)) [
  | inl e ↦
      let e' : x ≡ poll = (==_iff x poll).0 e in
      let none_left =
        ap (λ z. count x (erase z ys)) (sym e')
        ∙ count_absent x (erase x ys) (mem-erase_self x ys) in
      ground (arith)
  | inr ne ↦ ground (arith, count-erase_ne x poll ys)
]

pub enroll-count :
    (poll fd mode : ℕ) (t : PollThread)
    → Keeps
        (λ t'.
          ((x : ℕ) → count x t'.poll_set_ ≡ (if x == poll then 1 else 0) + count x t.poll_set_)
          × (t'.pending_remove_ ≡ t.pending_remove_))
        (enroll poll fd mode t)
unfolding enroll
enroll-count poll fd mode t =
    verify-not-Keeps _ _ (mem poll t.poll_set_)
      λ new. verify-not-Keeps _ _ (mem fd (keys t.mode_)) λ new_fd. ((λ x. refl), refl)

-- What `remove` takes out of the set it has in hand behind the lock.
pub unregister-count :
    (poll fd : ℕ) (t : PollThread)
    → Distinct t.poll_set_
    → Keeps
        (λ (found, t').
          ((x : ℕ)
            → count x t'.poll_set_ + count x (if found then poll ∷ [] else [])
              ≡ count x t.poll_set_)
          × (t'.pending_remove_ ≡ t.pending_remove_))
        (unregister poll fd t)
unfolding unregister
unregister-count poll fd t d =
    if_case (Keeps Counted) (mem poll t.poll_set_)
      (λ here. verify-Keeps _ _ (mem fd (keys t.mode_)) λ _. ((λ x. moved x here), refl))
      (λ absent. verify-not-Keeps _ _ (mem fd (keys t.mode_)) λ _. ((λ x. omega arith), refl))
  where
    Counted : Bool × PollThread → Type 0
    Counted (found, t') =
        ((x : ℕ)
          → count x t'.poll_set_ + count x (if found then poll ∷ [] else []) ≡ count x t.poll_set_)
        × (t'.pending_remove_ ≡ t.pending_remove_)

    moved :
        (x : ℕ)
        → mem poll t.poll_set_ ≡ true
        → count x (erase poll t.poll_set_) + count x (poll ∷ []) ≡ count x t.poll_set_
    moved x here =
        let one = count_present poll t.poll_set_ d here in
        let left = count-erase x poll t.poll_set_ in
        elim (Bool-cases (x == poll)) [
          | inl e ↦ let same = ap (λ z. count z t.poll_set_) ((==_iff x poll).0 e) in ground (arith)
          | inr ne ↦ ground (arith)
        ]

-- `insert` of a set keeps one at most.
pub postpone-count :
    (x poll : ℕ) (t : PollThread)
    → count x (postpone poll t).pending_remove_
      ≤ (if x == poll then 1 else 0) + count x t.pending_remove_
unfolding postpone
postpone-count x poll t =
    if_case (λ ys. count x ys ≤ (if x == poll then 1 else 0) + count x t.pending_remove_)
      (mem poll t.pending_remove_) (λ _. omega arith) (λ _. omega arith)

pub update_mode-count :
    (ok : Bool) (poll fd new_mode : ℕ) (t : PollThread)
    → Keeps
        (λ t'. (t'.poll_set_ ≡ t.poll_set_) × (t'.pending_remove_ ≡ t.pending_remove_))
        (update_mode ok poll fd new_mode t)
unfolding update_mode
update_mode-count ok poll fd new_mode t =
    if_case (Keeps Same) (mem poll t.poll_set_) (λ here. found (lookup fd t.mode_))
      (λ absent. (refl, refl))
  where
    Same : PollThread → Type 0
    Same t' = (t'.poll_set_ ≡ t.poll_set_) × (t'.pending_remove_ ≡ t.pending_remove_)

    found : (o : Option ℕ) → Keeps Same (update_found ok fd new_mode t o)
    found none = tt
    found (some old_mode) =
        if_case (Keeps Same) (new_mode == old_mode) (λ _. (refl, refl))
          (λ _. verify-Keeps _ _ ok λ _. (refl, refl))

less_one :
    (poll : ℕ) (rc : Refcnt)
    → 0 < rc poll
    → (x : ℕ) → (if x == poll then rc x - 1 else rc x) + (if x == poll then 1 else 0) ≡ rc x
less_one poll rc held x = elim (Bool-cases (x == poll)) [
  | inl e ↦ let same = ap rc ((==_iff x poll).0 e) in ground (arith)
  | inr ne ↦ ground (arith)
]

pub release-Gives :
    (poll : ℕ) (rc : Refcnt)
    → 0 < rc poll
    → Gives (λ rc'. (x : ℕ) → rc' x + (if x == poll then 1 else 0) ≡ rc x) (release poll rc)
release-Gives poll rc held =
    verify-Gives _ _ (lt→ltb 0 (rc poll) held) (gives (less_one poll rc held))

pub release-Keeps :
    (poll : ℕ) (rc : Refcnt)
    → Keeps (λ rc'. (x : ℕ) → rc' x + (if x == poll then 1 else 0) ≡ rc x) (release poll rc)
release-Keeps poll rc = verify-Keeps _ _ (ltb 0 (rc poll)) λ held. less_one poll rc (ground arith)

-- What stays of the three sets.
abbrev pub Same : PollThread → PollThread → Type 0
Same t t' =
    (t'.mode_ ≡ t.mode_) × (t'.poll_set_ ≡ t.poll_set_) × (t'.pending_remove_ ≡ t.pending_remove_)

pub watch-Same : (ok : Bool) (fd mode : ℕ) (t : PollThread) → Keeps (Same t) (watch ok fd mode t)
unfolding watch
watch-Same ok fd mode t = verify-Keeps _ _ ok λ _. (refl, refl, refl)

pub forget_fd-Same : (fd : ℕ) (t : PollThread) → Same t (forget_fd fd t)
unfolding forget_fd
forget_fd-Same fd t =
    if_case (Same t) (mem fd (keys t.mode_)) (λ _. (refl, refl, refl)) (λ _. (refl, refl, refl))
