-- ===== src/Rpc/Polling/Invariant.antt =====
-- What holds of a PollThread of rpc/polling.cc between its operations.
use simple_rpc.Prelude.{
  ℕ, ◌≡◌, refl, sym, ap, subst, ◌∙◌, Bool, true, false, List, [], ◌∷◌, some, none, Option, map,
  ◌==◌, if◌then◌else◌, Bool-cases, ==_iff, inl, inr, if_case, arith,
}
use simple_rpc.Prelude.Fault.{
  Keeps, Gives, gives, Gives-bind, verify-Keeps, verify-Gives, verify-not-Keeps, verify-not-Gives,
}
use simple_rpc.Prelude.Dict.{
  mem, erase, include, lookup, keys, remove, Distinct, keys-remove, keys-replace, erase_absent,
  Distinct-erase,
}
use simple_rpc.Rpc.Polling.{
  Ctl, PollThread, enroll, unregister, postpone, remove_poll, update_mode, update_found,
}

-- `mode_` has the fd of each member of `poll_set_`, and no other.
pub record IsPaired (fd_of : ℕ → ℕ) (t : PollThread) : Type 0 where
  pub paired : keys t.mode_ ≡ map fd_of t.poll_set_
  pub distinct_fds : Distinct (keys t.mode_)
  pub distinct_polls : Distinct t.poll_set_
  pub distinct_pending : Distinct t.pending_remove_

pub mem-map : (f : ℕ → ℕ) (x : ℕ) (ys : List ℕ) → mem x ys ≡ true → mem (f x) (map f ys) ≡ true
mem-map f x [] h = cc
mem-map f x (y ∷ ys) h = elim (Bool-cases (x == y)) [
  | inl e ↦ let e' : f x ≡ f y = ap f ((==_iff x y).0 e) in ground (arith)
  | inr ne ↦ ground (arith, mem-map f x ys)
]

mem_back : (f : ℕ → ℕ) (x : ℕ) (ys : List ℕ) → mem (f x) (map f ys) ≡ false → mem x ys ≡ false
mem_back f x ys h = elim (Bool-cases (mem x ys)) [
  | inl here ↦ let there : mem (f x) (map f ys) ≡ true = mem-map f x ys here in cc
  | inr absent ↦ absent
]

map-erase :
    (f : ℕ → ℕ) (x : ℕ) (ys : List ℕ)
    → Distinct (map f ys)
    → mem x ys ≡ true
    → map f (erase x ys) ≡ erase (f x) (map f ys)
map-erase f x [] d h = refl
map-erase f x (y ∷ ys) (new, d) h = elim (Bool-cases (x == y)) [
  | inl e ↦
      let e' : x ≡ y = (==_iff x y).0 e in
      let same : f x ≡ f y = ap f e' in
      let absent : mem (f x) (map f ys) ≡ false = ap (λ z. mem z (map f ys)) same ∙ new in
      let none_left = erase_absent (f x) (map f ys) absent in
      let none_left' = ap (map f) (erase_absent x ys (mem_back f x ys absent)) in ground (arith)
  | inr ne ↦
      let there : mem (f x) (map f ys) ≡ true = mem-map f x ys (ground arith) in
      let apart : (f x == f y) ≡ false = (elim (Bool-cases (f x == f y)) [
        | inl e ↦ let same = ap (λ z. mem z (map f ys)) ((==_iff (f x) (f y)).0 e) in cc
        | inr ne' ↦ ne'
      ]) in
      ground (arith, map-erase f x ys)
]

Distinct-include : (x : ℕ) (ys : List ℕ) → Distinct ys → Distinct (include x ys)
Distinct-include x ys d = elim (Bool-cases (mem x ys)) [
  | inl here ↦ subst (λ b. Distinct (if b then ys else x ∷ ys)) (sym here) d
  | inr new ↦ subst (λ b. Distinct (if b then ys else x ∷ ys)) (sym new) (new, d)
]

-- No other Pollable that is watched has the same fd.
abbrev pub IsAlone : (ℕ → ℕ) → ℕ → PollThread → Type 0
IsAlone fd_of poll t = (y : ℕ) → mem y t.poll_set_ ≡ true → fd_of y ≡ fd_of poll → y ≡ poll

mem_preimage :
    (f : ℕ → ℕ) (z : ℕ) (ys : List ℕ)
    → mem z (map f ys) ≡ true
    → (y : ℕ) × (mem y ys ≡ true) × (f y ≡ z)
mem_preimage f z [] h = cc
mem_preimage f z (y ∷ ys) h = elim (Bool-cases (z == f y)) [
  | inl e ↦ (y, rw ((==_iff y y).1 refl) refl, sym ((==_iff z (f y)).0 e))
  | inr ne ↦
      let (w, there, e) = mem_preimage f z ys (rw ne at h) in
      (w, if_case (λ b. b ≡ true) (w == y) (λ _. refl) (λ _. there), e)
]

-- A Pollable that is alone and not watched has its fd for itself.
absent_fd :
    {fd_of : ℕ → ℕ} {t : PollThread} (poll : ℕ)
    → IsPaired fd_of t
    → IsAlone fd_of poll t
    → mem poll t.poll_set_ ≡ false
    → mem (fd_of poll) (keys t.mode_) ≡ false
absent_fd {fd_of} {t} poll p alone absent = elim (Bool-cases (mem (fd_of poll) (keys t.mode_))) [
  | inl here ↦
      let (y, there, e) =
        mem_preimage fd_of (fd_of poll) t.poll_set_ (ap (mem (fd_of poll)) (sym p.paired) ∙ here) in
      let there' : mem poll t.poll_set_ ≡ true =
        ap (λ z. mem z t.poll_set_) (sym (alone y there e)) ∙ there in
      cc
  | inr gone ↦ gone
]

pub enroll-IsPaired :
    (fd_of : ℕ → ℕ) (poll mode : ℕ) (t : PollThread)
    → IsPaired fd_of t
    → Keeps (IsPaired fd_of) (enroll poll (fd_of poll) mode t)
unfolding enroll
enroll-IsPaired fd_of poll mode t p = verify-not-Keeps _ _ (mem poll t.poll_set_) λ new.
    verify-not-Keeps _ _ (mem (fd_of poll) (keys t.mode_)) λ new_fd. record {
      paired = ap (λ fds. fd_of poll ∷ fds) p.paired;
      distinct_fds = (new_fd, p.distinct_fds);
      distinct_polls = (new, p.distinct_polls);
      distinct_pending = p.distinct_pending;
    }

unregistered :
    (fd_of : ℕ → ℕ) (poll : ℕ) (t : PollThread)
    → IsPaired fd_of t
    → mem poll t.poll_set_ ≡ true
    → IsPaired fd_of
        (record t { poll_set_ = erase poll t.poll_set_; mode_ = remove (fd_of poll) t.mode_ })
unregistered fd_of poll t p here = record {
  paired =
      keys-remove (fd_of poll) t.mode_
      ∙ ap (erase (fd_of poll)) p.paired
      ∙ sym (map-erase fd_of poll t.poll_set_ (subst Distinct p.paired p.distinct_fds) here);
  distinct_fds =
      subst Distinct (sym (keys-remove (fd_of poll) t.mode_))
        (Distinct-erase (fd_of poll) (keys t.mode_) p.distinct_fds);
  distinct_polls = Distinct-erase poll t.poll_set_ p.distinct_polls;
  distinct_pending = p.distinct_pending;
}

pub unregister-Keeps :
    (fd_of : ℕ → ℕ) (poll : ℕ) (t : PollThread)
    → IsPaired fd_of t
    → Keeps (λ (found, t'). IsPaired fd_of t') (unregister poll (fd_of poll) t)
unfolding unregister
unregister-Keeps fd_of poll t p =
    if_case (Keeps (λ (found, t'). IsPaired fd_of t')) (mem poll t.poll_set_)
      (λ here.
        verify-Keeps _ _ (mem (fd_of poll) (keys t.mode_)) λ _. unregistered fd_of poll t p here)
      (λ absent. verify-not-Keeps _ _ (mem (fd_of poll) (keys t.mode_)) λ _. p)

pub unregister-Gives :
    (fd_of : ℕ → ℕ) (poll : ℕ) (t : PollThread)
    → IsPaired fd_of t
    → IsAlone fd_of poll t
    → Gives (λ (found, t'). IsPaired fd_of t') (unregister poll (fd_of poll) t)
unfolding unregister
unregister-Gives fd_of poll t p alone =
    if_case (Gives (λ (found, t'). IsPaired fd_of t')) (mem poll t.poll_set_)
      (λ here.
        verify-Gives _ _ (ap (mem (fd_of poll)) p.paired ∙ mem-map fd_of poll t.poll_set_ here)
          (gives (unregistered fd_of poll t p here)))
      (λ absent. verify-not-Gives _ _ (absent_fd poll p alone absent) (gives p))

pub postpone-IsPaired :
    {fd_of : ℕ → ℕ} {t : PollThread} (poll : ℕ)
    → IsPaired fd_of t
    → IsPaired fd_of (postpone poll t)
unfolding postpone
postpone-IsPaired {t = t} poll p = record {
  paired = p.paired;
  distinct_fds = p.distinct_fds;
  distinct_polls = p.distinct_polls;
  distinct_pending = Distinct-include poll t.pending_remove_ p.distinct_pending;
}

pub remove_poll-IsPaired :
    (fd_of : ℕ → ℕ) (poll : ℕ) (t : PollThread)
    → IsPaired fd_of t
    → IsAlone fd_of poll t
    → Gives (IsPaired fd_of) (remove_poll poll (fd_of poll) t)
unfolding remove_poll
remove_poll-IsPaired fd_of poll t p alone =
    Gives-bind (unregister-Gives fd_of poll t p alone) λ (found, t') p'.
      gives (if_case (IsPaired fd_of) found (λ _. postpone-IsPaired poll p') (λ _. p'))

lookup_present :
    (k : ℕ) (d : List (ℕ × ℕ)) → mem k (keys d) ≡ true → (v : ℕ) × (lookup k d ≡ some v)
lookup_present k [] h = cc
lookup_present k ((j, v) ∷ d) h = elim (Bool-cases (k == j)) [
  | inl e ↦ (v, ground arith)
  | inr ne ↦ let (w, e) = lookup_present k d (ground arith) in (w, ground arith)
]

mode_changed :
    {fd_of : ℕ → ℕ} {t : PollThread} {m : List (ℕ × ℕ)} {cs : List Ctl}
    → IsPaired fd_of t
    → keys m ≡ keys t.mode_
    → IsPaired fd_of (record t { mode_ = m; calls = cs })
mode_changed p e = record {
  paired = e ∙ p.paired;
  distinct_fds = subst Distinct (sym e) p.distinct_fds;
  distinct_polls = p.distinct_polls;
  distinct_pending = p.distinct_pending;
}

pub update_mode-IsPaired :
    (fd_of : ℕ → ℕ) (poll new_mode : ℕ) (t : PollThread)
    → IsPaired fd_of t
    → Gives (IsPaired fd_of) (update_mode true poll (fd_of poll) new_mode t)
unfolding update_mode
update_mode-IsPaired fd_of poll new_mode t p =
    if_case (Gives (IsPaired fd_of)) (mem poll t.poll_set_)
      (λ here.
        let fd_here = ap (mem (fd_of poll)) p.paired ∙ mem-map fd_of poll t.poll_set_ here in
        let (old_mode, e) = lookup_present (fd_of poll) t.mode_ fd_here in
        let same = keys-replace (fd_of poll) new_mode t.mode_ in
        subst (λ o. Gives (IsPaired fd_of) (update_found true (fd_of poll) new_mode t o)) (sym e)
          (if_case (Gives (IsPaired fd_of)) (new_mode == old_mode)
            (λ _. gives (mode_changed p same)) (λ _. gives (mode_changed p same))))
      (λ absent. gives p)

pub update_mode-Keeps :
    (fd_of : ℕ → ℕ) (ok : Bool) (poll new_mode : ℕ) (t : PollThread)
    → IsPaired fd_of t
    → Keeps (IsPaired fd_of) (update_mode ok poll (fd_of poll) new_mode t)
unfolding update_mode
update_mode-Keeps fd_of ok poll new_mode t p =
    if_case (Keeps (IsPaired fd_of)) (mem poll t.poll_set_)
      (λ here. found (lookup (fd_of poll) t.mode_)) (λ absent. p)
  where
    found : (o : Option ℕ) → Keeps (IsPaired fd_of) (update_found ok (fd_of poll) new_mode t o)
    found none = tt
    found (some old_mode) =
        let same = keys-replace (fd_of poll) new_mode t.mode_ in
        if_case (Keeps (IsPaired fd_of)) (new_mode == old_mode) (λ _. mode_changed p same)
          (λ _. verify-Keeps _ _ ok λ _. mode_changed p same)
