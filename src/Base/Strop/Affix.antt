-- ===== src/Base/Strop/Affix.antt =====
-- What `startswith` and `endswith` of base/strop.cc tell.
use simple_rpc.Prelude.{
  ◌+◌, ◌-◌, ◌≤◌, ◌≡◌, ◌↔◌, refl, sym, ap, ap₂, subst, ◌∙◌, true, [], ◌∷◌, ◌++◌, length,
  length-append, length-drop, take, drop, arith, append-nil, take-append-drop, take_all,
  drop-append_exact,
}
use simple_rpc.Base.Strop.{Text, same_prefix, startswith, endswith}

same_prefix-take :
    (s t : Text) → length t ≤ length s → same_prefix (length t) s t ≡ true → take (length t) s ≡ t
same_prefix-take s [] h e = refl
same_prefix-take [] (b ∷ t) h e = absurd (omega arith)
same_prefix-take (a ∷ s) (b ∷ t) h e = ground (arith, same_prefix-take s t)

same_prefix_append : (t r : Text) → same_prefix (length t) (t ++ r) t ≡ true
same_prefix_append [] r = refl
same_prefix_append (b ∷ t) r = ground (arith, same_prefix_append t r)

split_front :
    (str head : Text) → take (length head) str ≡ head → str ≡ head ++ drop (length head) str
split_front str head at =
    sym (take-append-drop (length head) str) ∙ ap (λ t. t ++ drop (length head) str) at

-- `startswith` tells whether `head` is the front of `str`.
pub startswith_iff :
    (str head : Text) → (startswith str head ≡ true) ↔ ((rest : Text) × (str ≡ head ++ rest))
unfolding startswith
startswith_iff str head = (
  λ h. (
    drop (length head) str,
    split_front str head (same_prefix-take str head (ground arith) (ground arith)),
  ),
  λ (rest, at).
      let long : length head ≤ length str = omega (arith, ap length at, length-append head rest) in
      let same : same_prefix (length head) str head ≡ true =
        subst (λ t. same_prefix (length head) t head ≡ true) (sym at)
          (same_prefix_append head rest) in
      ground arith,
)

-- `endswith` tells whether `tail` is the end of `str`.
pub endswith_iff :
    (str tail : Text) → (endswith str tail ≡ true) ↔ ((front : Text) × (str ≡ front ++ tail))
unfolding endswith
endswith_iff str tail = (
  λ h.
      let n = length str - length tail in
      let end = drop n str in
      let long : length tail ≤ length str = ground arith in
      let same : length end ≡ length tail = omega (arith, length-drop n str) in
      let whole : end ≡ tail =
        sym (ap (λ t. t) (take_all (length tail) end (omega arith)))
        ∙ same_prefix-take end tail (omega arith) (ground arith) in
      (take n str, sym (take-append-drop n str) ∙ ap (λ t. take n str ++ t) whole),
  λ (front, at).
      let long : length str ≡ length front + length tail =
        ap length at ∙ length-append front tail in
      let place : drop (length str - length tail) str ≡ tail =
        ap₂ drop (omega arith) at ∙ drop-append_exact (length front) front tail refl in
      let same : same_prefix (length tail) (drop (length str - length tail) str) tail ≡ true =
        subst (λ t. same_prefix (length tail) t tail ≡ true) (append-nil tail ∙ sym place)
          (same_prefix_append tail []) in
      ground arith,
)
