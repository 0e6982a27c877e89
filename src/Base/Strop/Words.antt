-- ===== src/Base/Strop/Words.antt =====
-- The words of a text, with which `strsplit` of base/strop.cc is compared.
use simple_rpc.Prelude.{
  ℕ, ◌<◌, ◌≡◌, ◌==◌, refl, sym, ap, subst, ◌∙◌, inl, inr, if_case, true, false, List, [], ◌∷◌, ◌++◌,
  if◌then◌else◌, All, length, arith, append_assoc, append-nil, Bool-cases,
}
use simple_rpc.Base.Strop.{Text, is_sep, not_sep}

-- A piece that is over, if it has a byte.
abbrev pub flush : Text → List Text
flush [] = []
flush (c ∷ w) = (c ∷ w) ∷ []

-- The words of a text, with `w` in front of it: the longest stretches without the separator.
unfoldable pub words : ℕ → Text → Text → List Text
words sep w [] = flush w
words sep w (c ∷ s) =
    let over = flush w ++ words sep [] s in
    let on = words sep (w ++ (c ∷ [])) s in if c == sep then over else on

pub words-word :
    (sep : ℕ) (w v s : Text)
    → All (λ c. is_sep sep c ≡ false) v
    → words sep w (v ++ s) ≡ words sep (w ++ v) s
unfolding words
words-word sep w [] s h = ap (λ t. words sep t s) (sym (append-nil w))
words-word sep w (c ∷ v) s (h, hs) =
    rw h
      (words-word sep (w ++ (c ∷ [])) v s hs ∙ ap (λ t. words sep t s) (append_assoc w (c ∷ []) v))

pub words-sep :
    (sep c : ℕ) (w s : Text) → is_sep sep c ≡ true → words sep w (c ∷ s) ≡ flush w ++ words sep [] s
unfolding words
words-sep sep c w s h = rw h

-- Separators in front of a text are passed over.
pub words-skip :
    (sep : ℕ) (v s : Text)
    → All (λ c. not_sep sep c ≡ false) v
    → words sep [] (v ++ s) ≡ words sep [] s
words-skip sep [] s h = refl
words-skip sep (c ∷ v) s (h, hs) =
    words-sep sep c [] (v ++ s) (ground arith) ∙ words-skip sep v s hs

pub flush_some : (w : Text) → 0 < length w → flush w ≡ w ∷ []
flush_some [] h = absurd (omega arith)
flush_some (c ∷ w) h = refl

pub words-flush : (sep : ℕ) (w : Text) → 0 < length w → words sep w [] ≡ w ∷ []
unfolding words
words-flush sep w h = flush_some w h

pub words-flush_nil : (sep : ℕ) → words sep [] [] ≡ []
unfolding words
words-flush_nil sep = refl

-- Not empty, and without the separator.
abbrev pub IsWord : ℕ → Text → Type 0
IsWord sep w = (0 < length w) × All (λ c. is_sep sep c ≡ false) w

abbrev pub join : List Text → Text
join [] = []
join (w ∷ ws) = w ++ join ws

abbrev pub without : ℕ → Text → Text
without sep [] = []
without sep (c ∷ s) = let rest = without sep s in if c == sep then rest else c ∷ rest

flush-All :
    (sep : ℕ) (w : Text) (ws : List Text)
    → All (λ c. is_sep sep c ≡ false) w
    → All (IsWord sep) ws
    → All (IsWord sep) (flush w ++ ws)
flush-All sep [] ws h hs = hs
flush-All sep (c ∷ w) ws h hs = ((omega arith, h), hs)

one_more :
    (sep : ℕ) (w : Text) (c : ℕ)
    → All (λ d. is_sep sep d ≡ false) w
    → is_sep sep c ≡ false
    → All (λ d. is_sep sep d ≡ false) (w ++ (c ∷ []))
one_more sep [] c h e = (e, tt)
one_more sep (d ∷ w) c (h, hs) e = (h, one_more sep w c hs e)

pub words-All :
    (sep : ℕ) (w s : Text) → All (λ c. is_sep sep c ≡ false) w → All (IsWord sep) (words sep w s)
unfolding words
words-All sep w [] h = subst (All (IsWord sep)) (append-nil (flush w)) (flush-All sep w [] h tt)
words-All sep w (c ∷ s) h =
    if_case (All (IsWord sep)) (c == sep)
      (λ over. flush-All sep w (words sep [] s) h (words-All sep [] s tt))
      (λ on. words-All sep (w ++ (c ∷ [])) s (one_more sep w c h on))

join-flush : (w : Text) (ws : List Text) → join (flush w ++ ws) ≡ w ++ join ws
join-flush [] ws = refl
join-flush (c ∷ w) ws = refl

pub join-words : (sep : ℕ) (w s : Text) → join (words sep w s) ≡ w ++ without sep s
unfolding words
join-words sep w [] = ap join (sym (append-nil (flush w))) ∙ join-flush w []
join-words sep w (c ∷ s) = elim (Bool-cases (c == sep)) [
  | inl over ↦ rw over (join-flush w (words sep [] s) ∙ ap (λ t. w ++ t) (join-words sep [] s))
  | inr on ↦ rw on (join-words sep (w ++ (c ∷ [])) s ∙ append_assoc w (c ∷ []) (without sep s))
]
