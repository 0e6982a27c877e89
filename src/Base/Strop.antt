-- ===== src/Base/Strop.antt =====
-- base/strop.cc. A text is the list of its bytes, `npos` is `none`.
pub mod Words
pub mod Split
pub mod Affix
pub mod Decimal
mod Runs
use simple_rpc.Prelude.{
  ℕ, zero, suc, ◌+◌, ◌-◌, ◌*◌, ◌%◌, ◌==◌, Bool, true, false, not, ◌&&◌, List, [], ◌∷◌, ◌++◌, Option,
  none, some, if◌then◌else◌, ltb, length, take, drop,
}
use simple_rpc.Prelude.Fault.{◌>>=◌}

abbrev pub Text : Type 0
Text = List ℕ

-- `strncmp(s, t, n) == 0`, where both have `n` bytes.
abbrev pub same_prefix : ℕ → Text → Text → Bool
same_prefix zero s t = true
same_prefix (suc n) [] t = true
same_prefix (suc n) (a ∷ s) [] = false
same_prefix (suc n) (a ∷ s) (b ∷ t) = (a == b) && same_prefix n s t

unfoldable pub startswith : Text → Text → Bool
startswith str head =
    if ltb (length str) (length head) then false else same_prefix (length head) str head

unfoldable pub endswith : Text → Text → Bool
endswith str tail =
    if ltb (length str) (length tail)
    then false
    else same_prefix (length tail) (drop (length str - length tail) str) tail

-- The first place at which `p` holds; the text begins at place `i`.
unfoldable pub find_if : (ℕ → Bool) → ℕ → Text → Option ℕ
find_if p i [] = none
find_if p i (c ∷ s) = if p c then some i else find_if p (i + 1) s

-- `str.find(sep, pos)` and `str.find_first_not_of(sep, pos)`
abbrev pub find_from : (ℕ → Bool) → Text → Option ℕ → Option ℕ
find_from p str none = none
find_from p str (some pos) = find_if p pos (drop pos str)

abbrev pub is_sep : ℕ → ℕ → Bool
is_sep sep c = c == sep

abbrev pub not_sep : ℕ → ℕ → Bool
not_sep sep c = not (c == sep)

abbrev pub substr : Text → ℕ → ℕ → Text
substr str pos n = take n (drop pos str)

-- Behind the loop.
abbrev pub last_piece : Text → Option ℕ → List Text
last_piece str none = []
last_piece str (some begin) = if ltb begin (length str) then drop begin str ∷ [] else []

-- A round that begins at a place, with the place of the next separator and what the rounds behind it give.
abbrev pub split_round :
    (Option ℕ → Option (List Text)) → Text → ℕ → ℕ → Option ℕ → Option (List Text)
split_round rest str sep begin none = some (last_piece str (some begin))
split_round rest str sep begin (some end) = do
  pieces ← rest (find_from (not_sep sep) str (some end))
  some (substr str begin (end - begin) ∷ pieces)

-- The loop, where `begin` is a place and where it is `npos`. Out of fuel there is no result.
unfoldable pub split_loop : ℕ → Text → ℕ → Option ℕ → Option (List Text)
split_loop zero str sep begin = none
split_loop (suc fuel) str sep none = some (last_piece str none)
split_loop (suc fuel) str sep (some begin) =
    split_round (split_loop fuel str sep) str sep begin (find_from (is_sep sep) str (some begin))

unfoldable pub strsplit : Text → ℕ → Option (List Text)
strsplit str sep = split_loop (length str + 1) str sep (find_from (not_sep sep) str (some 0))
