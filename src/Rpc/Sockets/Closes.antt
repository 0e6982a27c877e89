-- ===== src/Rpc/Sockets/Closes.antt =====
-- What the closing of a socket, and of two, leaves open of the descriptors of rpc/utils.cc.
use simple_rpc.Prelude.{
  ℕ, ◌≡◌, ◌≢◌, ◌==◌, refl, sym, ap, ◌∙◌, if_case, Bool, true, false, [], ◌∷◌, ◌++◌, Option, none,
  some, if◌then◌else◌, All, arith, append_assoc,
}
use simple_rpc.Rpc.Sockets.{Fds, close_fd, close_sock}
use simple_rpc.Rpc.Sockets.Opens.{opened, close_fd-opened}

All-snoc : (P : ℕ → Type 0) (xs : Fds) {x : ℕ} → All P xs → P x → All P (xs ++ (x ∷ []))
All-snoc P [] h p = (p, tt)
All-snoc P (y ∷ ys) (h, hs) p = (h, All-snoc P ys hs p)

-- A descriptor is none of a program's own.
abbrev pub Apart : Option ℕ → ℕ → Type 0
Apart own fd = own ≢ some fd

close_sock-append :
    (o : Option ℕ) (xs ys : Fds) → All (Apart o) xs → close_sock o (xs ++ opened o ys) ≡ xs ++ ys
close_sock-append none xs ys h = refl
close_sock-append (some f) [] ys h = close_fd-opened f ys
close_sock-append (some f) (x ∷ xs) ys (h, hs) =
    if_case (λ t. t ≡ x ∷ (xs ++ ys)) (f == x) (λ same. absurd (h (ap some (ground arith))))
      (λ other. ap (λ t. x ∷ t) (close_sock-append (some f) xs ys hs))

-- Behind both: the TCP socket, that the UDP socket stands before.
pub close_both :
    (tcp udp : Option ℕ) (with_udp : Bool) (xs base : Fds)
    → (with_udp ≡ false → udp ≡ none)
    → ((fd : ℕ) → udp ≡ some fd → Apart tcp fd)
    → All (Apart tcp) xs
    → All (Apart udp) xs
    → (let fds' = close_sock tcp (xs ++ opened udp (opened tcp base)) in
        (if with_udp then close_sock udp fds' else fds'))
      ≡ xs ++ base
close_both tcp none true xs base only two ht hu = close_sock-append tcp xs base ht
close_both tcp none false xs base only two ht hu = close_sock-append tcp xs base ht
close_both tcp (some u) false xs base only two ht hu = absurd (option_clash (only refl))
  where
    option_clash : some u ≡ none → ⊥
    option_clash e = cc
close_both tcp (some u) true xs base only two ht hu =
    ap (close_fd u) (
      ap (close_sock tcp) (sym (append_assoc xs (u ∷ []) (opened tcp base)))
      ∙ close_sock-append tcp (xs ++ (u ∷ [])) base (All-snoc (Apart tcp) xs ht (two u refl))
      ∙ append_assoc xs (u ∷ []) base)
    ∙ close_sock-append (some u) xs base hu
