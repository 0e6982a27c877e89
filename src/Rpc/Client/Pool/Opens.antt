-- ===== src/Rpc/Client/Pool/Opens.antt =====
-- The clients that `ClientPool::get_client` of rpc/client.cc makes for an address, and the sockets that it leaves open.
use simple_rpc.Prelude.{
  ℕ, zero, suc, ◌++◌, subst, ◌+◌, ◌<◌, ◌≡◌, ◌==◌, refl, sym, ap, ◌∙◌, ◌⊎◌, inl, inr, Bool-cases,
  arith, Bool, true, false, List, [], ◌∷◌, Option, none, some, if◌then◌else◌, ==_iff, length, All,
}
use simple_rpc.Prelude.Fault.{◌>>=◌, Gives, gives, Gives-bind}
use simple_rpc.Prelude.Dict.{count}
use simple_rpc.Rpc.Client.{new, connected}
use simple_rpc.Rpc.Client.Connect.{Link, enotconn, connect, Connects, connect-Connects}
use simple_rpc.Rpc.Sockets.{Fds, close_fd}
use simple_rpc.Rpc.Sockets.Opens.{SetUp}
use simple_rpc.Rpc.Client.Pool.{Network, new_link, open_clients, close_back}

Gives-self :
    {A : Type 0} {P : A → Type 0} {o : Option A} → Gives P o → Gives (λ a. P a × (o ≡ some a)) o
Gives-self (gives p) = gives (p, refl)

-- A client that is connected, with its two sockets.
abbrev pub IsLinked : Link → Type 0
IsLinked c =
    (tcp : ℕ) × (udp : ℕ) × (c.status_ ≡ connected)
    × (c.sock_ ≡ some tcp)
    × (c.udp_sock_ ≡ some udp)

abbrev pub one_of : ℕ → Option ℕ → ℕ
one_of x none = 0
one_of x (some fd) = if x == fd then 1 else 0

-- How often a descriptor is a socket of the clients, or a UDP socket.
abbrev pub socks : ℕ → List Link → ℕ
socks x [] = 0
socks x (c ∷ clients) = one_of x c.sock_ + one_of x c.udp_sock_ + socks x clients

abbrev pub udp_socks : ℕ → List Link → ℕ
udp_socks x [] = 0
udp_socks x (c ∷ clients) = one_of x c.udp_sock_ + udp_socks x clients

module _ (net : Network) (addr : List ℕ) where
  -- `connect` of the client number `i`, with `fds` open, gives an error.
  abbrev pub Fails : ℕ → Fds → Type 0
  Fails i fds = Gives (λ r. r.2 ≡ enotconn) (connect (net.tcp i) (net.udp i) true addr new_link fds)

  -- What the loop leaves from the client number `i` on: as many as asked, all connected, or those before the first
  -- that fails, and that one. Open are their sockets and what was open before.
  abbrev pub Opened : ℕ → ℕ → Fds → Bool × List Link × Fds → Type 0
  Opened i n fds (ok, clients, fds') =
      ((ok ≡ true)
        × (length clients ≡ n)
        × All IsLinked clients
        × ((x : ℕ) → count x fds' ≡ socks x clients + count x fds))
      ⊎ ((ok ≡ false)
          × ((linked : List Link) × (c : Link) × (before : Fds) × (clients ≡ linked ++ (c ∷ []))
              × All IsLinked linked
              × (c.status_ ≡ new)
              × (length linked < n)
              × Fails (i + length linked) before
              × ((x : ℕ) → count x fds' ≡ socks x linked + count x fds)))

  -- One client more in front of those that the loop has made.
  next-Opened :
      (i n : ℕ) (c : Link) (fds fds' : Fds) (tcp udp : ℕ)
      → IsLinked c
      → c.sock_ ≡ some tcp
      → c.udp_sock_ ≡ some udp
      → fds' ≡ udp ∷ tcp ∷ fds
      → (r : Bool × List Link × Fds) → Opened (i + 1) n fds' r
      → Opened i (suc n) fds (r.0, c ∷ r.1, r.2)
  next-Opened i n c fds fds' tcp udp up at at' e (ok, clients, fds'')
        (inl (done, size, all, sockets)) =
      inl (done, ap suc size, (up, all), λ x. more x (sockets x))
    where
      more :
          (x : ℕ)
          → count x fds'' ≡ socks x clients + count x fds'
          → count x fds'' ≡ socks x (c ∷ clients) + count x fds
      more x h = rw (at, at') (omega (arith, h, ap (count x) e))
  next-Opened i n c fds fds' tcp udp up at at' e (ok, clients, fds'')
        (inr (failed, (linked, last, before, split, all, fresh, few, fails, sockets))) =
      inr (
        failed,
        (
          c ∷ linked,
          last,
          before,
          ap (λ t. c ∷ t) split,
          (up, all),
          fresh,
          omega arith,
          subst (λ k. Fails k before) (omega arith) fails,
          λ x. more x (sockets x),
        ),
      )
    where
      more :
          (x : ℕ)
          → count x fds'' ≡ socks x linked + count x fds'
          → count x fds'' ≡ socks x (c ∷ linked) + count x fds
      more x h = rw (at, at') (omega (arith, h, ap (count x) e))

  pub open_clients-Opened :
      (i n : ℕ) (fds : Fds)
      → ((k : ℕ) → SetUp (net.tcp k) addr)
      → Gives (Opened i n fds) (open_clients net addr i n fds)
  unfolding open_clients
  open_clients-Opened i zero fds h = gives (inl (refl, refl, tt, λ x. omega arith))
  open_clients-Opened i (suc n) fds h =
      Gives-bind
        (Gives-self (connect-Connects (net.tcp i) (net.udp i) addr new_link fds refl refl (h i)))
        (next (open_clients-Opened (i + 1) n))
    where
      next :
          ((fds' : Fds)
            → ((k : ℕ) → SetUp (net.tcp k) addr)
            → Gives (Opened (i + 1) n fds') (open_clients net addr (i + 1) n fds'))
          → (r : Link × Fds × ℕ)
          → Connects new_link fds r
            × (connect (net.tcp i) (net.udp i) true addr new_link fds ≡ some r)
          → Gives (Opened i (suc n) fds) (
              if r.2 == 0
              then (open_clients net addr (i + 1) n r.1 >>= λ q. some (q.0, r.0 ∷ q.1, q.2))
              else some (false, r.0 ∷ [], r.1))
      next ih (c, fds', ret) (inl (tcp, udp, zero_ret, up, at, at', e), _) = rw zero_ret (
          Gives-bind (ih fds' h) λ q opened.
            gives (next-Opened i n c fds fds' tcp udp (tcp, udp, up, at, at') at at' e q opened))
      next ih (c, fds', ret) (inr (failed, same, e), ran) = rw failed (
          gives (
            inr (
              refl,
              (
                [],
                c,
                fds,
                refl,
                tt,
                same,
                omega arith,
                subst (λ k. Fails k fds) (omega arith)
                    (subst (λ o. Gives (λ r. r.2 ≡ enotconn) o) (sym ran) (gives failed)),
                λ x. ap (count x) e ∙ omega arith,
              ),
            )))

count-close_fd :
    (x fd : ℕ) (fds : Fds)
    → 0 < count fd fds
    → (if x == fd then 1 else 0) + count x (close_fd fd fds) ≡ count x fds
count-close_fd x fd [] h = absurd (omega arith)
count-close_fd x fd (f ∷ fds) h = elim (Bool-cases (fd == f)) [
  | inl e ↦
      let same : fd ≡ f = (==_iff fd f).0 e in
      rw e (ap (λ z. (if x == z then 1 else 0) + count x fds) same)
  | inr ne ↦
      let later : 0 < count fd fds = ground arith in
      rw ne (omega (arith, count-close_fd x fd fds later))
]

-- Closing the clients from the last to the first closes their TCP sockets, and leaves their UDP sockets open.
pub close_back-udp_socks :
    (linked : List Link) (last : Link) (fds : Fds) (base : ℕ → ℕ)
    → All IsLinked linked
    → last.status_ ≡ new
    → ((x : ℕ) → count x fds ≡ socks x linked + base x)
    → (x : ℕ) → count x (close_back (linked ++ (last ∷ [])) fds) ≡ udp_socks x linked + base x
close_back-udp_socks [] last fds base all fresh h x = rw fresh (h x)
close_back-udp_socks (c ∷ linked) last fds base ((tcp, udp, up, at, at'), all) fresh h x =
    let rest = close_back (linked ++ (last ∷ [])) fds in
    let left : (y : ℕ)
        → count y rest ≡ udp_socks y linked + (one_of y c.sock_ + one_of y c.udp_sock_ + base y) =
      close_back-udp_socks linked last fds (λ y. one_of y c.sock_ + one_of y c.udp_sock_ + base y)
        all fresh λ y. omega (arith, h y) in
    let here : one_of tcp c.sock_ ≡ 1 = rw (at, (==_iff tcp tcp).1 refl) refl in
    let some_here : 0 < count tcp rest = omega (arith, left tcp, here) in
    let mine : one_of x c.sock_ ≡ (if x == tcp then 1 else 0) = rw at refl in
    rw (up, at) (omega (arith, left x, mine, count-close_fd x tcp rest some_here))
