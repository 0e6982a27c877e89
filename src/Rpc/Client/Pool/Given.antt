-- ===== src/Rpc/Client/Pool/Given.antt =====
-- What `ClientPool::get_client` of rpc/client.cc gives out.
use simple_rpc.Prelude.{
  ℕ, subst, ◌+◌, ◌%◌, ◌<◌, ◌≡◌, refl, sym, ap, ◌∙◌, ◌⊎◌, inl, inr, Bool-cases, arith, Bool, true,
  false, List, [], ◌∷◌, Option, none, some, lt→ltb, get_elem?, length, All,
}
use simple_rpc.Prelude.Fault.{◌>>=◌, Gives, gives, Gives-bind, get_elem?-Gives, verify-Gives}
use simple_rpc.Prelude.Dict.{count}
use simple_rpc.Rpc.Client.Connect.{Link}
use simple_rpc.Rpc.Sockets.{Fds, same_bytes}
use simple_rpc.Rpc.Sockets.Opens.{SetUp}
use simple_rpc.Rpc.Client.Pool.{
  Network, ClientPool, find_addr, open_clients, close_back, choose, keep_or_close, get_client,
}
use simple_rpc.Rpc.Client.Pool.Opens.{
  IsLinked, socks, udp_socks, Fails, Opened, open_clients-Opened, close_back-udp_socks,
}

-- Every address in the cache has as many clients as the pool is to have, and there is one at least.
pub record IsPool (p : ClientPool) : Type 0 where
  pub parallel : 0 < p.parallel_connections_
  pub filled : All (λ e. length e.1 ≡ p.parallel_connections_) p.cache_

find_addr-length :
    (addr : List ℕ) (n : ℕ) (cache : List (List ℕ × List Link)) (clients : List Link)
    → All (λ e. length e.1 ≡ n) cache
    → find_addr addr cache ≡ some clients
    → length clients ≡ n
find_addr-length addr n [] clients h at = cc
find_addr-length addr n ((a, cs) ∷ cache) clients (h, hs) at =
    elim (Bool-cases (same_bytes addr a)) [
      | inl here ↦
          let same : cs ≡ clients = some_injective (rw here at at) in ap length (sym same) ∙ h
      | inr there ↦ find_addr-length addr n cache clients hs (rw there at at)
    ]
  where
    some_injective : some cs ≡ some clients → cs ≡ clients
    some_injective e = cc

same_bytes_self : (s : List ℕ) → same_bytes s s ≡ true
same_bytes_self [] = refl
same_bytes_self (a ∷ s) = ground (arith, same_bytes_self s)

choose-Gives :
    (draw : ℕ) (clients : List Link) (n : ℕ)
    → 0 < n
    → length clients ≡ n
    → Gives (λ c. get_elem? clients (draw % n) ≡ some c) (choose draw clients n)
choose-Gives draw clients n h size =
    verify-Gives _ _ (lt→ltb 0 n h) (get_elem?-Gives clients (draw % n) (grind arith))

module _ (net : Network) (draw : ℕ) (addr : List ℕ) (p : ClientPool) (fds : Fds) where
  -- One of the clients that the pool has for the address; nothing else changes.
  abbrev pub Kept : ClientPool × Option Link × Fds → Type 0
  Kept (p', cl, fds') =
      (clients : List Link) × (c : Link) × (find_addr addr p.cache_ ≡ some clients)
      × (cl ≡ some c)
      × (get_elem? clients (draw % p.parallel_connections_) ≡ some c)
      × (p' ≡ p)
      × (fds' ≡ fds)

  -- One of the clients that have been connected for the address and that the pool keeps; open are their sockets and
  -- what was open before.
  abbrev pub Joined : ClientPool × Option Link × Fds → Type 0
  Joined (p', cl, fds') =
      (clients : List Link) × (c : Link) × (find_addr addr p.cache_ ≡ none)
      × (cl ≡ some c)
      × (get_elem? clients (draw % p.parallel_connections_) ≡ some c)
      × (p' ≡ record p { cache_ = (addr, clients) ∷ p.cache_ })
      × All IsLinked clients
      × ((x : ℕ) → count x fds' ≡ socks x clients + count x fds)

  -- None, since a `connect` fails behind those that have been connected; the pool is as it was, and open are the UDP
  -- sockets of these and what was open before.
  abbrev pub Refused : ClientPool × Option Link × Fds → Type 0
  Refused (p', cl, fds') =
      (linked : List Link) × (before : Fds) × (find_addr addr p.cache_ ≡ none)
      × (cl ≡ none)
      × (p' ≡ p)
      × All IsLinked linked
      × (length linked < p.parallel_connections_)
      × Fails net addr (length linked) before
      × ((x : ℕ) → count x fds' ≡ udp_socks x linked + count x fds)

  abbrev pub Given : ClientPool × Option Link × Fds → Type 0
  Given r = IsPool r.0 × (Kept r ⊎ (Joined r ⊎ Refused r))

  keep_or_close-Given :
      (r : Bool × List Link × Fds)
      → IsPool p
      → find_addr addr p.cache_ ≡ none
      → Opened net addr 0 p.parallel_connections_ fds r
      → Gives Given (keep_or_close draw addr p r)
  keep_or_close-Given (true, clients, fds') v missing (inl (done, size, all, sockets)) =
      Gives-bind (choose-Gives draw clients p.parallel_connections_ v.parallel size) λ c at. gives (
        record { parallel = v.parallel; filled = (size, v.filled) },
        inr (inl (clients, c, missing, refl, at, refl, all, sockets)),
      )
  keep_or_close-Given (false, clients, fds') v missing
        (inr (failed, (linked, last, before, split, all, fresh, few, fails, sockets))) =
      gives (
        v,
        inr (
            inr (
              linked,
              before,
              missing,
              refl,
              refl,
              all,
              few,
              subst (λ k. Fails net addr k before) (omega arith) fails,
              λ x.
                  ap (λ cs. count x (close_back cs fds')) split
                  ∙ close_back-udp_socks linked last fds' (λ y. count y fds) all fresh sockets x,
            )),
      )
  keep_or_close-Given (false, clients, fds') v missing (inl (done, _, _, _)) = cc
  keep_or_close-Given (true, clients, fds') v missing (inr (failed, rest)) = cc

  -- `get_client` of a pool in order, where `setsockopt` succeeds, returns and the pool stays in order. Where the pool
  -- has the address, one of the clients that it has is given out, and nothing changes. Else either all clients of the
  -- address have been connected, the pool keeps them, and one of them is given out; or one could not be connected,
  -- none is given out, and of those that had been connected just the UDP sockets stay open.
  pub get_client-Given :
      IsPool p → ((i : ℕ) → SetUp (net.tcp i) addr) → Gives Given (get_client net draw addr p fds)
  unfolding get_client
  get_client-Given v h = found (find_addr addr p.cache_) refl
    where
      found :
          (o : Option (List Link))
          → find_addr addr p.cache_ ≡ o
          → Gives Given (elim o [
            | some clients ↦
                choose draw clients p.parallel_connections_ >>= λ cl. some (p, some cl, fds)
            | none ↦
                open_clients net addr 0 p.parallel_connections_ fds >>= keep_or_close draw addr p
          ])
      found none missing =
          Gives-bind (open_clients-Opened net addr 0 p.parallel_connections_ fds h)
            λ r opened. keep_or_close-Given r v missing opened
      found (some clients) at =
          Gives-bind
            (choose-Gives draw clients p.parallel_connections_ v.parallel
              (find_addr-length addr p.parallel_connections_ p.cache_ clients v.filled at))
            λ c here. gives (v, inl (clients, c, at, refl, here, refl, refl))
