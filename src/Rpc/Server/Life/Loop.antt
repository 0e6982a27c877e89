-- ===== src/Rpc/Server/Life/Loop.antt =====
-- The descriptors of a Server of rpc/server.cc while it accepts connections, and behind its loop.
use simple_rpc.Prelude.{
  ℕ, ◌≤◌, ◌≡◌, refl, sym, ap, subst, ◌∙◌, if_case, Bool, true, false, not, ◌||◌, List, [], ◌∷◌,
  ◌++◌, Option, none, some, if◌then◌else◌, All, length, arith,
}
use simple_rpc.Rpc.Sockets.{Fds, close_sock}
use simple_rpc.Rpc.Sockets.Closes.{Apart, close_both}
use simple_rpc.Rpc.Sockets.Opens.{opened}
use simple_rpc.Rpc.Server.Life.{
  Server, stopping, stopped, is_running, Round, Stop, never, in_select, in_accept, accept_one,
  stopping_if, is_in_select, is_in_accept, round, shut, server_loop,
}

-- The sockets of a server that has been started.
abbrev pub Sockets : Type 0
Sockets = Option ℕ × Option ℕ × Bool

abbrev pub sockets_of : Server → Sockets
sockets_of s = (s.server_sock_, s.udp_sock_, s.udp_)

pub record AreSockets (o : Sockets) : Type 0 where
  pub only : o.2 ≡ false → o.1 ≡ none
  pub two : (fd : ℕ) → o.1 ≡ some fd → Apart o.0 fd

abbrev pub ApartAll : Server → Fds → Type 0
ApartAll s fds = All (Apart s.server_sock_) fds × All (Apart s.udp_sock_) fds

-- Open are the connections that the server has, its own sockets, those of `base`, and a connection at most that
-- it has accepted and not kept, for which it is not running any more.
abbrev pub Serves : Fds → Server → Fds → Type 0
Serves base s fds =
    (lost : Fds) × (length lost ≤ 1)
    × (is_running s.status_ ≡ true → lost ≡ [])
    × ApartAll s (lost ++ s.sconns_)
    × (fds ≡ (lost ++ s.sconns_) ++ opened s.udp_sock_ (opened s.server_sock_ base))

-- The end: the server has no socket, and those that it had are closed.
abbrev pub Closed : Fds → Server × Fds → Type 0
Closed base (s, fds) =
    (s.status_ ≡ stopped)
    × (s.server_sock_ ≡ none)
    × (s.udp_sock_ ≡ none)
    × ((lost : Fds) × (length lost ≤ 1) × (fds ≡ (lost ++ s.sconns_) ++ base))

shut-Closed :
    (base : Fds) (s : Server) (fds : Fds)
    → AreSockets (sockets_of s)
    → Serves base s fds
    → Closed base (shut s fds)
unfolding shut
shut-Closed base s fds own (lost, few, _, (ht, hu), layout) = (
  refl,
  refl,
  if_case (λ u. u ≡ none) s.udp_ (λ with_udp. refl) own.only,
  (
    lost,
    few,
    ap
          (λ f.
            let fds' = close_sock s.server_sock_ f in
            if s.udp_ then close_sock s.udp_sock_ fds' else fds')
          layout
        ∙ close_both s.server_sock_ s.udp_sock_ s.udp_ (lost ++ s.sconns_) base own.only own.two ht
            hu,
  ),
)

-- What `accept` gives is a new descriptor.
abbrev pub IsNew : Sockets → Option ℕ → Type 0
IsNew o none = Unit {0}
IsNew o (some fd) = Apart o.0 fd × Apart o.1 fd

-- Nothing is lost while the server runs.
abbrev Runs : Fds → Server → Fds → Type 0
Runs base s fds =
    ApartAll s s.sconns_ × (fds ≡ s.sconns_ ++ opened s.udp_sock_ (opened s.server_sock_ base))

Serves-Runs :
    (base : Fds) (s : Server) (fds : Fds)
    → is_running s.status_ ≡ true
    → Serves base s fds
    → Runs base s fds
Serves-Runs base s fds up (lost, few, none_lost, apart, layout) =
    let nothing : lost ≡ [] = none_lost up in
    (
      subst (λ l. ApartAll s (l ++ s.sconns_)) nothing apart,
      layout
          ∙ ap (λ l. (l ++ s.sconns_) ++ opened s.udp_sock_ (opened s.server_sock_ base)) nothing,
    )

Runs-Serves : (base : Fds) (s : Server) (fds : Fds) → Runs base s fds → Serves base s fds
Runs-Serves base s fds (apart, layout) = ([], omega arith, (λ up. refl), apart, layout)

accept_one-running :
    (base : Fds) (accepted : Option ℕ) (s : Server) (fds : Fds)
    → is_running s.status_ ≡ true
    → IsNew (sockets_of s) accepted
    → Runs base s fds
    → (let r = accept_one accepted s fds in Serves base r.0 r.1)
accept_one-running base none s fds up new h = Runs-Serves base s fds h
accept_one-running base (some fd) s fds up (nt, nu) ((ht, hu), layout) =
    rw up ([], omega arith, (λ _. refl), ((nt, ht), (nu, hu)), ap (λ t. fd ∷ t) layout)

accept_one-stopping :
    (base : Fds) (accepted : Option ℕ) (s : Server) (fds : Fds)
    → IsNew (sockets_of s) accepted
    → Runs base s fds
    → (let r = accept_one accepted (record s { status_ = stopping }) fds in Serves base r.0 r.1)
accept_one-stopping base none s fds new h = Runs-Serves base (record s { status_ = stopping }) fds h
accept_one-stopping base (some fd) s fds (nt, nu) ((ht, hu), layout) =
    (fd ∷ [], omega arith, (λ up. cc), ((nt, ht), (nu, hu)), ap (λ t. fd ∷ t) layout)

round-Serves :
    (base : Fds) (ready : Bool) (accepted : Option ℕ) (stop : Stop) (s : Server) (fds : Fds)
    → is_running s.status_ ≡ true
    → IsNew (sockets_of s) accepted
    → Runs base s fds
    → (let r = round (record { ready = ready; accepted = accepted; stop = stop }) s fds in
        Serves base r.0 r.1)
unfolding round
round-Serves base false accepted never s fds up new h = Runs-Serves base s fds h
round-Serves base false accepted in_accept s fds up new h = Runs-Serves base s fds h
round-Serves base false accepted in_select s fds up new h =
    Runs-Serves base (record s { status_ = stopping }) fds h
round-Serves base true accepted in_select s fds up new h =
    Runs-Serves base (record s { status_ = stopping }) fds h
round-Serves base true accepted never s fds up new h =
    rw up (accept_one-running base accepted s fds up new h)
round-Serves base true accepted in_accept s fds up new h =
    rw up (accept_one-stopping base accepted s fds new h)

sockets_of-accept_one :
    (accepted : Option ℕ) (s : Server) (fds : Fds)
    → sockets_of (accept_one accepted s fds).0 ≡ sockets_of s
sockets_of-accept_one none s fds = refl
sockets_of-accept_one (some fd) s fds =
    if_case (λ t. sockets_of t ≡ sockets_of s) (is_running s.status_) (λ up. refl) (λ down. refl)

sockets_of-stopping_if : (b : Bool) (s : Server) → sockets_of (stopping_if b s) ≡ sockets_of s
sockets_of-stopping_if true s = refl
sockets_of-stopping_if false s = refl

sockets_of-round :
    (r : Round) (s : Server) (fds : Fds) → sockets_of (round r s fds).0 ≡ sockets_of s
unfolding round
sockets_of-round r s fds =
    let s' = stopping_if (is_in_select r.stop) s in
    if_case (λ (t : Server × Fds). sockets_of t.0 ≡ sockets_of s)
      (not r.ready || not (is_running s'.status_))
      (λ over. sockets_of-stopping_if (is_in_select r.stop) s)
      (λ on.
        sockets_of-accept_one r.accepted (stopping_if (is_in_accept r.stop) s') fds
        ∙ sockets_of-stopping_if (is_in_accept r.stop) s'
        ∙ sockets_of-stopping_if (is_in_select r.stop) s)

-- Whatever clients come, and wherever in a round the destructor asks for the end, the loop of a server that
-- runs ends with its sockets closed; what is open besides the descriptors of before are the connections that it
-- has, and one more at most.
pub server_loop-Closed :
    (base : Fds) (rounds : List Round) (s : Server) (fds : Fds)
    → AreSockets (sockets_of s)
    → All (λ r. IsNew (sockets_of s) r.accepted) rounds
    → Serves base s fds
    → Closed base (server_loop rounds s fds)
unfolding server_loop
server_loop-Closed base [] s fds own new h = shut-Closed base s fds own h
server_loop-Closed base (r ∷ rounds) s fds own (new, news) h =
    if_case (Closed base) (is_running s.status_)
      (λ up.
        let same : sockets_of s ≡ sockets_of (round r s fds).0 = sym (sockets_of-round r s fds) in
        server_loop-Closed base rounds (round r s fds).0 (round r s fds).1
          (subst AreSockets same own) (subst (λ o. All (λ r. IsNew o r.accepted) rounds) same news)
          (round-Serves base r.ready r.accepted r.stop s fds up new (Serves-Runs base s fds up h)))
      (λ down. shut-Closed base s fds own h)
