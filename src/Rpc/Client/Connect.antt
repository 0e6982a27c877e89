-- ===== src/Rpc/Client/Connect.antt =====
-- `Client::connect` of rpc/client.cc, and the descriptors that `Client::close` closes. -1 is `none`. The
-- answers of the resolver for TCP and for UDP are arguments, and so is that of `set_nonblocking`.
use simple_rpc.Prelude.{
  ℕ, ◌≡◌, ◌≢◌, refl, sym, ap, ap₂, subst, ◌∙◌, arith, ◌⊎◌, inl, inr, Bool, true, false, not, List,
  ◌∷◌, Option, none, some, if◌then◌else◌,
}
use simple_rpc.Prelude.Fault.{◌>>=◌, ◌>>◌, verify, Gives, gives, Gives-bind, verify-not-Gives}
use simple_rpc.Rpc.Client.{Status, connected, closed, is_connected}
use simple_rpc.Rpc.Sockets.{Fds, Resolver, close_sock, tcp_connect, udp_connect}
use simple_rpc.Rpc.Sockets.Opens.{
  IsOpened, SetUp, close_fd-opened, tcp_connect-IsOpened, udp_connect-IsOpened,
}

pub record Link : Type 0 where
  pub sock_ : Option ℕ
  pub udp_sock_ : Option ℕ
  pub status_ : Status

abbrev pub enotconn : ℕ
enotconn = 107

-- `err_out`
abbrev pub err_out : Link → Fds → Link × Fds × ℕ
err_out c fds = (c, close_sock c.udp_sock_ (close_sock c.sock_ fds), enotconn)

-- The second half, with the TCP socket open.
unfoldable pub connect_udp : Resolver → List ℕ → Link → Fds → Option (Link × Fds × ℕ)
connect_udp udp addr c fds = do
  (udp_sock, fds') ← udp_connect udp addr fds
  let c' : Link = record c { udp_sock_ = udp_sock }
  some (elim udp_sock [
    | none ↦ err_out c' fds'
    | some _ ↦ (record c' { status_ = connected }, fds', 0)
  ])

unfoldable pub connect : Resolver → Resolver → Bool → List ℕ → Link → Fds → Option (Link × Fds × ℕ)
connect tcp udp nonblocking addr c fds = do
  verify (not (is_connected c.status_))
  (sock, fds') ← tcp_connect tcp addr fds
  let c' : Link = record c { sock_ = sock }
  elim sock [
    | none ↦ some (err_out c' fds')
    | some _ ↦ verify nonblocking >> connect_udp udp addr c' fds'
  ]

-- The descriptors in `Client::close`.
abbrev pub close_link : Link → Fds → Link × Fds
close_link c fds =
    (record c { status_ = closed }, if is_connected c.status_ then close_sock c.sock_ fds else fds)

-- Connected with two sockets more than before, or not, with those of before.
abbrev pub Connects : Link → Fds → Link × Fds × ℕ → Type 0
Connects c fds (c', fds', ret) =
    ((tcp : ℕ) × (udp : ℕ) × (ret ≡ 0)
      × (c'.status_ ≡ connected)
      × (c'.sock_ ≡ some tcp)
      × (c'.udp_sock_ ≡ some udp)
      × (fds' ≡ udp ∷ tcp ∷ fds))
    ⊎ ((ret ≡ enotconn) × (c'.status_ ≡ c.status_) × (fds' ≡ fds))

udp_done :
    (c c' : Link) (fds : Fds) (sock : ℕ)
    → c'.sock_ ≡ some sock
    → c'.status_ ≡ c.status_
    → (r : Option ℕ × Fds) → IsOpened (sock ∷ fds) r
    → Connects c fds (elim r.0 [
      | none ↦ err_out (record c' { udp_sock_ = r.0 }) r.1
      | some _ ↦ (record c' { udp_sock_ = r.0; status_ = connected }, r.1, 0)
    ])
udp_done c c' fds sock at same (none, fds') e =
    inr (refl, same, ap₂ close_sock at e ∙ close_fd-opened sock fds)
udp_done c c' fds sock at same (some udp, fds') e = inl (sock, udp, refl, refl, at, refl, e)

connect_udp-Connects :
    (udp : Resolver) (addr : List ℕ) (c c' : Link) (fds : Fds) (sock : ℕ)
    → c'.sock_ ≡ some sock
    → c'.status_ ≡ c.status_
    → Gives (Connects c fds) (connect_udp udp addr c' (sock ∷ fds))
unfolding connect_udp
connect_udp-Connects udp addr c c' fds sock at same =
    Gives-bind (udp_connect-IsOpened udp addr (sock ∷ fds))
      λ r e. gives (udp_done c c' fds sock at same r e)

tcp_done :
    (udp : Resolver) (addr : List ℕ) (c : Link) (fds : Fds)
    → c.udp_sock_ ≡ none
    → (r : Option ℕ × Fds) → IsOpened fds r
    → Gives (Connects c fds) (elim r.0 [
      | none ↦ some (err_out (record c { sock_ = r.0 }) r.1)
      | some _ ↦ verify true >> connect_udp udp addr (record c { sock_ = r.0 }) r.1
    ])
tcp_done udp addr c fds unused (none, fds') e =
    gives (inr (refl, refl, ap (λ u. close_sock u fds') unused ∙ e))
tcp_done udp addr c fds unused (some sock, fds') e =
    subst (λ f. Gives (Connects c fds) (connect_udp udp addr (record c { sock_ = some sock }) f))
      (sym e) (connect_udp-Connects udp addr c (record c { sock_ = some sock }) fds sock refl refl)

-- `connect` on a client that is not connected and has no UDP socket, where `setsockopt` and `set_nonblocking`
-- succeed: either it returns 0, the client is connected, and just the two sockets that it holds have been
-- opened, or it returns ENOTCONN, the status stays, and the open descriptors are those of before.
pub connect-Connects :
    (tcp udp : Resolver) (addr : List ℕ) (c : Link) (fds : Fds)
    → is_connected c.status_ ≡ false
    → c.udp_sock_ ≡ none
    → SetUp tcp addr
    → Gives (Connects c fds) (connect tcp udp true addr c fds)
unfolding connect
connect-Connects tcp udp addr c fds apart unused h =
    verify-not-Gives (Connects c fds) _ apart
      (Gives-bind (tcp_connect-IsOpened tcp addr fds h) (tcp_done udp addr c fds unused))

-- The UDP socket of a connected client stays open behind `close`.
pub close_link_leaks :
    (c : Link) (fds : Fds) (tcp udp : ℕ)
    → c.status_ ≡ connected
    → c.sock_ ≡ some tcp
    → tcp ≢ udp
    → (close_link c (udp ∷ tcp ∷ fds)).1 ≡ udp ∷ fds
close_link_leaks c fds tcp udp up at apart = rw (up, at) (ground arith)
