-- ===== src/Rpc/Server/Table.antt =====
-- The handlers of a Server and its open connections, as rpc/server.h and rpc/server.cc keep them. A handler
-- is a number, and so is a connection.
use simple_rpc.Prelude.{
  true, Bool, ℕ, ◌≡◌, refl, false, List, [], ◌∷◌, none, some, if◌then◌else◌, ◌==◌, Bool-cases, inl,
  inr, ◌≢◌, arith, ◌⊎◌,
}
use simple_rpc.Rpc.Server.{ConnStatus, connected, closed}
use simple_rpc.Prelude.Dict.{erase, mem, lookup, keys, remove}

-- EEXIST
abbrev pub eexist : ℕ
eexist = 17

abbrev pub Handlers : Type 0
Handlers = List (ℕ × ℕ)

unfoldable pub reg : ℕ → ℕ → Handlers → Handlers × ℕ
reg rpc_id func handlers_ =
    if mem rpc_id (keys handlers_) then (handlers_, eexist) else ((rpc_id, func) ∷ handlers_, 0)

unfoldable pub unreg : ℕ → Handlers → Handlers
unreg rpc_id handlers_ = remove rpc_id handlers_

-- `ServerTcpConnection::close`, of the connection `id`: whether it is open afterwards, `sconns_`, and whether
-- the connection leaves the PollMgr, its socket is closed and the reference of `sconns_` is released.
unfoldable pub close : ℕ → ConnStatus → List ℕ → ConnStatus × List ℕ × Bool
close id closed sconns_ = (closed, sconns_, false)
close id connected sconns_ =
    if mem id sconns_ then (closed, erase id sconns_, true) else (connected, sconns_, false)

lookup_absent : (k : ℕ) (d : Handlers) → mem k (keys d) ≡ false → lookup k d ≡ none
lookup_absent k [] h = refl
lookup_absent k ((j, v) ∷ d) h = ground (arith, lookup_absent k d)

lookup-remove_self : (k : ℕ) (d : Handlers) → lookup k (remove k d) ≡ none
lookup-remove_self k [] = refl
lookup-remove_self k ((j, v) ∷ d) = ground (arith, lookup-remove_self k d)

lookup-remove_ne : (k j : ℕ) (d : Handlers) → k ≢ j → lookup k (remove j d) ≡ lookup k d
lookup-remove_ne k j [] ne = refl
lookup-remove_ne k j ((i, v) ∷ d) ne = ground (arith, lookup-remove_ne k j d)

-- `reg` of an rpc_id either is refused with EEXIST and changes nothing, or the id was free and has the
-- handler afterwards, every other id has the one it had, and `unreg` makes the id free again.
pub reg-lookup :
    (rpc_id func other : ℕ) (handlers_ : Handlers)
    → ((reg rpc_id func handlers_).1 ≡ 0)
        × (lookup rpc_id handlers_ ≡ none)
        × (lookup other (reg rpc_id func handlers_).0
            ≡ (if other == rpc_id then some func else lookup other handlers_))
        × (lookup rpc_id (unreg rpc_id (reg rpc_id func handlers_).0) ≡ none)
      ⊎ (reg rpc_id func handlers_ ≡ (handlers_, eexist))
unfolding reg unreg
reg-lookup rpc_id func other handlers_ = elim (Bool-cases (mem rpc_id (keys handlers_))) [
  | inl taken ↦ inr (rw taken refl)
  | inr new ↦ inl (
      rw (new, lookup-remove_self rpc_id ((rpc_id, func) ∷ handlers_))
        (refl, lookup_absent rpc_id handlers_ new, refl, refl))
]

-- Whatever `sconns_` has, a second `close` of a connection gives back no reference.
pub close-close :
    (id : ℕ) (s : ConnStatus) (sconns_ : List ℕ)
    → (close id (close id s sconns_).0 (close id s sconns_).1).2 ≡ false
unfolding close
close-close id closed sconns_ = refl
close-close id connected sconns_ = elim (Bool-cases (mem id sconns_)) [
  | inl here ↦ rw here refl
  | inr gone ↦ rw (gone, gone) refl
]
