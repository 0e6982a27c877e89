-- ===== src/Rpc/Buffer/Returns.antt =====
-- Total correctness of a command: it returns, with no fault and enough fuel, and `P` holds of what it
-- returns and of the store that it leaves.
use simple_rpc.Prelude.{◌≡◌, Option, none, some}
use simple_rpc.Rpc.Buffer.Store.{Store, Cmd, and_then}

pub data Returns {A : Type 0} (P : A → Store → Type 0) : Option (A × Store) → Type 0 where
  returns : {a : A} {st : Store} → P a st → Returns P (some (a, st))

module _ {A : Type 0} {P : A → Store → Type 0} where
  pub bind :
      {B : Type 0} {Q : B → Store → Type 0} {r : Option (A × Store)} {k : A → Cmd B}
      → Returns P r
      → ((a : A) (st : Store) → P a st → Returns Q (k a st))
      → Returns Q (and_then r k)
  bind (returns p) next = next _ _ p

  pub mono :
      {Q : A → Store → Type 0} {r : Option (A × Store)}
      → Returns P r
      → ((a : A) (st : Store) → P a st → Q a st)
      → Returns Q r
  mono (returns p) weaken = returns (weaken _ _ p)

  pub both :
      {Q : A → Store → Type 0} {r : Option (A × Store)}
      → Returns P r
      → Returns Q r
      → Returns (λ a st. P a st × Q a st) r
  both (returns p) (returns q) = returns (p, q)

  pub faults :
      {B : Type 0} {r : Option (A × Store)} {k : A → Cmd B}
      → Returns P r
      → ((a : A) (st : Store) → P a st → k a st ≡ none)
      → and_then r k ≡ none
  faults (returns p) next = next _ _ p
