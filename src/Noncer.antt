-- ===== src/Noncer.antt =====
-- core/txpool/legacypool/noncer.go: the nonces of the pool over those of the state. The lock is left
-- out. `GetNonce` of the state is a function; a map is a list of entries.
use pangu.Prelude.{
  ℕ, ◌≡◌, min, none, some, List, [], arith, leb, ◌==◌, if◌then◌else◌, lookup, insert, lookup-insert,
}

pub record Noncer : Type 0 where
  pub fallback : ℕ → ℕ
  pub nonces : List (ℕ × ℕ)

unfoldable pub new_noncer : (ℕ → ℕ) → Noncer
new_noncer statedb = record { fallback = statedb; nonces = [] }

-- The nonce of the state is taken over, unless it is 0.
unfoldable pub fetch : Noncer → ℕ → Noncer
unfolding lookup insert
fetch txn addr = elim (lookup addr txn.nonces) [
  | some _ ↦ txn
  | none ↦
      if txn.fallback addr == 0
      then txn
      else record txn { nonces = insert addr (txn.fallback addr) txn.nonces }
]

-- `txn.nonces[addr]`, 0 for a missing key.
unfoldable pub stored : Noncer → ℕ → ℕ
unfolding lookup
stored txn addr = elim (lookup addr txn.nonces) [ none ↦ 0 | some n ↦ n ]

unfoldable pub get : Noncer → ℕ → ℕ × Noncer
unfolding fetch stored
get txn addr = (stored (fetch txn addr) addr, fetch txn addr)

unfoldable pub set_nonce : Noncer → ℕ → ℕ → Noncer
unfolding insert
set_nonce txn addr nonce = record txn { nonces = insert addr nonce txn.nonces }

unfoldable pub set_if_lower : Noncer → ℕ → ℕ → Noncer
unfolding fetch stored set_nonce
set_if_lower txn addr nonce =
    if leb (stored (fetch txn addr) addr) nonce
    then fetch txn addr
    else set_nonce (fetch txn addr) addr nonce

unfoldable pub set_all : Noncer → List (ℕ × ℕ) → Noncer
set_all txn all = record txn { nonces = all }

-- What the pool sees as the nonce of an account, independent of what was fetched before.
unfoldable pub seen : Noncer → ℕ → ℕ
unfolding lookup
seen txn addr = elim (lookup addr txn.nonces) [ none ↦ txn.fallback addr | some n ↦ n ]

-- `get` returns the nonce that the pool sees, and does not change what it sees for any account.
pub get-seen :
    (txn : Noncer) (addr other : ℕ)
    → ((get txn addr).0 ≡ seen txn addr) × (seen (get txn addr).1 other ≡ seen txn other)
unfolding get fetch stored seen
get-seen txn addr other = (
  ground (arith, lookup-insert addr addr (txn.fallback addr) txn.nonces),
  ground (arith, lookup-insert addr other (txn.fallback addr) txn.nonces),
)

-- `setIfLower` makes the nonce that the pool sees for the account the smaller of the old one and the
-- new one, and leaves those of all other accounts.
pub set_if_lower-seen :
    (txn : Noncer) (addr other nonce : ℕ)
    → seen (set_if_lower txn addr nonce) other
      ≡ (if addr == other then min (seen txn addr) nonce else seen txn other)
unfolding set_if_lower set_nonce fetch stored seen
set_if_lower-seen txn addr other nonce = ground (
  arith,
  lookup-insert addr other (txn.fallback addr) txn.nonces,
  lookup-insert addr addr (txn.fallback addr) txn.nonces,
  lookup-insert addr other nonce txn.nonces,
  lookup-insert addr other nonce (insert addr (txn.fallback addr) txn.nonces),
)
