-- ===== src/Lookup.antt =====
-- core/txpool/legacypool/legacypool.go, `lookup` and the part of `accountSet` that it asks: all
-- transactions of the pool by hash, local or remote, with the slots that they take. A map is the list of
-- its entries; the lock is left out, calls are one after the other. The sender comes from the signer.
pub mod Slots
pub mod Moves
pub mod Same
use pangu.Prelude.{
  ℕ, ◌+◌, ◌-◌, ◌/◌, Bool, true, false, Option, none, some, List, [], ◌∷◌, ltb, if◌then◌else◌,
  contains, length, lookup, insert, delete,
}
use pangu.Prelude.Int.{ℤ, pos, ◌+ℤ◌, ◌-ℤ◌}
use pangu.Message.{Transaction}
use pangu.Validation.{Received}

pub record Lookup : Type 0 where
  pub slots : ℤ
  pub locals : List (ℕ × Received)
  pub remotes : List (ℕ × Received)

unfoldable pub new_lookup : Lookup
new_lookup = record { slots = pos 0; locals = []; remotes = [] }

-- `numSlots`; `txSlotSize` is 32 KiB.
unfoldable pub num_slots : Received → ℕ
num_slots r = (r.size + 32768 - 1) / 32768

-- `Get`
unfoldable pub get : Lookup → ℕ → Option Received
unfolding lookup
get l hash = elim (lookup hash l.locals) [ some r ↦ some r | none ↦ lookup hash l.remotes ]

-- `Count`
unfoldable pub count : Lookup → ℕ
count l = length l.locals + length l.remotes

-- `Add`
unfoldable pub add : Lookup → Received → Bool → Lookup
unfolding insert num_slots
add l r local = record {
  slots = l.slots +ℤ pos (num_slots r);
  locals = if local then insert r.tx.hash r l.locals else l.locals;
  remotes = if local then l.remotes else insert r.tx.hash r l.remotes;
}

-- `Remove`, which logs an error for a hash that is not there.
unfoldable pub remove : Lookup → ℕ → Lookup
unfolding get delete num_slots
remove l hash = elim (get l hash) [
  | none ↦ l
  | some r ↦ record {
    slots = l.slots -ℤ pos (num_slots r);
    locals = delete hash l.locals;
    remotes = delete hash l.remotes;
  }
]

-- `containsTx`
unfoldable pub contains_tx : (Transaction → Option ℕ) → List ℕ → Transaction → Bool
contains_tx signer accounts tx = elim (signer tx) [ none ↦ false | some a ↦ contains accounts a ]

-- The loop of `RemoteToLocals` over the remote transactions: the local ones, those that stay remote,
-- and the count of those that move.
unfoldable pub migrate :
    (Transaction → Bool)
    → List (ℕ × Received)
    → List (ℕ × Received)
    → List (ℕ × Received) × List (ℕ × Received) × ℕ
unfolding insert
migrate is_local locals [] = (locals, [], 0)
migrate is_local locals ((hash, r) ∷ remotes) =
    if is_local r.tx
    then (let (ls, rs, n) = migrate is_local (insert hash r locals) remotes in (ls, rs, n + 1))
    else (let (ls, rs, n) = migrate is_local locals remotes in (ls, (hash, r) ∷ rs, n))

-- `RemoteToLocals`
unfoldable pub remote_to_locals : (Transaction → Option ℕ) → List ℕ → Lookup → Lookup × ℕ
unfolding migrate contains_tx
remote_to_locals signer accounts l =
    let (ls, rs, n) = migrate (contains_tx signer accounts) l.locals l.remotes in
    (record { slots = l.slots; locals = ls; remotes = rs }, n)

-- `RemotesBelowTip`
unfoldable pub remotes_below : ℕ → List (ℕ × Received) → List Received
remotes_below threshold [] = []
remotes_below threshold ((hash, r) ∷ remotes) =
    if ltb r.tx.tip_cap threshold
    then r ∷ remotes_below threshold remotes
    else remotes_below threshold remotes

-- What the pool does to it: a received transaction is added unless its hash is known.
pub data Op : Type 0 where
  receive_op : Received → Bool → Op
  remove_op : ℕ → Op
  to_locals_op : List ℕ → Op

unfoldable pub receive : Lookup → Received → Bool → Lookup
unfolding get add
receive l r local = elim (get l r.tx.hash) [ some _ ↦ l | none ↦ add l r local ]

unfoldable pub run : (Transaction → Option ℕ) → List Op → Lookup → Lookup
unfolding receive remove remote_to_locals
run signer [] l = l
run signer (receive_op r local ∷ ops) l = run signer ops (receive l r local)
run signer (remove_op hash ∷ ops) l = run signer ops (remove l hash)
run signer (to_locals_op accounts ∷ ops) l = run signer ops (remote_to_locals signer accounts l).0
