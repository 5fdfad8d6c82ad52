-- ===== src/AccessList.antt =====
-- accesslist/accessList.go: the access list, which the state's journal fills and rolls back, and the
-- conflict detection on it. Addresses and slots are numbers; `Addresses` is a Go map, in the order in
-- which a loop meets its keys, which is any order; a slot map is the list of its keys. An index of -1
-- stands for "no slots".
pub mod Laws
pub mod Journal
pub mod Conflict
use pangu.Prelude.{
  ℕ, ◌+◌, Bool, true, false, not, Option, none, some, List, [], ◌∷◌, ◌++◌, ◌>>=◌, ◌==◌, ◌||◌,
  if◌then◌else◌, contains, length, get_elem?, set, take, lookup, insert, delete,
}

-- The value of `Addresses[a]`: -1, or an index of `Slots`.
pub data Index : Type 0 where
  no_slots : Index
  at : ℕ → Index

pub record AccessList : Type 0 where
  pub addresses : List (ℕ × Index)
  pub slots : List (List ℕ)

unfoldable pub new_access_list : AccessList
new_access_list = record { addresses = []; slots = [] }

-- `Len` and `StorageKeys`.
unfoldable pub access_list_len : AccessList → ℕ
access_list_len al = length al.addresses

sum_lengths : List (List ℕ) → ℕ
sum_lengths [] = 0
sum_lengths (s ∷ ss) = length s + sum_lengths ss

unfoldable pub storage_keys : AccessList → ℕ
unfolding sum_lengths
storage_keys al = sum_lengths al.slots

unfoldable pub is_some {ℓ} : {A : Type ℓ} → Option A → Bool
is_some none = false
is_some (some _) = true

-- `ContainsAddress` and `AccessListIsAddressExce`.
unfoldable pub contains_address : AccessList → ℕ → Bool
unfolding is_some lookup
contains_address al a = is_some (lookup a al.addresses)

-- `AddAddress` and `AccessListAddAddress`.
unfoldable pub add_address : AccessList → ℕ → AccessList × Bool
unfolding lookup insert
add_address al a = elim (lookup a al.addresses) [
  | some _ ↦ (al, false)
  | none ↦ (record al { addresses = insert a no_slots al.addresses }, true)
]

-- A new slot map with the one slot, at the end of `Slots`.
unfoldable pub open_slots : AccessList → ℕ → ℕ → AccessList
unfolding insert
open_slots al a s = record {
  addresses = insert a (at (length al.slots)) al.addresses;
  slots = al.slots ++ ((s ∷ []) ∷ []);
}

-- `AddSlot` and `AccessListAddSlot`; `none` is an index that `Slots` does not have, a panic.
unfoldable pub add_slot : AccessList → ℕ → ℕ → Option (AccessList × Bool × Bool)
unfolding lookup open_slots
add_slot al a s = elim (lookup a al.addresses) [
  | none ↦ some (open_slots al a s, true, true)
  | some no_slots ↦ some (open_slots al a s, false, true)
  | some (at i) ↦ elim (get_elem? al.slots i) [
    | none ↦ none
    | some m ↦
        if contains m s
        then some (al, false, false)
        else some (record al { slots = set al.slots i (s ∷ m) }, false, true)
  ]
]

-- `delete(slotmap, slot)`
unfoldable pub remove_slot : ℕ → List ℕ → List ℕ
remove_slot s [] = []
remove_slot s (x ∷ m) = if x == s then remove_slot s m else x ∷ remove_slot s m

unfoldable pub is_empty : List ℕ → Bool
is_empty [] = true
is_empty (_ ∷ _) = false

-- `DeleteSlot`: it panics on an address that is not listed, or listed without slots.
unfoldable pub delete_slot : AccessList → ℕ → ℕ → Option AccessList
unfolding lookup insert remove_slot is_empty
delete_slot al a s = elim (lookup a al.addresses) [
  | none ↦ none
  | some no_slots ↦ none
  | some (at i) ↦ elim (get_elem? al.slots i) [
    | none ↦ none
    | some m ↦
        let rest = remove_slot s m in
        if is_empty rest
        then some (record { addresses = insert a no_slots al.addresses; slots = take i al.slots })
        else some (record al { slots = set al.slots i rest })
  ]
]

unfoldable pub delete_address : AccessList → ℕ → AccessList
unfolding delete
delete_address al a = record al { addresses = delete a al.addresses }

-- `Contains`: the two flags; `none` is a panic.
unfoldable pub contains_slot : AccessList → ℕ → ℕ → Option (Bool × Bool)
unfolding lookup
contains_slot al a s = elim (lookup a al.addresses) [
  | none ↦ some (false, false)
  | some no_slots ↦ some (true, false)
  | some (at i) ↦ elim (get_elem? al.slots i) [ none ↦ none | some m ↦ some (true, contains m s) ]
]

-- `CombineTrueAccessList`: the loops over the addresses of the new list and over the slots of each.
unfoldable pub add_slots : AccessList → ℕ → List ℕ → Option AccessList
unfolding add_slot
add_slots al a [] = some al
add_slots al a (s ∷ m) = add_slot al a s >>= λ r. add_slots r.0 a m

unfoldable pub combine_entries : AccessList → List (List ℕ) → List (ℕ × Index) → Option AccessList
unfolding add_address add_slots
combine_entries al slots [] = some al
combine_entries al slots ((a, no_slots) ∷ rest) = combine_entries (add_address al a).0 slots rest
combine_entries al slots ((a, at i) ∷ rest) = elim (get_elem? slots i) [
  | none ↦ none
  | some m ↦ add_slots (add_address al a).0 a m >>= λ al'. combine_entries al' slots rest
]

unfoldable pub combine : AccessList → AccessList → Option AccessList
unfolding combine_entries
combine al new = combine_entries al new.slots new.addresses
