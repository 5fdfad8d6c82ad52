-- ===== src/AccessList/Journal.antt =====
-- core/state/statedb.go and core/state/journal.go, the part on the access list: `AddAddressToAccessList`
-- and `AddSlotToAccessList` write a journal entry for each change, and `journal.revert` undoes the
-- entries down to a snapshot, the newest first. The other kinds of journal entry do not touch the
-- access list and are not modelled. The entries stand here with the newest first.
pub mod Undo
use pangu.Prelude.{
  ℕ, zero, suc, ◌+◌, ◌-◌, ◌≡◌, ◌≢◌, refl, sym, subst, ap, ◌∙◌, Bool, true, false, not, Option, none,
  some, List, [], ◌∷◌, ◌++◌, arith, ◌>>=◌, if◌then◌else◌, inl, inr, Bool-cases, Option-cases,
  contains, length, get_elem?, set, take, lookup, insert, delete, lookup-insert, insert-insert,
  insert_same, delete-insert_new, get_elem?-append, get_elem?-set, set-set_back, take_append,
  get_elem?-some, lt_irrefl, ◌==◌,
}
use native.Mathlib.Nat.{zero-add, suc-add}
use pangu.AccessList.{
  AccessList, Index, no_slots, at, add_address, open_slots, add_slot, delete_slot, delete_address,
  remove_slot, is_empty,
}
use pangu.AccessList.Laws.{IsValid, bare-IsValid, open_slots-IsValid, grown-IsValid, new-IsValid}

pub data Entry : Type 0 where
  add_account_change : ℕ → Entry
  add_slot_change : ℕ → ℕ → Entry

pub record State : Type 0 where
  pub access_list : AccessList
  pub entries : List Entry

-- `entry.revert(s)`; `none` is a panic.
unfoldable pub revert_entry : Entry → AccessList → Option AccessList
unfolding delete_address delete_slot
revert_entry (add_account_change a) al = some (delete_address al a)
revert_entry (add_slot_change a s) al = delete_slot al a s

unfoldable pub add_address_to_access_list : State → ℕ → State
unfolding add_address
add_address_to_access_list st a =
    let (al, added) = add_address st.access_list a in
    if added
    then record { access_list = al; entries = add_account_change a ∷ st.entries }
    else record { access_list = al; entries = st.entries }

unfoldable pub add_slot_to_access_list : State → ℕ → ℕ → Option State
unfolding add_slot
add_slot_to_access_list st a s = add_slot st.access_list a s >>= λ r.
    let es = if r.1 then add_account_change a ∷ st.entries else st.entries in
    some (record { access_list = r.0; entries = if r.2 then add_slot_change a s ∷ es else es })

-- The loop of `journal.revert`, over the entries above the snapshot.
unfoldable pub undo : ℕ → AccessList → List Entry → Option State
unfolding revert_entry
undo zero al es = some (record { access_list = al; entries = es })
undo (suc n) al [] = none
undo (suc n) al (e ∷ es) = revert_entry e al >>= λ al'. undo n al' es

unfoldable pub revert : State → ℕ → Option State
unfolding undo
revert st snapshot = undo (length st.entries - snapshot) st.access_list st.entries

-- What a transaction does to its access list between a snapshot and the return to it.
pub data Call : Type 0 where
  address_call : ℕ → Call
  slot_call : ℕ → ℕ → Call

unfoldable pub run : List Call → State → Option State
run [] st = some st
run (address_call a ∷ calls) st = run calls (add_address_to_access_list st a)
run (slot_call a s ∷ calls) st = add_slot_to_access_list st a s >>= run calls
