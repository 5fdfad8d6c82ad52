-- ===== src/StateDb/Journal.antt =====
-- core/state/journal.go and the snapshots of core/state/statedb.go: undoing entries, and what the code
-- on top does between a snapshot and the return to it. A panic is `none`.
use pangu.Prelude.{
  ℕ, zero, suc, ◌+◌, ◌-◌, false, Option, none, some, List, [], ◌∷◌, ◌>>=◌, ltb, ◌==◌, if◌then◌else◌,
  length,
}
use pangu.World.{update}
use pangu.AccessList.Journal as Listing
use pangu.StateObject.{
  Database, StateObject, put_balance, put_nonce, put_code, put_state, get_state_of, get_code_of,
}
use pangu.StateDb.{
  Log, Entry, create_object_change, reset_object_change, suicide_change, balance_change,
  nonce_change, storage_change, code_change, refund_change, add_log_change, add_preimage_change,
  touch_change, list_change, transient_storage_change, State, dirtied, append, set_state_object,
  get_state_object,
}

-- The logs without the last one; an empty list is cut out of its range.
unfoldable pub drop_last : List Log → Option (List Log)
drop_last [] = none
drop_last (l ∷ []) = some []
drop_last (l ∷ k ∷ ls) = elim (drop_last (k ∷ ls)) [ none ↦ none | some ms ↦ some (l ∷ ms) ]

-- The entries of the access list, in front of the others.
unfoldable pub append_list : List Listing.Entry → State → State
unfolding append
append_list [] st = st
append_list (e ∷ es) st = append (list_change e) (append_list es st)

-- A state with what the access list and its new entries have become.
unfoldable pub with_list : State → Listing.State → State
unfolding append_list
with_list st l = append_list l.entries (record st { access_list = l.access_list })

unfoldable pub list_of : State → Listing.State
list_of st = record { access_list = st.access_list; entries = [] }

unfoldable pub add_address_to_access_list : State → ℕ → State
unfolding Listing.add_address_to_access_list with_list list_of
add_address_to_access_list st a = with_list st (Listing.add_address_to_access_list (list_of st) a)

unfoldable pub add_slot_to_access_list : State → ℕ → ℕ → Option State
unfolding Listing.add_slot_to_access_list with_list list_of
add_slot_to_access_list st a s =
    Listing.add_slot_to_access_list (list_of st) a s >>= λ l. some (with_list st l)

-- The decrement of `dirties`; a count of 0 is no key.
unfoldable pub drop_dirty : Entry → State → State
unfolding dirtied
drop_dirty e st = record st {
  dirties = (elim (dirtied e) [
    | none ↦ st.dirties
    | some a ↦ update st.dirties a (st.dirties a - 1)
  ]);
}

module _ (db : Database) where
  -- A write through `s.getStateObject(a)`, which is a nil dereference if nothing is there.
  unfoldable pub on_object : ℕ → (StateObject → StateObject) → State → Option State
  unfolding get_state_object set_state_object
  on_object a write st =
      let (o, st') = get_state_object db st a in
      elim o [ none ↦ none | some x ↦ some (set_state_object st' a (write x)) ]

  -- `revert` of each entry.
  unfoldable pub revert_entry : Entry → State → Option State
  unfolding on_object get_state_object set_state_object Listing.revert_entry drop_last
  revert_entry (create_object_change a) st = some (record st {
    objects = update st.objects a none;
    objects_dirty = update st.objects_dirty a false;
  })
  revert_entry (reset_object_change a prev prevdestruct) st =
      let st' = set_state_object st a prev in
      some (record st' {
        objects_destruct =
            if prevdestruct then st'.objects_destruct else update st'.objects_destruct a false;
      })
  revert_entry (suicide_change a prev prevbalance) st =
      let (o, st') = get_state_object db st a in
      elim o [
        | none ↦ some st'
        | some x ↦
            some (set_state_object st' a (put_balance prevbalance (record x { suicided = prev })))
      ]
  revert_entry (balance_change a prev) st = on_object a (put_balance prev) st
  revert_entry (nonce_change a prev) st = on_object a (put_nonce prev) st
  revert_entry (storage_change a key prev) st = on_object a (put_state key prev) st
  revert_entry (code_change a prev hash) st = on_object a (put_code hash prev) st
  revert_entry (refund_change prev) st = some (record st { refund = prev })
  revert_entry (add_log_change h) st = elim (drop_last (st.logs h)) [
    | none ↦ none
    | some logs ↦ some (record st { logs = update st.logs h logs; log_size = st.log_size - 1 })
  ]
  revert_entry (add_preimage_change h) st =
      some (record st { preimages = update st.preimages h none })
  revert_entry (touch_change a) st = some st
  revert_entry (list_change e) st = elim (Listing.revert_entry e st.access_list) [
    | none ↦ none
    | some al ↦ some (record st { access_list = al })
  ]
  revert_entry (transient_storage_change a key prev) st =
      some (record st { transient = update st.transient a (update (st.transient a) key prev) })

  -- The loop of `journal.revert` over the newest entries, and the entries that it leaves.
  unfoldable pub undo : ℕ → List Entry → State → Option State
  unfolding revert_entry drop_dirty
  undo zero es st = some (record st { entries = es })
  undo (suc n) [] st = none
  undo (suc n) (e ∷ es) st = revert_entry e st >>= λ st'. undo n es (drop_dirty e st')

  -- `Snapshot`
  unfoldable pub snapshot : State → ℕ × State
  snapshot st = (
    st.next_revision_id,
    record st {
      valid_revisions = (st.next_revision_id, length st.entries) ∷ st.valid_revisions;
      next_revision_id = st.next_revision_id + 1;
    },
  )

  -- The search for the first revision whose id is not below: those above it are passed over. The ids
  -- fall along the list, newest first.
  unfoldable pub search_revision : ℕ → List (ℕ × ℕ) → Option (ℕ × List (ℕ × ℕ))
  search_revision revid [] = none
  search_revision revid ((id, index) ∷ revs) =
      let rest = search_revision revid revs in
      if id == revid then some (index, revs) else if ltb revid id then rest else none

  -- `RevertToSnapshot`
  unfoldable pub revert_to_snapshot : ℕ → State → Option State
  unfolding search_revision undo
  revert_to_snapshot revid st = search_revision revid st.valid_revisions >>= λ r.
      undo (length st.entries - r.0) st.entries st >>= λ st'.
      some (record st' { valid_revisions = r.1 })

  -- `GetState` and `GetCode`, with the caches that they leave.
  unfoldable pub get_state : State → ℕ → ℕ → ℕ × State
  unfolding get_state_object get_state_of set_state_object
  get_state st a key =
      let (o, st') = get_state_object db st a in
      elim o [
        | none ↦ (0, st')
        | some x ↦
            let (v, x') = get_state_of db a (st'.objects_destruct a) x key in
            (v, set_state_object st' a x')
      ]

  unfoldable pub get_code : State → ℕ → Option (List ℕ) × State
  unfolding get_state_object get_code_of set_state_object
  get_code st a =
      let (o, st') = get_state_object db st a in
      elim o [
        | none ↦ (none, st')
        | some x ↦ let (c, x') = get_code_of db x in (c, set_state_object st' a x')
      ]
