-- ===== src/StateDb.antt =====
-- core/state/statedb.go and core/state/journal.go: the accounts in memory, the journal of what a
-- transaction changes, and the snapshots to which it can go back. Maps are functions, with the value of a
-- missing key where Go has one; the journal and the revisions stand with the newest first. The object at
-- an address is the one that all pointers to it see, so a write to an object is a write to the map.
pub mod Journal
pub mod Similar
pub mod Views
pub mod Undo
pub mod Objects
pub mod Accounts
pub mod Steps
pub mod Values
pub mod Lists
pub mod Program
pub mod Restore
pub mod Revert
pub mod Reads
pub mod Finalise
pub mod Refine
use pangu.Prelude.{
  ℕ, zero, suc, ◌+◌, ◌-◌, ◌%◌, Bool, true, false, not, ◌&&◌, ◌||◌, Option, none, some, List, [],
  ◌∷◌, ◌++◌, ◌>>=◌, ltb, ◌==◌, if◌then◌else◌, length, map,
}
use pangu.Prelude.Int.{ℤ, pos, ◌+ℤ◌, ◌-ℤ◌}
use pangu.World.{update}
use pangu.Evm.{u64}
use pangu.AccessList.{AccessList}
use pangu.AccessList.Journal as Listing
use pangu.StateObject.{
  Database, StateObject, StateAccount, is_zero, new_object, put_balance, put_nonce, put_code,
  put_state, fresh, is_empty_object, get_committed_state, get_state_of, get_code_of,
}

pub record Log : Type 0 where
  pub content : ℕ
  pub tx_hash : ℕ
  pub index : ℕ

-- The journal entries; `list_change` stands for the two of the access list.
pub data Entry : Type 0 where
  create_object_change : ℕ → Entry
  reset_object_change : ℕ → StateObject → Bool → Entry
  suicide_change : ℕ → Bool → ℤ → Entry
  balance_change : ℕ → ℤ → Entry
  nonce_change : ℕ → ℕ → Entry
  storage_change : ℕ → ℕ → ℕ → Entry
  code_change : ℕ → Option (List ℕ) → ℕ → Entry
  refund_change : ℕ → Entry
  add_log_change : ℕ → Entry
  add_preimage_change : ℕ → Entry
  touch_change : ℕ → Entry
  list_change : Listing.Entry → Entry
  transient_storage_change : ℕ → ℕ → ℕ → Entry

-- `StateDB`; a revision is its id and its index in the journal.
pub record State : Type 0 where
  pub objects : ℕ → Option StateObject
  pub objects_pending : ℕ → Bool
  pub objects_dirty : ℕ → Bool
  pub objects_destruct : ℕ → Bool
  pub refund : ℕ
  pub thash : ℕ
  pub logs : ℕ → List Log
  pub log_size : ℕ
  pub preimages : ℕ → Option (List ℕ)
  pub access_list : AccessList
  pub transient : ℕ → ℕ → ℕ
  pub entries : List Entry
  pub dirties : ℕ → ℕ
  pub valid_revisions : List (ℕ × ℕ)
  pub next_revision_id : ℕ

-- `dirtied`
unfoldable pub dirtied : Entry → Option ℕ
dirtied (create_object_change a) = some a
dirtied (reset_object_change a o d) = some a
dirtied (suicide_change a b x) = some a
dirtied (balance_change a x) = some a
dirtied (nonce_change a n) = some a
dirtied (storage_change a k v) = some a
dirtied (code_change a c h) = some a
dirtied (refund_change n) = none
dirtied (add_log_change h) = none
dirtied (add_preimage_change h) = none
dirtied (touch_change a) = some a
dirtied (list_change e) = none
dirtied (transient_storage_change a k v) = none

-- `journal.append`
unfoldable pub append : Entry → State → State
unfolding dirtied
append e st = record st {
  entries = e ∷ st.entries;
  dirties = (elim (dirtied e) [
    | none ↦ st.dirties
    | some a ↦ update st.dirties a (st.dirties a + 1)
  ]);
}

unfoldable pub set_state_object : State → ℕ → StateObject → State
set_state_object st a o = record st { objects = update st.objects a (some o) }

module _ (db : Database) where
  -- The object in memory, or else the one that the database gives.
  unfoldable pub find : State → ℕ → Option StateObject
  unfolding new_object
  find st a = elim (st.objects a) [
    | some o ↦ some o
    | none ↦ elim (db.account a) [ none ↦ none | some account ↦ some (new_object account) ]
  ]

  -- `getDeletedStateObject`, which keeps what it loads; to store what is there changes nothing.
  unfoldable pub get_deleted_state_object : State → ℕ → Option StateObject × State
  unfolding find
  get_deleted_state_object st a =
      (find st a, record st { objects = update st.objects a (find st a) })

  unfoldable pub get_state_object : State → ℕ → Option StateObject × State
  unfolding get_deleted_state_object
  get_state_object st a =
      let (o, st') = get_deleted_state_object st a in
      (elim o [ none ↦ none | some x ↦ if x.deleted then none else some x ], st')

  -- What `createObject` notes, over the object that was there, if any.
  unfoldable pub note_creation : State → ℕ → Option StateObject → State
  unfolding append
  note_creation st a none = append (create_object_change a) st
  note_creation st a (some prev) =
      append (reset_object_change a prev (st.objects_destruct a))
        (record st { objects_destruct = update st.objects_destruct a true })

  -- `createObject`: the object before that was not deleted, and the state; the new object is `fresh`.
  unfoldable pub create_object : State → ℕ → Option StateObject × State
  unfolding get_deleted_state_object note_creation set_state_object
  create_object st a =
      let (prev, st') = get_deleted_state_object st a in
      (
        elim prev [ none ↦ none | some x ↦ if x.deleted then none else some x ],
        set_state_object (note_creation st' a prev) a (fresh db),
      )

  -- `GetOrNewStateObject`
  unfoldable pub get_or_new_state_object : State → ℕ → StateObject × State
  unfolding get_state_object create_object
  get_or_new_state_object st a =
      let (o, st') = get_state_object st a in
      elim o [ some x ↦ (x, st') | none ↦ (fresh db, (create_object st' a).1) ]

  -- `CreateAccount`
  unfoldable pub create_account : State → ℕ → State
  unfolding create_object set_state_object put_balance
  create_account st a =
      let (prev, st') = create_object st a in
      elim prev [
        | none ↦ st'
        | some x ↦ set_state_object st' a (put_balance x.data_of.balance (fresh db))
      ]

  -- `SetBalance`, `SetNonce`, `SetCode`, `SetState` and `touch` of an object.
  unfoldable pub set_balance_of : State → ℕ → StateObject → ℤ → State
  unfolding append set_state_object put_balance
  set_balance_of st a o amount =
      set_state_object (append (balance_change a o.data_of.balance) st) a (put_balance amount o)

  unfoldable pub touch : State → ℕ → State
  unfolding append
  touch st a =
      let st' = append (touch_change a) st in
      if a == 3 then record st' { dirties = update st'.dirties a (st'.dirties a + 1) } else st'

  unfoldable pub add_balance : State → ℕ → ℤ → State
  unfolding get_or_new_state_object is_zero is_empty_object touch set_balance_of
  add_balance st a amount =
      let (o, st') = get_or_new_state_object st a in
      if is_zero amount
      then (if is_empty_object db o then touch st' a else st')
      else set_balance_of st' a o (o.data_of.balance +ℤ amount)

  unfoldable pub sub_balance : State → ℕ → ℤ → State
  unfolding get_or_new_state_object is_zero set_balance_of
  sub_balance st a amount =
      let (o, st') = get_or_new_state_object st a in
      if is_zero amount then st' else set_balance_of st' a o (o.data_of.balance -ℤ amount)

  unfoldable pub set_balance : State → ℕ → ℤ → State
  unfolding get_or_new_state_object set_balance_of
  set_balance st a amount =
      let (o, st') = get_or_new_state_object st a in set_balance_of st' a o amount

  unfoldable pub set_nonce : State → ℕ → ℕ → State
  unfolding get_or_new_state_object append set_state_object put_nonce
  set_nonce st a nonce =
      let (o, st') = get_or_new_state_object st a in
      set_state_object (append (nonce_change a o.data_of.nonce) st') a (put_nonce nonce o)

  unfoldable pub set_code : State → ℕ → List ℕ → State
  unfolding get_or_new_state_object append set_state_object get_code_of put_code
  set_code st a code =
      let (o, st') = get_or_new_state_object st a in
      let (prev, o') = get_code_of db o in
      set_state_object (append (code_change a prev o'.data_of.code_hash) st') a
        (put_code (db.keccak256 code) (some code) o')

  unfoldable pub set_state : State → ℕ → ℕ → ℕ → State
  unfolding get_or_new_state_object append set_state_object get_state_of put_state
  set_state st a key value =
      let (o, st') = get_or_new_state_object st a in
      let (prev, o') = get_state_of db a (st'.objects_destruct a) o key in
      if prev == value
      then set_state_object st' a o'
      else set_state_object (append (storage_change a key prev) st') a (put_state key value o')

  -- `SelfDestruct`
  unfoldable pub self_destruct : State → ℕ → State
  unfolding get_state_object append set_state_object put_balance
  self_destruct st a =
      let (o, st') = get_state_object st a in
      elim o [
        | none ↦ st'
        | some x ↦
            set_state_object (append (suicide_change a x.suicided x.data_of.balance) st') a
              (put_balance (pos 0) (record x { suicided = true }))
      ]

  -- `Selfdestruct6780`
  unfoldable pub self_destruct_6780 : State → ℕ → State
  unfolding get_state_object self_destruct
  self_destruct_6780 st a =
      let (o, st') = get_state_object st a in
      elim o [ none ↦ st' | some x ↦ if x.suicided then st' else self_destruct st' a ]

  -- `AddRefund`, and `SubRefund` with its panic.
  unfoldable pub add_refund : State → ℕ → State
  unfolding append
  add_refund st gas = record (append (refund_change st.refund) st) {
    refund = (st.refund + gas) % u64;
  }

  unfoldable pub sub_refund : State → ℕ → Option State
  unfolding append
  sub_refund st gas =
      if ltb st.refund gas
      then none
      else some (record (append (refund_change st.refund) st) { refund = st.refund - gas })

  unfoldable pub add_log : State → ℕ → State
  unfolding append
  add_log st content =
      let log : Log = record { content = content; tx_hash = st.thash; index = st.log_size } in
      record (append (add_log_change st.thash) st) {
        logs = update st.logs st.thash (st.logs st.thash ++ (log ∷ []));
        log_size = st.log_size + 1;
      }

  unfoldable pub add_preimage : State → ℕ → List ℕ → State
  unfolding append
  add_preimage st hash preimage = elim (st.preimages hash) [
    | some _ ↦ st
    | none ↦ record (append (add_preimage_change hash) st) {
      preimages = update st.preimages hash (some preimage);
    }
  ]

  unfoldable pub set_transient_state : State → ℕ → ℕ → ℕ → State
  unfolding append
  set_transient_state st a key value =
      if st.transient a key == value
      then st
      else record (append (transient_storage_change a key (st.transient a key)) st) {
        transient = update st.transient a (update (st.transient a) key value);
      }
