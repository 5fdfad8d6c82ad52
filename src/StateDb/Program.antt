-- ===== src/StateDb/Program.antt =====
-- core/state/statedb.go as its users run it: the methods in any order, with the frames of the EVM between
-- `Snapshot` and `RevertToSnapshot` nested among them.
use pangu.Prelude.{ℕ, Bool, true, false, Option, some, List, ◌&&◌, if◌then◌else◌, ◌>>=◌}
use pangu.Prelude.Int.{ℤ}
use pangu.StateObject.{Database}
use pangu.StateDb.{
  State, create_account, add_balance, sub_balance, set_balance, set_nonce, set_code, set_state,
  self_destruct, add_refund, sub_refund, add_log, add_preimage, set_transient_state,
}
use pangu.StateDb.Journal.{
  add_address_to_access_list, add_slot_to_access_list, get_state, get_code, snapshot,
  revert_to_snapshot,
}

-- Methods of the state that its users call. Finalise, Prepare, SetStorage, SetTxContext and
-- Selfdestruct6780, which no frame may hold or which the journal does not record in full, are not among
-- them.
pub data Op : Type 0 where
  create_account_op : ℕ → Op
  add_balance_op : ℕ → ℤ → Op
  sub_balance_op : ℕ → ℤ → Op
  set_balance_op : ℕ → ℤ → Op
  set_nonce_op : ℕ → ℕ → Op
  set_code_op : ℕ → List ℕ → Op
  set_state_op : ℕ → ℕ → ℕ → Op
  self_destruct_op : ℕ → Op
  add_refund_op : ℕ → Op
  sub_refund_op : ℕ → Op
  add_log_op : ℕ → Op
  add_preimage_op : ℕ → List ℕ → Op
  set_transient_state_op : ℕ → ℕ → ℕ → Op
  add_address_op : ℕ → Op
  add_slot_op : ℕ → ℕ → Op
  get_state_op : ℕ → ℕ → Op
  get_code_op : ℕ → Op

-- A run of the methods; a frame takes a snapshot, runs, and goes back to it if it fails.
pub data Program : Type 0 where
  stop : Program
  step : Op → Program → Program
  frame : Program → Bool → Program → Program

-- `SubRefund` is the one method that can panic.
abbrev pub spares_op : Op → Bool
spares_op (sub_refund_op g) = false
spares_op o = true

abbrev pub spares_refund : Program → Bool
spares_refund stop = true
spares_refund (step o p) = spares_op o && spares_refund p
spares_refund (frame q fails p) = spares_refund q && spares_refund p

module _ (db : Database) where
  unfoldable pub run_op : Op → State → Option State
  run_op (create_account_op a) st = some (create_account db st a)
  run_op (add_balance_op a x) st = some (add_balance db st a x)
  run_op (sub_balance_op a x) st = some (sub_balance db st a x)
  run_op (set_balance_op a x) st = some (set_balance db st a x)
  run_op (set_nonce_op a n) st = some (set_nonce db st a n)
  run_op (set_code_op a c) st = some (set_code db st a c)
  run_op (set_state_op a k v) st = some (set_state db st a k v)
  run_op (self_destruct_op a) st = some (self_destruct db st a)
  run_op (add_refund_op g) st = some (add_refund db st g)
  run_op (sub_refund_op g) st = sub_refund db st g
  run_op (add_log_op c) st = some (add_log db st c)
  run_op (add_preimage_op h p) st = some (add_preimage db st h p)
  run_op (set_transient_state_op a k v) st = some (set_transient_state db st a k v)
  run_op (add_address_op a) st = some (add_address_to_access_list st a)
  run_op (add_slot_op a s) st = add_slot_to_access_list st a s
  run_op (get_state_op a k) st = some (get_state db st a k).1
  run_op (get_code_op a) st = some (get_code db st a).1

  unfoldable pub run : Program → State → Option State
  unfolding run_op snapshot revert_to_snapshot
  run stop st = some st
  run (step op p) st = run_op op st >>= run p
  run (frame q fails p) st =
      let (id, u) = snapshot db st in
      run q u >>= λ v. (if fails then revert_to_snapshot db id v else some v) >>= run p
