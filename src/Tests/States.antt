-- ===== src/Tests/States.antt =====
-- A database with two accounts, a state over it, and a program with frames that fail inside it.
use pangu.Prelude.{ℕ, ◌≡◌, refl, true, false, none, some, [], ◌∷◌, if◌then◌else◌, ◌==◌}
use pangu.Prelude.Int.{pos, ◌+ℤ◌}
use pangu.AccessList.{new_access_list}
use pangu.AccessList.Laws.{IsValid, new-IsValid}
use pangu.StateObject.{Database, put_balance, StateAccount}
use pangu.World as World
use pangu.StateDb.{State, get_state_object, self_destruct, add_balance}
use pangu.StateDb.Refine.{started, add_balance-World}
use pangu.StateDb.Journal.{snapshot, revert_to_snapshot}
use pangu.StateDb.Similar.{Similar}
use pangu.StateDb.Program.{
  Program, stop, step, frame, run, create_account_op, add_balance_op, sub_balance_op, set_nonce_op,
  set_code_op, set_state_op, self_destruct_op, add_log_op, add_slot_op, get_code_op,
}
use pangu.StateDb.Revert.{revert_to_snapshot-run, run-returns}
use pangu.StateDb.Reads.{exist, get_balance, get_nonce, get_code_hash}
use pangu.StateDb.Finalise.{finalise}
use pangu.StateDb.Finalise.Closing.{finalise-self_destruct}

abbrev owned : ℕ → StateAccount
owned n = record { nonce = n; balance = pos 1000; root = 7; code_hash = 9 }

abbrev stored : Database
stored = record {
  account = λ a. if a == 10 then some (owned 1) else if a == 20 then some (owned 2) else none;
  storage = λ a root key. key;
  contract_code = λ hash. hash ∷ [];
  empty_root = 0;
  empty_code_hash = 0;
  keccak256 = λ code. 5;
}

abbrev opened : State
opened = record {
  objects = λ a. none;
  objects_pending = λ a. false;
  objects_dirty = λ a. false;
  objects_destruct = λ a. false;
  refund = 4;
  thash = 100;
  logs = λ h. [];
  log_size = 0;
  preimages = λ h. none;
  access_list = new_access_list;
  transient = λ a key. 0;
  entries = [];
  dirties = λ a. 0;
  valid_revisions = [];
  next_revision_id = 0;
}

-- A failed creation within a call that writes to both accounts.
abbrev calls : Program
calls = step (sub_balance_op 10 (pos 30)) (
    frame
      (step (create_account_op 20) (
        step (set_code_op 20 (1 ∷ 2 ∷ []))
          (step (set_state_op 20 3 8) (step (self_destruct_op 10) stop))))
      true
      (step (add_balance_op 30 (pos 30)) (
        step (set_nonce_op 10 2)
          (step (add_log_op 6) (step (add_slot_op 20 3) (step (get_code_op 20) stop))))))

opened-IsValid : IsValid (snapshot stored opened).1.access_list
unfolding snapshot
opened-IsValid = new-IsValid

run-returns_example : (st' : State) × (run stored calls (snapshot stored opened).1 ≡ some st')
run-returns_example = run-returns stored calls (snapshot stored opened).1 opened-IsValid refl

abbrev after : State
after = (run-returns stored calls (snapshot stored opened).1 opened-IsValid refl).0

ran : run stored calls (snapshot stored opened).1 ≡ some after
ran = (run-returns stored calls (snapshot stored opened).1 opened-IsValid refl).1

revert_to_snapshot-run_example :
    (r : State) × (revert_to_snapshot stored (snapshot stored opened).0 after ≡ some r)
    × Similar stored r opened
    × (r.entries ≡ [])
    × (r.valid_revisions ≡ [])
revert_to_snapshot-run_example = revert_to_snapshot-run stored calls opened after new-IsValid ran

abbrev back : State
back = (revert_to_snapshot-run stored calls opened after new-IsValid ran).0

there : exist stored opened 10 ≡ true
unfolding exist
there = refl

finalise-self_destruct_example :
    (exist stored (finalise stored true (self_destruct stored opened 10)) 10 ≡ false)
    × ((finalise stored true (self_destruct stored opened 10)).objects_destruct 10 ≡ true)
finalise-self_destruct_example = finalise-self_destruct stored true opened 10 there

abbrev accounts : World.State
accounts = record {
  balance = get_balance stored opened;
  nonce = get_nonce stored opened;
  code_hash = get_code_hash stored opened;
  code = λ a. [];
  storage = λ a key. 0;
  exist = exist stored opened;
  refund = 4;
}

-- A payment to a new account.
add_balance-World_example :
    ((World.add_balance accounts 30 (pos 5)).balance 30
      ≡ get_balance stored (add_balance stored opened 30 (pos 5)) 30)
    × ((World.add_balance accounts 30 (pos 5)).nonce 30
        ≡ get_nonce stored (add_balance stored opened 30 (pos 5)) 30)
    × ((World.add_balance accounts 30 (pos 5)).exist 30
        ≡ exist stored (add_balance stored opened 30 (pos 5)) 30)
    × ((get_state_object stored (add_balance stored opened 30 (pos 5)) 30).0
        ≡ some (
            put_balance
              (get_balance stored opened 30 +ℤ pos 5)
              (started stored (get_state_object stored opened 30).0)))
add_balance-World_example =
    add_balance-World stored opened 30 (pos 5) accounts 30 (λ c. refl) (λ c. refl) (λ c. refl)
