-- ===== src/Tests/Threads.antt =====
-- A thread with a transaction that cannot run in parallel, and a block with two groups.
use pangu.Prelude.{
  ℕ, ◌+◌, ◌%◌, ◌≡◌, refl, true, false, List, [], ◌∷◌, Option, none, some, arith, map, Returns, All,
}
use pangu.Prelude.Int.{pos}
use pangu.World.{State}
use pangu.Evm.{Machine, u64}
use pangu.Transition.{Block}
use pangu.Message.{Transaction}
use pangu.AccessList.{AccessList}
use pangu.Thread.{Shared, tx_thread}
use pangu.Thread.Calm.{IsCalm, IsListed, IsListed-IsCalm}
use pangu.Thread.Transfers.{IsTransfer, HasNoCode, IsTransfer-IsCalm}
use pangu.Thread.Account.{count_txs, count_receipts, count_errors, sum_gas, tx_thread-count}
use pangu.Thread.Serial.{tx_thread-serial, tx_thread-gas}
use pangu.Thread.Process.{process, Settles, process-count}

-- The code of account 3 cannot run in parallel.
abbrev pub cautious : Machine
cautious = record {
  run = λ c input p st. record {
    ret = [];
    gas_remain = c.gas;
    can_parallel = false;
    err = none;
    panicked = false;
    state = st;
  };
  precompile = λ a. none;
  keccak256 = λ code. 1;
  create_address = λ a n. 1000 + a + n;
  empty_code_hash = 1;
}

abbrev pub start : Shared
start = record {
  state = record {
    balance = λ a. pos 1000000;
    nonce = λ a. 0;
    code_hash = λ a. 1;
    code = λ a. 96 ∷ [];
    storage = λ a k. 0;
    exist = λ a. true;
    refund = 0;
  };
  base_fee = some 2;
  used_gas = 0;
}

abbrev block_two : Block
block_two = record { coinbase = 99; base_fee = 2 }

abbrev pub from_one : Transaction → Option ℕ
from_one tx = some 1

abbrev no_accesses : AccessList
no_accesses = record { addresses = []; slots = [] }

abbrev numbered : ℕ → Transaction
numbered n = record {
  hash = 100 + n;
  to = some 3;
  nonce = n;
  value = 10;
  gas_limit = 30000;
  fee_cap = 9;
  tip_cap = 1;
  payload = [];
  access_list = some no_accesses;
}

abbrev in_order : List Transaction → List Transaction
in_order txs = txs

abbrev as_is : State → State
as_is st = st

abbrev root_seven : State → Option ℕ
root_seven st = some 7

cautious-IsCalm : IsCalm cautious from_one block_two IsListed (λ st. Unit)
cautious-IsCalm = IsListed-IsCalm cautious from_one block_two (λ c input p st. refl)

both-IsListed : All IsListed (numbered 0 ∷ numbered 1 ∷ [])
both-IsListed = ((no_accesses, refl), ((no_accesses, refl), tt))

both-IsTransfer : All IsTransfer (numbered 0 ∷ numbered 1 ∷ [])
both-IsTransfer = (((no_accesses, refl), (3, refl)), (((no_accesses, refl), (3, refl)), tt))

-- A state in which no account has code.
abbrev codeless : Shared
codeless = record start { state = record start.state { code = λ a. [] } }

IsTransfer-IsCalm_example : IsCalm cautious from_one block_two IsTransfer HasNoCode
IsTransfer-IsCalm_example = IsTransfer-IsCalm cautious from_one block_two

tx_thread-count_example :
    Returns
      (λ r.
        (count_receipts 101 r.0.new_receipt
            + count_txs 101 r.0.tx_serial
            + count_errors 101 r.0.tx_error
          ≡ count_txs 101 (numbered 0 ∷ numbered 1 ∷ []))
        × ((f : ℕ) × (r.1.base_fee ≡ some f))
        × Unit {0}
        × All IsListed r.0.tx_serial)
      (tx_thread cautious from_one block_two true none (numbered 0 ∷ numbered 1 ∷ []) start)
tx_thread-count_example =
    tx_thread-count cautious from_one block_two true IsListed (λ st. Unit) cautious-IsCalm 101
      (numbered 0 ∷ numbered 1 ∷ []) none start 2 refl both-IsListed tt

tx_thread-serial_example :
    Returns
      (λ r.
        (r.0.tx_serial ≡ [])
        × (map (λ t. t.hash) r.0.tx_access_list ≡ map (λ r. r.tx_hash) r.0.new_receipt))
      (tx_thread cautious from_one block_two false none (numbered 0 ∷ numbered 1 ∷ []) start)
tx_thread-serial_example =
    tx_thread-serial cautious from_one block_two IsListed (λ st. Unit) cautious-IsCalm
      (numbered 0 ∷ numbered 1 ∷ []) start 2 refl both-IsListed tt

tx_thread-gas_example :
    Returns
      (λ r. r.1.used_gas ≡ (0 + sum_gas r.0.new_receipt) % u64)
      (tx_thread cautious from_one block_two false none (numbered 0 ∷ numbered 1 ∷ []) codeless)
tx_thread-gas_example =
    tx_thread-gas cautious from_one block_two IsTransfer HasNoCode
      (IsTransfer-IsCalm cautious from_one block_two) false (numbered 0 ∷ numbered 1 ∷ []) none
      codeless 2 refl (omega arith) both-IsTransfer (λ a. refl)

process-count_example : Returns (Settles 101 ((numbered 0 ∷ []) ∷ (numbered 1 ∷ []) ∷ [])) (
    process cautious from_one block_two in_order as_is root_seven
      ((numbered 0 ∷ []) ∷ (numbered 1 ∷ []) ∷ [])
      start)
process-count_example =
    process-count cautious from_one block_two in_order as_is root_seven IsListed (λ st. Unit)
      cautious-IsCalm 101 (λ txs. refl) (λ txs fit. fit) (λ st safe. safe) (λ st. (7, refl))
      (numbered 0 ∷ []) ((numbered 1 ∷ []) ∷ []) start 2 refl
      ((both-IsListed.0, tt), ((both-IsListed.1.0, tt), tt)) tt
