-- ===== src/Tests/Pool.antt =====
-- A list with two transactions of one account, and an account that can pay for more.
use pangu.Prelude.{
  Returns, lookup, delete, false, Option, ◌+◌, ◌*◌, ◌≤◌, ℕ, ◌≡◌, ◌==◌, refl, true, none, some, [],
  ◌∷◌, if◌then◌else◌,
}
use pangu.Prelude.Int.{pos, ◌≤ℤ◌, ◌+ℤ◌, ◌-ℤ◌}
use pangu.Message.{Transaction}
use pangu.AccessList.{new_access_list}
use pangu.Transition.{data_gas, non_zero}
use pangu.StateObject.{Database}
use pangu.StateDb.{State}
use pangu.StateDb.Reads.{get_balance, get_nonce}
use pangu.Validation.{Received, validate_tx, pool_data_gas}
use pangu.Validation.Accepted.{validate_tx-add_tx, data_gas-pool_data_gas, list_for}
use pangu.TxList.Ready.{ready_list, forward_list}
use pangu.TxList.Ready.Total.{IsSound, IsDistinct, IsIndexed, ready_list-IsSound}
use pangu.TxList.{TxList, add_tx, cost}
use pangu.TxList.Cost.{map_cost}

abbrev pub priced : ℕ → ℕ → Transaction
priced n price = record {
  hash = n;
  to = some 2;
  nonce = n;
  value = 10;
  gas_limit = 21000;
  fee_cap = price;
  tip_cap = price;
  payload = [];
  access_list = none;
}

abbrev pub two_queued : TxList
two_queued = record {
  strict = true;
  txs = record { items = (1, priced 1 3) ∷ (2, priced 2 2) ∷ []; index = 1 ∷ 2 ∷ []; cache = none };
  costcap = 63010;
  gascap = 21000;
  totalcost = pos 105020;
}

pub two_queued-IsSound : IsSound two_queued
unfolding IsDistinct IsIndexed map_cost cost lookup delete
two_queued-IsSound = record {
  total = refl;
  once = (refl, (refl, tt));
  indexed = ((priced 1 3, refl), ((priced 2 2, refl), tt));
  complete = refl;
}

ready_list-IsSound_example :
    Returns (λ r. IsSound r.0) (ready_list two_queued 1)
    × Returns (λ r. IsSound r.0) (forward_list two_queued 2)
ready_list-IsSound_example = ready_list-IsSound two_queued 1 2 two_queued-IsSound

-- An account with 1000000, whose list a third transaction joins.
abbrev pub rich : Database
rich = record {
  account = λ a.
      if a == 10
      then some (record { nonce = 1; balance = pos 1000000; root = 0; code_hash = 0 })
      else none;
  storage = λ a root key. 0;
  contract_code = λ hash. [];
  empty_root = 0;
  empty_code_hash = 0;
  keccak256 = λ code. 5;
}

abbrev pub opened : State
opened = record {
  objects = λ a. none;
  objects_pending = λ a. false;
  objects_dirty = λ a. false;
  objects_destruct = λ a. false;
  refund = 0;
  thash = 0;
  logs = λ h. [];
  log_size = 0;
  preimages = λ h. none;
  access_list = new_access_list;
  transient = λ a key. 0;
  entries = [];
  dirties = λ a. 0;
  valid_revisions = [];
  next_revision_id = 0;
}

abbrev pub by_ten : Transaction → Option ℕ
by_ten tx = some 10

abbrev queues : ℕ → Option TxList
queues a = if a == 10 then some two_queued else none

passed : validate_tx rich by_ten (priced 2 4) opened queues ≡ none
unfolding validate_tx get_nonce get_balance ◌+ℤ◌ ◌-ℤ◌
passed = refl

joined : (add_tx (list_for queues 10) (priced 2 4) 10).1 ≡ true
unfolding add_tx list_for
joined = refl

validate_tx-add_tx_example :
    ((add_tx (list_for queues 10) (priced 2 4) 10).0.totalcost ≤ℤ get_balance rich opened 10)
    × (get_nonce rich opened 10 ≤ (priced 2 4).nonce)
validate_tx-add_tx_example =
    validate_tx-add_tx rich by_ten (priced 2 4) opened queues 10 10 refl passed joined

charged : data_gas (1 ∷ 0 ∷ 2 ∷ []) true ≡ some 53142
unfolding data_gas
charged = refl

data_gas-pool_data_gas_example :
    (asked : ℕ) × (pool_data_gas (1 ∷ 0 ∷ 2 ∷ []) true ≡ some asked)
    × (53142 ≡ asked + 52 * non_zero (1 ∷ 0 ∷ 2 ∷ []) + (if true then 32000 else 0))
data_gas-pool_data_gas_example = data_gas-pool_data_gas (1 ∷ 0 ∷ 2 ∷ []) true 53142 charged

abbrev arrived : ℕ → ℕ → Received
arrived n size = record { tx = priced n 3; tx_type = 1; size = size }
