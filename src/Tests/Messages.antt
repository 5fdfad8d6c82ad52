-- ===== src/Tests/Messages.antt =====
-- One message that pays 10 units from sender 1 to account 2, and machines to run it.
use pangu.Prelude.{
  ℕ, ◌+◌, ◌*◌, ◌^◌, ◌≡◌, ◌≢◌, ◌↔◌, ◌≤◌, ◌<◌, ◌==◌, inr, refl, Bool, true, false, List, [], ◌∷◌,
  Option, none, some, arith, map, if◌then◌else◌,
}
use pangu.Prelude.Int.{pos, ◌+ℤ◌, ◌-ℤ◌}
use pangu.World.{State, sub_balance}
use pangu.AccessList.{AccessList}
use pangu.Evm.{Error, Outcome, Contract, Machine, u64, call, create}
use pangu.Evm.Call.{KeepsGas, call_failed}
use pangu.Transition.{
  TxMessage, is_creation, ExecutionResult, Block, max_u64, data_gas, intrinsic_gas, units,
  pre_check, apply_transaction,
}
use pangu.Transition.Checks.{price_of, Passes, pre_check_iff}
use pangu.Transition.Refund.{IsShort, apply_parallel, apply_gas, apply_unrefunded}
use pangu.Transition.Transfer.{Plain, given_back, apply-Plain}
use pangu.Message.{Transaction}
use pangu.Message.Drift.{messages, tips, drifted, messages-drifted}

-- Contracts run without using gas; they say that they could run in parallel.
abbrev quiet : Machine
quiet = record {
  run = λ c input p st. record {
    ret = [];
    gas_remain = c.gas;
    can_parallel = true;
    err = none;
    panicked = false;
    state = st;
  };
  precompile = λ a. none;
  keccak256 = λ code. 1;
  create_address = λ a n. 1000 + a + n;
  empty_code_hash = 1;
}

-- Contracts that cannot run in parallel.
abbrev conflicting : Machine
conflicting = record quiet {
  run = λ c input p st. record {
    ret = [];
    gas_remain = c.gas;
    can_parallel = false;
    err = none;
    panicked = false;
    state = st;
  };
}

abbrev rich : State
rich = record {
  balance = λ a. pos 1000000;
  nonce = λ a. 0;
  code_hash = λ a. 1;
  code = λ a. if a == 3 then 96 ∷ [] else [];
  storage = λ a k. 0;
  exist = λ a. true;
  refund = 0;
}

abbrev block_one : Block
block_one = record { coinbase = 99; base_fee = 2 }

abbrev no_accesses : AccessList
no_accesses = record { addresses = []; slots = [] }

abbrev pay : ℕ → ℕ → Bool → TxMessage
pay to gas is_parallel = record {
  to = some to;
  from = 1;
  nonce = 0;
  value = 10;
  gas_limit = gas;
  gas_price = 3;
  gas_fee_cap = 5;
  gas_tip_cap = 1;
  payload = [];
  access_list = some no_accesses;
  is_parallel = is_parallel;
  can_parallel = is_parallel;
}

quiet-KeepsGas : KeepsGas quiet
quiet-KeepsGas = record {
  run_gas = λ c input p st. omega arith;
  precompile_gas = λ a p input gas e. cc;
}

abbrev RichIsKnown : Type 0
RichIsKnown = rich.nonce 1 < 2 ^ 64

rich_known : RichIsKnown
rich_known = omega arith

pay-Passes : (gas : ℕ) → (gas ≤ 30000) → Passes 1 (pay 2 gas true) block_one rich
unfolding price_of
pay-Passes gas h = record {
  right_nonce = refl;
  not_last = omega arith;
  no_code = inr refl;
  fees = inr (omega arith, omega arith, omega arith);
  funds = omega arith;
}

plain_gas : intrinsic_gas [] (some no_accesses) false ≡ units 21000
unfolding intrinsic_gas data_gas pangu.Transition.access_list_gas pangu.AccessList.access_list_len
    pangu.AccessList.storage_keys
plain_gas = refl

-- The gas limit is below the intrinsic gas.
low_gas : IsShort 100 (
    intrinsic_gas
      (pay 2 100 true).payload
      (pay 2 100 true).access_list
      (is_creation (pay 2 100 true)))
unfolding is_creation
low_gas = let g = plain_gas in rw (g, IsShort) (omega arith)

pay-Plain : Plain quiet (pay 2 30000 true) block_one rich 2 21000
unfolding price_of ◌-ℤ◌
pay-Plain = record {
  recipient = refl;
  no_precompile = refl;
  no_code = refl;
  exists = refl;
  known_nonce = rich_known;
  passes = pay-Passes 30000 (omega arith);
  gas = plain_gas;
  enough_gas = omega arith;
  funds_after = omega arith;
  limit = omega arith;
  from-ne-to = λ e. omega arith;
  from-ne-coinbase = λ e. omega arith;
  to-ne-coinbase = λ e. omega arith;
}

refused_in_parallel :
    (apply_transaction conflicting (pay 3 30000 true) block_one rich).0.is_parallel_error ≡ true
unfolding apply_transaction pre_check pangu.Transition.apply_bought intrinsic_gas is_creation
    pangu.Evm.can_transfer ◌-ℤ◌ pangu.Transition.settle pangu.Transition.execute
refused_in_parallel = refl

pre_check_iff_example :
    (((pre_check 1 (pay 2 30000 true) block_one rich).0 ≡ none)
      ↔ Passes 1 (pay 2 30000 true) block_one rich)
    × ((pre_check 1 (pay 2 30000 true) block_one rich).1
        ≡ elim (pre_check 1 (pay 2 30000 true) block_one rich).0 [
          | none ↦ sub_balance rich 1 (pos (price_of (pay 2 30000 true)))
          | some _ ↦ rich
        ])
pre_check_iff_example = pre_check_iff 1 (pay 2 30000 true) block_one rich rich_known

apply_parallel_example : (apply_transaction conflicting (pay 3 30000 true) block_one rich).1 ≡ rich
apply_parallel_example =
    apply_parallel conflicting (pay 3 30000 true) block_one rich refused_in_parallel

apply_gas_example : (apply_transaction quiet (pay 3 30000 true) block_one rich).0.used_gas ≤ 30000
apply_gas_example = apply_gas quiet (pay 3 30000 true) block_one quiet-KeepsGas rich (omega arith)

apply_unrefunded_example :
    ((apply_transaction quiet (pay 2 100 true) block_one rich).0.used_gas ≡ 0)
    × ((apply_transaction quiet (pay 2 100 true) block_one rich).0.err ≢ none)
    × ((apply_transaction quiet (pay 2 100 true) block_one rich).1
        ≡ sub_balance rich 1 (pos (price_of (pay 2 100 true))))
apply_unrefunded_example =
    apply_unrefunded quiet (pay 2 100 true) block_one rich rich_known (pay-Passes 100 (omega arith))
      low_gas

apply-Plain_example :
    ((apply_transaction quiet (pay 2 30000 true) block_one rich).0.err ≡ none)
    × ((apply_transaction quiet (pay 2 30000 true) block_one rich).0.panicked ≡ false)
    × ((apply_transaction quiet (pay 2 30000 true) block_one rich).1.balance 2
        ≡ rich.balance 2 +ℤ pos 10)
    × ((apply_transaction quiet (pay 2 30000 true) block_one rich).1.balance 1
        ≡ rich.balance 1
          -ℤ pos (30000 * 3 + 10)
          -ℤ pos 10
          +ℤ pos (given_back quiet (pay 2 30000 true) block_one rich 2 21000))
apply-Plain_example = apply-Plain quiet (pay 2 30000 true) block_one rich 2 21000 pay-Plain

too_deep : (call quiet 1025 rich 1 2 [] 500 10 true).err ≡ some Error.depth
unfolding call
too_deep = refl

call_failed_example : (call quiet 1025 rich 1 2 [] 500 10 true).state ≡ rich
call_failed_example = call_failed quiet 1025 rich 1 2 [] 500 10 true Error.depth too_deep

abbrev sent : ℕ → Transaction
sent h = record {
  hash = h;
  to = some 2;
  nonce = 0;
  value = 10;
  gas_limit = 30000;
  fee_cap = 9;
  tip_cap = h;
  payload = [];
  access_list = none;
}

abbrev signer_one : Transaction → Option ℕ
signer_one tx = some 1

messages-drifted_example :
    (ms : List TxMessage) × (messages signer_one true (sent 1 ∷ sent 2 ∷ []) (some 3)
      ≡ some (ms, some (3 + 2 * tips signer_one true (sent 1 ∷ sent 2 ∷ []))))
    × (map (λ m. m.gas_price) ms ≡ drifted signer_one true 3 (sent 1 ∷ sent 2 ∷ []))
messages-drifted_example = messages-drifted signer_one true (sent 1 ∷ sent 2 ∷ []) 3
