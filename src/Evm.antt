-- ===== src/Evm.antt =====
-- core/evm/evm.go and core/pvm.go: `Call` and `create`, with the transfers of core/pvm.go. The
-- interpreter, the precompiled contracts, the hash and the address of a new contract are parameters.
-- An amount of a message is a natural number, as its encoding has no sign.
pub mod Call
use pangu.Prelude.{
  ℕ, ◌+◌, ◌-◌, ◌*◌, ◌%◌, ◌^◌, Bool, true, false, not, ◌&&◌, ◌||◌, Option, none, some, List, [], ◌∷◌,
  ltb, ◌==◌, if◌then◌else◌, length,
}
use pangu.Prelude.Int.{pos, ltb_ℤ}
use pangu.World.{State, add_balance, sub_balance, set_nonce, set_code, create_account}

pub data Error : Type 0 where
  nonce_too_high nonce_too_low nonce_max sender_no_eoa : Error
  fee_cap_very_high tip_very_high tip_above_fee_cap fee_cap_too_low : Error
  insufficient_funds gas_uint64_overflow intrinsic_gas : Error
  insufficient_funds_for_transfer max_init_code_size_exceeded : Error
  depth insufficient_balance no_contract_address nonce_uint64_overflow : Error
  contract_address_collision max_code_size_exceeded code_store_out_of_gas : Error
  execution : ℕ → Error

-- `ret, GasRemain, CanParallel, err`, and the state after. Where `panicked` is set the run did not come
-- to an end, and the rest means nothing.
pub record Outcome : Type 0 where
  pub ret : List ℕ
  pub gas_remain : ℕ
  pub can_parallel : Bool
  pub err : Option Error
  pub panicked : Bool
  pub state : State

-- What a contract is run with.
pub record Contract : Type 0 where
  pub caller : ℕ
  pub self : ℕ
  pub value : ℕ
  pub gas : ℕ
  pub code : List ℕ

pub record Machine : Type 0 where
  -- `evm.interpreter.Run(contract, input, false, TrueAccessList, IsParallel)`. `TrueAccessList` is nil in
  -- every call (core/transition.go declares it and never sets it). The interpreter dereferences it where a
  -- run that is not parallel records an access, and calls the nil `execute` of CREATE and CREATE2 in a
  -- parallel run: it sets `panicked` then.
  pub run : Contract → List ℕ → Bool → State → Outcome
  -- `evm.precompile`, and `RunPrecompiledContract` of what it found: the result, the gas, the error
  pub precompile : ℕ → Option (List ℕ → ℕ → List ℕ × ℕ × Option Error)
  pub keccak256 : List ℕ → ℕ
  pub create_address : ℕ → ℕ → ℕ
  pub empty_code_hash : ℕ

-- `CanTransfer` and `Transfer` of core/pvm.go.
unfoldable pub can_transfer : State → ℕ → ℕ → Bool
can_transfer st a amount = not (ltb_ℤ (st.balance a) (pos amount))

unfoldable pub transfer : State → ℕ → ℕ → ℕ → State
unfolding add_balance sub_balance
transfer st sender recipient amount =
    add_balance (sub_balance st sender (pos amount)) recipient (pos amount)

abbrev pub call_create_depth : ℕ
call_create_depth = 1024

abbrev pub max_code_size : ℕ
max_code_size = 24576

abbrev pub create_data_gas : ℕ
create_data_gas = 200

abbrev pub u64 : ℕ
u64 = 2 ^ 64

unfoldable pub failed : ℕ → Error → State → Outcome
failed gas e st = record {
  ret = [];
  gas_remain = gas;
  can_parallel = true;
  err = some e;
  panicked = false;
  state = st;
}

unfoldable pub or_revert : State → Outcome → Outcome
or_revert snapshot o = elim o.err [ none ↦ o | some e ↦ record o { state = snapshot } ]

module _ (m : Machine) where
  -- The part of `Call` after the transfer; `CanParallel` is the named result, false until it is set.
  unfoldable pub call_code : State → State → ℕ → ℕ → List ℕ → ℕ → ℕ → Bool → Outcome
  unfolding or_revert
  call_code snapshot st caller addr input gas value is_parallel = elim (m.precompile addr) [
    | some p ↦
        let (ret, left, err) = p input gas in
        or_revert snapshot (record {
          ret = ret;
          gas_remain = left;
          can_parallel = false;
          err = err;
          panicked = false;
          state = st;
        })
    | none ↦ elim (st.code addr) [
      | [] ↦ record {
        ret = [];
        gas_remain = gas;
        can_parallel = true;
        err = none;
        panicked = false;
        state = st;
      }
      | _ ∷ _ ↦ or_revert snapshot (
          m.run
            (record { caller = caller; self = addr; value = value; gas = gas; code = st.code addr })
            input is_parallel st)
    ]
  ]

  unfoldable pub is_precompile : ℕ → Bool
  is_precompile addr = elim (m.precompile addr) [ none ↦ false | some _ ↦ true ]

  unfoldable pub call : ℕ → State → ℕ → ℕ → List ℕ → ℕ → ℕ → Bool → Outcome
  unfolding can_transfer transfer create_account call_code is_precompile failed
  call evm_depth st caller addr input gas value is_parallel =
      if ltb call_create_depth evm_depth
      then failed gas depth st
      else if not (value == 0) && not (can_transfer st caller value)
      then failed gas insufficient_balance st
      else if st.exist addr
      then call_code st (transfer st caller addr value) caller addr input gas value is_parallel
      else if not (is_precompile addr) && (value == 0)
      then failed gas no_contract_address st
      else let fresh = create_account m.empty_code_hash st addr in
        call_code st (transfer fresh caller addr value) caller addr input gas value is_parallel

  -- The end of `create`, from what the interpreter returned.
  unfoldable pub store_code : State → ℕ → Outcome → Outcome
  unfolding failed set_code
  store_code snapshot address o = if o.panicked then o else elim o.err [
    | some e ↦ record o { state = snapshot }
    | none ↦
        let data_gas = (length o.ret * create_data_gas) % u64 in
        if ltb max_code_size (length o.ret)
        then failed 0 max_code_size_exceeded o.state
        else if ltb o.gas_remain data_gas
        then failed 0 code_store_out_of_gas o.state
        else record o {
          gas_remain = o.gas_remain - data_gas;
          state = set_code o.state address (m.keccak256 o.ret) o.ret;
        }
  ]

  unfoldable pub create : ℕ → State → ℕ → List ℕ → ℕ → ℕ → Bool → Outcome
  unfolding can_transfer transfer create_account set_nonce failed store_code
  create evm_depth st caller code gas value is_parallel =
      let address = m.create_address caller (st.nonce caller) in
      let nonce = st.nonce caller in
      let bumped = set_nonce st caller (nonce + 1) in
      let hash = bumped.code_hash address in
      if ltb call_create_depth evm_depth
      then failed gas depth st
      else if not (can_transfer st caller value)
      then failed gas insufficient_balance st
      else if ltb ((nonce + 1) % u64) nonce
      then failed gas nonce_uint64_overflow st
      else if not (bumped.nonce address == 0)
          || (not (hash == 0) && not (hash == m.empty_code_hash))
      then failed gas contract_address_collision bumped
      else let fresh = create_account m.empty_code_hash bumped address in
        let paid = transfer fresh caller address value in
        store_code bumped address (
          m.run (record { caller = caller; self = address; value = value; gas = gas; code = code })
            [] is_parallel paid)
