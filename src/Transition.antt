-- ===== src/Transition.antt =====
-- core/transition.go: one transaction, from the checks and the purchase of its gas to the refund. The
-- text that goes to the terminal is left out. Errors stand for their texts.
pub mod Gas
pub mod Checks
pub mod Refund
pub mod Transfer
use pangu.Prelude.{
  ℕ, ◌+◌, ◌-◌, ◌*◌, ◌/◌, ◌%◌, ◌^◌, Bool, true, false, not, ◌&&◌, ◌||◌, Option, none, some, List, [],
  ◌∷◌, ltb, leb, ◌==◌, if◌then◌else◌, length,
}
use pangu.Prelude.Int.{pos, ltb_ℤ}
use pangu.AccessList.{AccessList, access_list_len, storage_keys}
use pangu.World.{State, add_balance, sub_balance, set_nonce}
use pangu.Evm
use pangu.Evm.{Error, Outcome, Machine, u64, can_transfer, call, create}

-- `TxMessage` of core/process_types.go. `none` of the access list is a nil pointer.
pub record TxMessage : Type 0 where
  pub to : Option ℕ
  pub from : ℕ
  pub nonce : ℕ
  pub value : ℕ
  pub gas_limit : ℕ
  pub gas_price : ℕ
  pub gas_fee_cap : ℕ
  pub gas_tip_cap : ℕ
  pub payload : List ℕ
  pub access_list : Option AccessList
  pub is_parallel : Bool
  pub can_parallel : Bool

-- `msg.To == nil`
unfoldable pub is_creation : TxMessage → Bool
is_creation msg = elim msg.to [ none ↦ true | some _ ↦ false ]

-- `ExecutionResult`; the access list in it is always nil. Where `panicked` is set `ApplyTransaction` does
-- not return, and the rest means nothing.
pub record ExecutionResult : Type 0 where
  pub used_gas : ℕ
  pub err : Option Error
  pub return_data : List ℕ
  pub is_parallel_error : Bool
  pub panicked : Bool

-- The block of `evmEvent.Context`.
pub record Block : Type 0 where
  pub coinbase : ℕ
  pub base_fee : ℕ

abbrev pub max_u64 : ℕ
max_u64 = 2 ^ 64 - 1

unfoldable pub to_word_size : ℕ → ℕ
to_word_size size = if ltb (max_u64 - 31) size then max_u64 / 32 + 1 else (size + 31) / 32

-- The count of the bytes that are not zero.
unfoldable pub non_zero : List ℕ → ℕ
non_zero [] = 0
non_zero (b ∷ bytes) = if b == 0 then non_zero bytes else non_zero bytes + 1

-- `params.TxGas`, `TxGasContractCreation` and the prices per byte, per word and per entry.
abbrev pub base_gas : Bool → ℕ
base_gas true = 53000
base_gas false = 21000

-- `gas` and the price of an access list that is there.
unfoldable pub access_list_gas : AccessList → ℕ → ℕ
unfolding access_list_len storage_keys
access_list_gas al gas =
    ((gas + (access_list_len al * 2400) % u64) % u64 + (storage_keys al * 1900) % u64) % u64

-- `gas`, or `none` for "gas uint64 overflow": the part on the data.
unfoldable pub data_gas : List ℕ → Bool → Option ℕ
unfolding non_zero to_word_size
data_gas bytes creation =
    let gas = base_gas creation in
    let nz = non_zero bytes in
    let z = length bytes - nz in
    let words = to_word_size (length bytes) in
    if length bytes == 0
    then some gas
    else if ltb ((max_u64 - gas) / 68) nz
    then none
    else if ltb ((max_u64 - (gas + nz * 68)) / 4) z
    then none
    else if not creation
    then some (gas + nz * 68 + z * 4)
    else if ltb ((max_u64 - (gas + nz * 68 + z * 4)) / 2) words
    then none
    else some (gas + nz * 68 + z * 4 + words * 2)

-- `IntrinsicGas`: its error, the panic at a nil access list, or the gas.
pub data Intrinsic : Type 0 where
  overflow nil_list : Intrinsic
  units : ℕ → Intrinsic

unfoldable pub intrinsic_gas : List ℕ → Option AccessList → Bool → Intrinsic
unfolding data_gas access_list_gas
intrinsic_gas bytes al creation = elim (data_gas bytes creation) [
  | none ↦ overflow
  | some gas ↦ elim al [ none ↦ nil_list | some l ↦ units (access_list_gas l gas) ]
]

-- `BuyGas`: gas limit times price, and the value.
unfoldable pub buy_gas : TxMessage → State → Option Error × State
unfolding sub_balance
buy_gas msg st =
    let want = msg.gas_limit * msg.gas_price + msg.value in
    if ltb_ℤ (st.balance msg.from) (pos want)
    then (some Evm.insufficient_funds, st)
    else (none, sub_balance st msg.from (pos want))

-- The checks on the fees, made if one of the caps is not zero. A bit length over 256 is a number of
-- at least 2 ^ 256.
unfoldable pub fee_error : TxMessage → Block → Option Error
fee_error msg block =
    if msg.gas_fee_cap == 0 && msg.gas_tip_cap == 0
    then none
    else if leb (2 ^ 256) msg.gas_fee_cap
    then some Evm.fee_cap_very_high
    else if leb (2 ^ 256) msg.gas_tip_cap
    then some Evm.tip_very_high
    else if ltb msg.gas_fee_cap msg.gas_tip_cap
    then some Evm.tip_above_fee_cap
    else if ltb msg.gas_fee_cap block.base_fee
    then some Evm.fee_cap_too_low
    else none

-- The checks of the nonce and of the sender's code.
unfoldable pub sender_error : ℕ → TxMessage → State → Option Error
sender_error empty_code_hash msg st =
    let n = st.nonce msg.from in
    let hash = st.code_hash msg.from in
    if ltb n msg.nonce
    then some Evm.nonce_too_high
    else if ltb msg.nonce n
    then some Evm.nonce_too_low
    else if ltb ((n + 1) % u64) n
    then some Evm.nonce_max
    else if not (hash == 0) && not (hash == empty_code_hash)
    then some Evm.sender_no_eoa
    else none

unfoldable pub pre_check : ℕ → TxMessage → Block → State → Option Error × State
unfolding sender_error fee_error buy_gas
pre_check empty_code_hash msg block st = elim (sender_error empty_code_hash msg st) [
  | some e ↦ (some e, st)
  | none ↦ elim (fee_error msg block) [ some e ↦ (some e, st) | none ↦ buy_gas msg st ]
]

-- `RefundGas`, with `uint64` arithmetic.
unfoldable pub refund_gas : ℕ → ℕ → State → TxMessage → State
unfolding add_balance
refund_gas gas_used gas_remain st msg =
    let capped = if ltb st.refund (gas_used / 2) then st.refund else gas_used / 2 in
    add_balance st msg.from (pos (((gas_remain + capped) % u64) * msg.gas_price))

unfoldable pub result : ℕ → Option Error → List ℕ → Bool → ExecutionResult
result used err bytes parallel = record {
  used_gas = used;
  err = err;
  return_data = bytes;
  is_parallel_error = parallel;
  panicked = false;
}

-- What stands for a panic.
abbrev pub crashed : ExecutionResult
crashed = record {
  used_gas = 0;
  err = none;
  return_data = [];
  is_parallel_error = false;
  panicked = true;
}

module _ (m : Machine) where
  -- `Create`, or the nonce and `Call`.
  unfoldable pub execute : TxMessage → ℕ → State → Outcome
  unfolding call create set_nonce
  execute msg gas st = elim msg.to [
    | none ↦ create m 0 st msg.from msg.payload gas msg.value msg.is_parallel
    | some to ↦
        call m 0 (set_nonce st msg.from ((st.nonce msg.from + 1) % u64)) msg.from to msg.payload gas
          msg.value msg.is_parallel
  ]

  -- What follows the execution; `snapshot` was taken first of all, `before` is the gas that was left
  -- for the execution.
  unfoldable pub settle : TxMessage → Block → State → ℕ → ℕ → Outcome → ExecutionResult × State
  unfolding refund_gas add_balance result
  settle msg block snapshot base before o = if o.panicked then (crashed, snapshot) else elim o.err [
    | some e ↦ (
      result ((base + before) % u64) (some e) [] false,
      add_balance o.state block.coinbase (pos (((base + before) % u64) * msg.gas_tip_cap)),
    )
    | none ↦
        let used = ((base + before) % u64 + u64 - o.gas_remain) % u64 in
        if msg.is_parallel && not o.can_parallel then (result 0 none [] true, snapshot) else (
          result used none o.ret false,
          add_balance (refund_gas used o.gas_remain o.state msg) block.coinbase
              (pos (used * msg.gas_tip_cap)),
        )
  ]

  -- `ApplyTransaction`, on the state that it is called with, after `PreCheck` let it through.
  unfoldable pub apply_bought : TxMessage → Block → State → State → ExecutionResult × State
  apply_bought msg block snapshot st =
      elim (intrinsic_gas msg.payload msg.access_list (is_creation msg)) [
        | overflow ↦ (result 0 (some Evm.gas_uint64_overflow) [] false, st)
        | nil_list ↦ (crashed, st)
        | units base ↦
            if ltb msg.gas_limit base
            then (result 0 (some Evm.intrinsic_gas) [] false, st)
            else if not (msg.value == 0) && not (can_transfer st msg.from msg.value)
            then (result 0 (some Evm.insufficient_funds_for_transfer) [] false, st)
            else if is_creation msg && ltb 49152 (length msg.payload)
            then (result 0 (some Evm.max_init_code_size_exceeded) [] false, st)
            else settle msg block snapshot base (msg.gas_limit - base)
                (execute msg (msg.gas_limit - base) st)
      ]

  unfoldable pub apply_transaction : TxMessage → Block → State → ExecutionResult × State
  apply_transaction msg block st =
      let (err, bought) = pre_check m.empty_code_hash msg block st in
      elim err [
        | some e ↦ (result 0 (some e) [] false, bought)
        | none ↦ apply_bought msg block st bought
      ]
