-- ===== src/Validation.antt =====
-- core/txpool/validation.go, with `IntrinsicGas` of core/types/transaction.go and the options that
-- `validateTxBasics` and `validateTx` of core/txpool/legacypool/legacypool.go give it. The size and the
-- type of a transaction come with it, the sender from the signer, a parameter. A value is not negative.
pub mod Accepted
use pangu.Prelude.{
  ℕ, ◌+◌, ◌-◌, ◌*◌, ◌/◌, ◌%◌, ◌^◌, Bool, true, false, not, ◌&&◌, ◌||◌, Option, none, some, List, [],
  ◌∷◌, ltb, leb, ◌==◌, if◌then◌else◌, length,
}
use pangu.Prelude.Int.{ℤ, pos, ◌+ℤ◌, ◌-ℤ◌, ltb_ℤ}
use pangu.AccessList.{AccessList}
use pangu.Evm.{u64}
use pangu.Transition.{max_u64, to_word_size, non_zero, access_list_gas}
use pangu.Message.{Transaction}
use pangu.StateObject.{Database}
use pangu.StateDb.{State}
use pangu.StateDb.Reads.{get_nonce, get_balance}
use pangu.TxList.{cost, get_tx, TxList}

pub data PoolError : Type 0 where
  tx_type_not_supported : PoolError
  oversized_data : PoolError
  max_init_code_size_exceeded : PoolError
  gas_limit : PoolError
  fee_cap_very_high : PoolError
  tip_very_high : PoolError
  tip_above_fee_cap : PoolError
  invalid_sender : PoolError
  gas_uint_overflow : PoolError
  intrinsic_gas : PoolError
  underpriced : PoolError
  nonce_too_low : PoolError
  nonce_too_high : PoolError
  insufficient_funds : PoolError

-- A transaction as the pool receives it.
pub record Received : Type 0 where
  pub tx : Transaction
  pub tx_type : ℕ
  pub size : ℕ

-- `ValidationOptions`
pub record Options : Type 0 where
  pub accept : ℕ
  pub max_size : ℕ
  pub min_tip : ℕ

abbrev pub pangu_tx_type : ℕ
pangu_tx_type = 1

abbrev pub is_creation_of : Transaction → Bool
is_creation_of tx = elim tx.to [ none ↦ true | some _ ↦ false ]

-- The part of `IntrinsicGas` on the data, or `none` for `ErrGasUintOverflow`.
unfoldable pub pool_data_gas : List ℕ → Bool → Option ℕ
unfolding non_zero to_word_size
pool_data_gas bytes creation =
    let gas : ℕ = 21000 in
    let nz = non_zero bytes in
    let z = length bytes - nz in
    let words = to_word_size (length bytes) in
    if length bytes == 0
    then some gas
    else if ltb ((max_u64 - gas) / 16) nz
    then none
    else if ltb ((max_u64 - (gas + nz * 16)) / 4) z
    then none
    else if not creation
    then some (gas + nz * 16 + z * 4)
    else if ltb ((max_u64 - (gas + nz * 16 + z * 4)) / 2) words
    then none
    else some (gas + nz * 16 + z * 4 + words * 2)

-- `IntrinsicGas`
unfoldable pub pool_intrinsic_gas : Transaction → Option ℕ
unfolding pool_data_gas access_list_gas
pool_intrinsic_gas tx = elim (pool_data_gas tx.payload (is_creation_of tx)) [
  | none ↦ none
  | some gas ↦ elim tx.access_list [ none ↦ some gas | some al ↦ some (access_list_gas al gas) ]
]

-- The end of `ValidateTransaction`, from the intrinsic gas on.
unfoldable pub gas_error : Transaction → Options → Option PoolError
unfolding pool_intrinsic_gas
gas_error tx opts = elim (pool_intrinsic_gas tx) [
  | none ↦ some gas_uint_overflow
  | some gas ↦
      if ltb tx.gas_limit gas
      then some intrinsic_gas
      else if ltb tx.tip_cap opts.min_tip
      then some underpriced
      else none
]

-- `ValidateTransaction` under a block gas limit.
unfoldable pub validate_transaction :
    (Transaction → Option ℕ) → Received → ℕ → Options → Option PoolError
unfolding gas_error
validate_transaction signer r head_gas_limit opts =
    let tx = r.tx in
    if opts.accept / 2 ^ r.tx_type % 2 == 0
    then some tx_type_not_supported
    else if ltb opts.max_size r.size
    then some oversized_data
    else if not (r.tx_type == pangu_tx_type)
    then some tx_type_not_supported
    else if is_creation_of tx && ltb 49152 (length tx.payload)
    then some max_init_code_size_exceeded
    else if ltb head_gas_limit tx.gas_limit
    then some gas_limit
    else if leb (2 ^ 256) tx.fee_cap
    then some fee_cap_very_high
    else if leb (2 ^ 256) tx.tip_cap
    then some tip_very_high
    else if ltb tx.fee_cap tx.tip_cap
    then some tip_above_fee_cap
    else elim (signer tx) [ none ↦ some invalid_sender | some from ↦ gas_error tx opts ]

-- `validateTxBasics`; `txMaxSize` is 128 KiB.
unfoldable pub validate_tx_basics :
    (Transaction → Option ℕ) → Received → ℕ → ℕ → Bool → Option PoolError
unfolding validate_transaction
validate_tx_basics signer r head_gas_limit gas_tip local =
    validate_transaction signer r head_gas_limit (record {
      accept = 2 ^ pangu_tx_type;
      max_size = 131072;
      min_tip = if local then 0 else gas_tip;
    })

-- `ValidationOptionsWithState` without the state.
pub record StateOptions : Type 0 where
  pub first_nonce_gap : Option (ℕ → ℕ)
  pub existing_expenditure : ℕ → ℤ
  pub existing_cost : ℕ → ℕ → Option ℕ

-- Whether the nonce leaves a gap that the pool does not allow.
unfoldable pub is_gapped : Option (ℕ → ℕ) → ℕ → ℕ → Bool
is_gapped none from nonce = false
is_gapped (some gap) from nonce = ltb (gap from) nonce

-- What the sender's transactions in the pool will cost with this one.
unfoldable pub needed : ℤ → Option ℕ → ℕ → ℤ
needed spent (some prev) cost = spent +ℤ (pos cost -ℤ pos prev)
needed spent none cost = spent +ℤ pos cost

module _ (db : Database) where
  -- `ValidateTransactionWithState`; the signer's own error is passed on.
  unfoldable pub validate_transaction_with_state :
      (Transaction → Option ℕ) → Transaction → State → StateOptions → Option PoolError
  unfolding cost is_gapped needed
  validate_transaction_with_state signer tx st opts = elim (signer tx) [
    | none ↦ some invalid_sender
    | some from ↦
        let balance = get_balance db st from in
        if ltb tx.nonce (get_nonce db st from)
        then some nonce_too_low
        else if is_gapped opts.first_nonce_gap from tx.nonce
        then some nonce_too_high
        else if ltb_ℤ balance (pos (cost tx))
        then some insufficient_funds
        else if ltb_ℤ balance
            (needed (opts.existing_expenditure from) (opts.existing_cost from tx.nonce) (cost tx))
        then some insufficient_funds
        else none
  ]

  -- The pool's options: what the sender's pending list costs, and its transaction at a nonce.
  unfoldable pub pool_options : (ℕ → Option TxList) → StateOptions
  unfolding get_tx cost
  pool_options pending = record {
    first_nonce_gap = none;
    existing_expenditure = λ a. elim (pending a) [ none ↦ pos 0 | some l ↦ l.totalcost ];
    existing_cost = λ a nonce. elim (pending a) [
      | none ↦ none
      | some l ↦ elim (get_tx l.txs nonce) [ none ↦ none | some old ↦ some (cost old) ]
    ];
  }

  -- `validateTx`
  unfoldable pub validate_tx :
      (Transaction → Option ℕ) → Transaction → State → (ℕ → Option TxList) → Option PoolError
  unfolding validate_transaction_with_state pool_options
  validate_tx signer tx st pending =
      validate_transaction_with_state signer tx st (pool_options pending)
