-- ===== src/Message.antt =====
-- core/process_types.go: the message of a transaction, and the order of the serial queue.
-- `TransactionToMessage` computes in the header's own `BaseFee`: `baseFee.Add(baseFee, tipfee)` writes
-- there and hands the pointer on as the price, and `msg.GasPrice.Add(msg.GasTipCap, baseFee)` writes
-- there again. So the function takes the base fee and returns the one that it leaves. A nil base fee is
-- a nil dereference, `none`. Senders come from the signer, a parameter.
pub mod Drift
use pangu.Prelude.{
  ℕ, ◌+◌, ◌*◌, min, Bool, true, false, Option, none, some, List, [], ◌∷◌, ◌>>=◌, ltb, ◌==◌,
  if◌then◌else◌, not,
}
use pangu.AccessList.{AccessList}
use pangu.Transition.{TxMessage}

-- `types.Transaction`, as the getters show it.
pub record Transaction : Type 0 where
  pub hash : ℕ
  pub to : Option ℕ
  pub nonce : ℕ
  pub value : ℕ
  pub gas_limit : ℕ
  pub fee_cap : ℕ
  pub tip_cap : ℕ
  pub payload : List ℕ
  pub access_list : Option AccessList

-- The message of a transaction whose tip and base fee have come to `price`.
unfoldable pub message : (Transaction → Option ℕ) → Transaction → ℕ → Bool → TxMessage
message signer tx price is_parallel = record {
  to = tx.to;
  from = (elim (signer tx) [ none ↦ 0 | some a ↦ a ]);
  nonce = tx.nonce;
  value = tx.value;
  gas_limit = tx.gas_limit;
  gas_price = if ltb tx.fee_cap price then tx.fee_cap else price;
  gas_fee_cap = tx.fee_cap;
  gas_tip_cap = tx.tip_cap;
  payload = tx.payload;
  access_list = tx.access_list;
  is_parallel = is_parallel;
  can_parallel = is_parallel;
}

-- The message, the sender (`none` on an error), and the base fee that is left in the header.
unfoldable pub transaction_to_message :
    (Transaction → Option ℕ)
    → Transaction
    → Option ℕ
    → Bool
    → Option (TxMessage × Option ℕ × Option ℕ)
transaction_to_message signer tx none is_parallel = none
transaction_to_message signer tx (some base_fee) is_parallel =
    let first = base_fee + tx.tip_cap in
    let second = tx.tip_cap + first in
    some (message signer tx second is_parallel, signer tx, some second)

-- `less` of `SortSerialTX`: the nonce upwards, the price downwards, the hash upwards. `GasPrice` of a
-- transaction is its fee cap.
unfoldable pub serial_less : Transaction → Transaction → Bool
serial_less a b =
    if ltb a.nonce b.nonce
    then true
    else if a.nonce == b.nonce
    then (if ltb b.fee_cap a.fee_cap
        then true
        else if a.fee_cap == b.fee_cap
        then ltb a.hash b.hash
        else false)
    else false
