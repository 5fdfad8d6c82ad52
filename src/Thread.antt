-- ===== src/Thread.antt =====
-- core/process.go: `ExecuteTx` and `TxThread`, the transactions of one group or of the serial queue in
-- turn, and what `Process` gathers. The text that goes to the terminal is left out, and so are the logs,
-- the bloom and the block fields of a receipt, which do not decide anything here. A panic is `none`: a
-- header without a base fee, a transaction without an access list, or a run of the interpreter that panics
-- (Evm).
pub mod Calm
pub mod Transfers
pub mod Account
pub mod Serial
pub mod Process
use pangu.Prelude.{
  ℕ, ◌+◌, ◌%◌, ◌^◌, Bool, true, false, Option, none, some, List, [], ◌∷◌, ◌>>=◌, ltb, ◌==◌,
  if◌then◌else◌,
}
use pangu.World.{State}
use pangu.Evm.{Error, Machine, u64}
use pangu.Transition.{TxMessage, ExecutionResult, Block, apply_transaction}
use pangu.Message.{Transaction, transaction_to_message}

-- `types.Receipt`, as `ExecuteTx` fills it; its status is always success.
pub record Receipt : Type 0 where
  pub tx_hash : ℕ
  pub gas_used : ℕ
  pub cumulative_gas_used : ℕ
  pub contract_address : Option ℕ

-- What `ExecuteTx` returns: no receipt and no error, an error, or a receipt; `unsigned` is the error of
-- `TransactionToMessage` before it.
pub data Attempt : Type 0 where
  unsigned : Attempt
  refused : Attempt
  failed : Error → Attempt
  executed : Receipt → Attempt

-- `TxErrorMessage`
pub data Reason : Type 0 where
  bad_message not_parallel : Reason
  execution_error : Error → Reason

pub record TxError : Type 0 where
  pub tx : Transaction
  pub reason : Reason

-- What the threads share or keep: the state, `Header.BaseFee` and `*UsedGas`.
pub record Shared : Type 0 where
  pub state : State
  pub base_fee : Option ℕ
  pub used_gas : ℕ

-- `MessageReturn`; the access list of a `TxAccessListMessage` is always nil, so its transaction is kept.
pub record MessageReturn : Type 0 where
  pub new_receipt : List Receipt
  pub tx_serial : List Transaction
  pub tx_error : List TxError
  pub tx_access_list : List Transaction

abbrev pub empty_return : MessageReturn
empty_return = record { new_receipt = []; tx_serial = []; tx_error = []; tx_access_list = [] }

module _ (m : Machine) (signer : Transaction → Option ℕ) (block : Block) where
  -- `ExecuteTx`
  unfoldable pub execute_tx : TxMessage → Transaction → Shared → Option (Attempt × Shared)
  unfolding apply_transaction
  execute_tx msg tx sh =
      let (r, st) = apply_transaction m msg block sh.state in
      if r.panicked
      then none
      else if r.is_parallel_error
      then some (refused, record sh { state = st })
      else elim r.err [
        | some e ↦ some (failed e, record sh { state = st })
        | none ↦
            let used = (sh.used_gas + r.used_gas) % u64 in
            some (
              executed (record {
                tx_hash = tx.hash;
                gas_used = r.used_gas;
                cumulative_gas_used = used;
                contract_address = (elim msg.to [
                  | none ↦ some (m.create_address msg.from tx.nonce)
                  | some _ ↦ none
                ]);
              }),
              record sh { state = st; used_gas = used },
            )
      ]

  module _ (is_parallel : Bool) where
    -- The message and its execution.
    unfoldable pub attempt : Transaction → Shared → Option (Attempt × Shared)
    unfolding execute_tx
    attempt tx sh = transaction_to_message signer tx sh.base_fee is_parallel >>= λ r.
        let read = record sh { base_fee = r.2 } in
        elim r.1 [ none ↦ some (unsigned, read) | some _ ↦ execute_tx r.0 tx read ]

    -- The address that `Sender` gives, the zero address on an error.
    unfoldable pub sender : Transaction → ℕ
    sender tx = elim (signer tx) [ none ↦ 0 | some a ↦ a ]

    unfoldable pub is_skipped : Option ℕ → Transaction → Bool
    unfolding sender
    is_skipped none tx = false
    is_skipped (some a) tx = a == sender tx

    -- After a transaction that cannot run in parallel, those of the same sender that follow at once are
    -- taken away.
    unfoldable pub skip_after : Transaction → Attempt → Option ℕ
    unfolding sender
    skip_after tx refused = some (sender tx)
    skip_after tx unsigned = none
    skip_after tx (failed e) = none
    skip_after tx (executed r) = none

    unfoldable pub add_error : Transaction → Reason → MessageReturn → MessageReturn
    add_error tx reason ret = record ret {
      tx_error = record { tx = tx; reason = reason } ∷ ret.tx_error;
    }

    unfoldable pub add_serial : Transaction → MessageReturn → MessageReturn
    add_serial tx ret = record ret { tx_serial = tx ∷ ret.tx_serial }

    -- What one attempt adds in front of what the transactions after it give.
    unfoldable pub note : Transaction → Attempt → MessageReturn → MessageReturn
    unfolding add_error add_serial
    note tx unsigned ret = add_error tx bad_message ret
    note tx refused ret = add_error tx not_parallel (add_serial tx ret)
    note tx (failed e) ret = add_error tx (execution_error e) ret
    note tx (executed r) ret = record ret {
      new_receipt = r ∷ ret.new_receipt;
      tx_access_list = if is_parallel then ret.tx_access_list else tx ∷ ret.tx_access_list;
    }

    -- `TxThread`. The first argument is the sender whose transactions are just going to the serial
    -- queue, in the place of the inner loop on `index`.
    unfoldable pub tx_thread :
        Option ℕ → List Transaction → Shared → Option (MessageReturn × Shared)
    unfolding is_skipped skip_after
    tx_thread skip [] sh = some (empty_return, sh)
    tx_thread skip (tx ∷ txs) sh = elim (is_skipped skip tx) [
      | true ↦ tx_thread skip txs sh >>= λ r. some (add_serial tx r.0, r.1)
      | false ↦ attempt tx sh >>= λ a.
          tx_thread (skip_after tx a.0) txs a.1 >>= λ r. some (note tx a.0 r.0, r.1)
    ]
