-- ===== src/Thread/Account.antt =====
-- Where the transactions of a thread end up, and its gas.
use pangu.Prelude.{
  ℕ, ◌+◌, ◌%◌, ◌≡◌, refl, ap, ◌∙◌, Bool, true, false, Option, none, some, List, [], ◌∷◌, arith,
  ◌==◌, if◌then◌else◌, Returns, Returns-bind, Bool-cases, inl, inr, All,
}
use pangu.World.{State}
use pangu.Evm.{Error, Machine, u64}
use pangu.Transition.{TxMessage, Block, apply_transaction}
use pangu.Message.{Transaction, message, transaction_to_message}
use pangu.Thread.Calm.{IsCalm}
use pangu.Thread.{
  Receipt, Attempt, unsigned, refused, failed, executed, Reason, bad_message, not_parallel,
  execution_error, TxError, Shared, MessageReturn, execute_tx, attempt, is_skipped, skip_after,
  add_error, add_serial, note, tx_thread,
}

-- How often a hash stands among transactions, receipts, and errors other than the one of a transaction
-- that goes to the serial queue.
abbrev pub one_if : Bool → ℕ
one_if true = 1
one_if false = 0

unfoldable pub count_txs : ℕ → List Transaction → ℕ
count_txs h [] = 0
count_txs h (tx ∷ txs) = one_if (tx.hash == h) + count_txs h txs

unfoldable pub count_receipts : ℕ → List Receipt → ℕ
count_receipts h [] = 0
count_receipts h (r ∷ rs) = one_if (r.tx_hash == h) + count_receipts h rs

abbrev pub is_final : Reason → Bool
is_final bad_message = true
is_final not_parallel = false
is_final (execution_error e) = true

unfoldable pub count_errors : ℕ → List TxError → ℕ
count_errors h [] = 0
count_errors h (e ∷ es) =
    (if is_final e.reason then one_if (e.tx.hash == h) else 0) + count_errors h es

-- The sum of the gas of receipts.
unfoldable pub sum_gas : List Receipt → ℕ
sum_gas [] = 0
sum_gas (r ∷ rs) = r.gas_used + sum_gas rs

module _ (m : Machine) (signer : Transaction → Option ℕ) (block : Block) (is_parallel : Bool) where
  -- A receipt is the one of the transaction, and the gas used so far grows by it.
  abbrev pub Named : Transaction → Shared → Attempt × Shared → Type 0
  Named tx sh (executed r, after) =
      (r.tx_hash ≡ tx.hash)
      × (after.used_gas ≡ (sh.used_gas + r.gas_used) % u64)
      × (r.cumulative_gas_used ≡ after.used_gas)
  Named tx sh (unsigned, after) = after.used_gas ≡ sh.used_gas
  Named tx sh (refused, after) = after.used_gas ≡ sh.used_gas
  Named tx sh (failed e, after) = after.used_gas ≡ sh.used_gas

  module _ (Fit : Transaction → Type 0) (Safe : State → Type 0)
      (calm : IsCalm m signer block Fit Safe) where
    -- What an attempt leaves: its receipt and gas, a header with a base fee, and a safe state.
    abbrev pub Follows : Transaction → Shared → Attempt × Shared → Type 0
    Follows tx sh a = Named tx sh a × ((f : ℕ) × (a.1.base_fee ≡ some f)) × Safe a.1.state

    execute_tx-Follows :
        (tx : Transaction) (price : ℕ) (sh : Shared) (fee : ℕ)
        → (sh.base_fee ≡ some fee)
        → Fit tx
        → Safe sh.state
        → Returns
            (Follows tx sh)
            (execute_tx m signer block (message signer tx price is_parallel) tx sh)
    unfolding execute_tx
    execute_tx-Follows tx price sh fee b fit safe =
        go (calm.returns tx price is_parallel sh.state fit safe) _ refl _ refl
      where
        msg : TxMessage
        msg = message signer tx price is_parallel

        kept : Safe (apply_transaction m msg block sh.state).1
        kept = calm.keeps tx price is_parallel sh.state fit safe

        go :
            ((apply_transaction m msg block sh.state).0.panicked ≡ false)
            → (r : Bool) → ((apply_transaction m msg block sh.state).0.is_parallel_error ≡ r)
            → (e : Option Error) → ((apply_transaction m msg block sh.state).0.err ≡ e)
            → Returns (Follows tx sh) (execute_tx m signer block msg tx sh)
        go c true p e q = rw (c, p, execute_tx) (refl, (fee, b), kept)
        go c false p none q = rw (c, p, q, execute_tx) ((refl, refl, refl), (fee, b), kept)
        go c false p (some e) q = rw (c, p, q, execute_tx) (refl, (fee, b), kept)

    pub attempt-Follows :
        (tx : Transaction) (sh : Shared) (fee : ℕ)
        → (sh.base_fee ≡ some fee)
        → Fit tx
        → Safe sh.state
        → Returns (Follows tx sh) (attempt m signer block is_parallel tx sh)
    unfolding attempt transaction_to_message
    attempt-Follows tx sh fee e fit safe = rw (e) (go (signer tx))
      where
        price : ℕ
        price = tx.tip_cap + (fee + tx.tip_cap)

        go :
            (s : Option ℕ)
            → Returns (Follows tx sh) (elim s [
              | none ↦ some (unsigned, record sh { base_fee = some price })
              | some _ ↦
                  execute_tx m signer block
                    (message signer tx price is_parallel)
                    tx
                    (record sh { base_fee = some price })
            ])
        go none = (refl, (price, refl), safe)
        go (some a) =
            execute_tx-Follows tx price (record sh { base_fee = some price }) price refl fit safe

  -- What `note` makes of one attempt in the counts.
  abbrev all_counts : ℕ → MessageReturn → ℕ
  all_counts h ret =
      count_receipts h ret.new_receipt + count_txs h ret.tx_serial + count_errors h ret.tx_error

  note-all_counts :
      (h : ℕ) (tx : Transaction) (sh : Shared) (a : Attempt × Shared) (ret : MessageReturn)
      → Named tx sh a
      → all_counts h (note m signer block is_parallel tx a.0 ret)
        ≡ one_if (tx.hash == h) + all_counts h ret
  unfolding note add_error add_serial count_receipts count_txs count_errors
  note-all_counts h tx sh (unsigned, b) ret n = omega arith
  note-all_counts h tx sh (refused, b) ret n = omega arith
  note-all_counts h tx sh (failed e, b) ret n = omega arith
  note-all_counts h tx sh (executed r, b) ret (n, p, q) = rw n (omega arith)

  note-fit :
      (Fit : Transaction → Type 0) (tx : Transaction) (a : Attempt) (ret : MessageReturn)
      → Fit tx
      → All Fit ret.tx_serial
      → All Fit (note m signer block is_parallel tx a ret).tx_serial
  unfolding note add_error add_serial
  note-fit Fit tx unsigned ret f all = all
  note-fit Fit tx refused ret f all = (f, all)
  note-fit Fit tx (failed e) ret f all = all
  note-fit Fit tx (executed r) ret f all = all

  module _ (Fit : Transaction → Type 0) (Safe : State → Type 0)
      (calm : IsCalm m signer block Fit Safe) where
    -- A thread returns, whatever it was skipping, where its header has a base fee and `ApplyTransaction`
    -- does not panic on transactions and states of the kind that it starts with and keeps to that kind of
    -- state. It neither loses nor doubles a transaction: each hash stands as often among its receipts, its
    -- serial queue and its errors (those of transactions that were refused only because they run in
    -- parallel left out) as among its transactions. The header still has a base fee then, and the state
    -- and the serial queue are of that kind.
    pub tx_thread-count :
        (h : ℕ) (txs : List Transaction) (skip : Option ℕ) (sh : Shared) (fee : ℕ)
        → (sh.base_fee ≡ some fee)
        → All Fit txs
        → Safe sh.state
        → Returns
            (λ r.
              (count_receipts h r.0.new_receipt
                  + count_txs h r.0.tx_serial
                  + count_errors h r.0.tx_error
                ≡ count_txs h txs)
              × ((f : ℕ) × (r.1.base_fee ≡ some f))
              × Safe r.1.state
              × All Fit r.0.tx_serial)
            (tx_thread m signer block is_parallel skip txs sh)
    unfolding tx_thread add_serial count_receipts count_txs count_errors
    tx_thread-count h [] skip sh fee e fit safe = (refl, (fee, e), safe, tt)
    tx_thread-count h (tx ∷ txs) skip sh fee e fit safe =
        elim (Bool-cases (is_skipped m signer block is_parallel skip tx)) [
          | inl q ↦
              rw (q, tx_thread)
                (Returns-bind _ _ (tx_thread m signer block is_parallel skip txs sh) _
                  (tx_thread-count h txs skip sh fee e fit.1 safe)
                  (λ r (c, b, s, all). (omega arith, b, s, (fit.0, all))))
          | inr q ↦
              rw (q, tx_thread)
                (Returns-bind _ _ (attempt m signer block is_parallel tx sh) _
                  (attempt-Follows Fit Safe calm tx sh fee e fit.0 safe)
                  (λ a (named, (f, b), kept).
                    Returns-bind _ _
                      (tx_thread m signer block is_parallel
                        (skip_after m signer block is_parallel tx a.0) txs a.1)
                      _ (tx_thread-count h txs _ a.1 f b fit.1 kept)
                      (λ r (c, k, s, all). (
                        note-all_counts h tx sh a r.0 named ∙ ap (λ n. one_if (tx.hash == h) + n) c,
                        k,
                        s,
                        note-fit Fit tx a.0 r.0 fit.0 all,
                      ))))
        ]
