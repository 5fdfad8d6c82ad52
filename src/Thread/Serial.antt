-- ===== src/Thread/Serial.antt =====
-- A thread on the serial queue, and the gas that a thread counts.
use pangu.Prelude.{
  ℕ, ◌+◌, ◌%◌, ◌≡◌, ◌<◌, refl, Bool, false, Option, none, some, List, [], ◌∷◌, arith, map, Returns,
  Returns-bind, Option-cases, ◌-◌, Bool-cases, inl, inr, Ensures, Returns-both, All,
}
use pangu.World.{State}
use pangu.Evm.{Outcome, Machine, u64}
use pangu.Transition.{
  TxMessage, Block, settle, result, intrinsic_gas, is_creation, execute, pre_check, apply_bought,
  apply_transaction,
}
use pangu.Message.{Transaction, message, transaction_to_message}
use pangu.Transition.Gas.{Intrinsic-cases}
use pangu.Thread.Calm.{IsCalm}
use pangu.Thread.{
  Attempt, unsigned, refused, failed, executed, Shared, MessageReturn, execute_tx, attempt,
  is_skipped, skip_after, add_error, add_serial, note, tx_thread, empty_return,
}
use pangu.Thread.Account.{sum_gas, Named, attempt-Follows}

module _ (m : Machine) where
  settle-serial :
      (msg : TxMessage) (block : Block) (snapshot : State) (base before : ℕ) (o : Outcome)
      → (msg.is_parallel ≡ false)
      → (settle m msg block snapshot base before o).0.is_parallel_error ≡ false
  unfolding settle result
  settle-serial msg block snapshot base before o h = ground arith

  apply_bought-serial :
      (msg : TxMessage) (block : Block) (snapshot st : State)
      → (msg.is_parallel ≡ false)
      → (apply_bought m msg block snapshot st).0.is_parallel_error ≡ false
  unfolding apply_bought result
  apply_bought-serial msg block snapshot st h =
      elim (Intrinsic-cases (intrinsic_gas msg.payload msg.access_list (is_creation msg))) [
        | inl e ↦ rw (e, apply_bought) refl
        | inr (inl e) ↦ rw (e, apply_bought) refl
        | inr (inr (base, e)) ↦
            let last =
              settle-serial msg block snapshot base (msg.gas_limit - base)
                (execute m msg (msg.gas_limit - base) st) h in
            rw (e, apply_bought) (ground (arith, last))
      ]

  pub apply_transaction-serial :
      (msg : TxMessage) (block : Block) (st : State)
      → (msg.is_parallel ≡ false)
      → (apply_transaction m msg block st).0.is_parallel_error ≡ false
  unfolding apply_transaction result
  apply_transaction-serial msg block st h =
      let bought = (pre_check m.empty_code_hash msg block st).1 in
      let last = apply_bought-serial msg block st bought h in ground (arith, last)

module _ (m : Machine) (signer : Transaction → Option ℕ) (block : Block) where
  abbrev NotRefused : Attempt → Type 0
  NotRefused refused = ⊥
  NotRefused unsigned = Unit
  NotRefused (failed e) = Unit
  NotRefused (executed r) = Unit

  execute_tx-serial :
      (msg : TxMessage) (tx : Transaction) (sh : Shared)
      → (msg.is_parallel ≡ false)
      → Ensures (λ a. NotRefused a.0) (execute_tx m signer block msg tx sh)
  unfolding execute_tx
  execute_tx-serial msg tx sh h =
      let serial = apply_transaction-serial m msg block sh.state h in
      elim (Bool-cases (apply_transaction m msg block sh.state).0.panicked) [
        | inl p ↦ rw (p, Ensures) tt
        | inr p ↦ elim (Option-cases (apply_transaction m msg block sh.state).0.err) [
          | inl e ↦ rw (p, serial, e, Ensures) tt
          | inr (x, e) ↦ rw (p, serial, e, Ensures) tt
        ]
      ]

  attempt-serial :
      (tx : Transaction) (sh : Shared)
      → Ensures (λ a. NotRefused a.0) (attempt m signer block false tx sh)
  unfolding attempt transaction_to_message message
  attempt-serial tx sh = elim (Option-cases sh.base_fee) [
    | inl e ↦ rw (e, Ensures) tt
    | inr (fee, e) ↦ elim (Option-cases (signer tx)) [
      | inl s ↦ rw (e, s, Ensures) tt
      | inr (a, s) ↦
          rw (e, s)
            (execute_tx-serial (message signer tx (tx.tip_cap + (fee + tx.tip_cap)) false) tx
              (record sh { base_fee = some (tx.tip_cap + (fee + tx.tip_cap)) }) refl)
    ]
  ]

  -- What one attempt that is not refused adds to the access lists and receipts.
  note-serial :
      (tx : Transaction) (sh : Shared) (a : Attempt × Shared) (ret : MessageReturn)
      → NotRefused a.0
      → Named m signer block false tx sh a
      → (ret.tx_serial ≡ [])
      → (map (λ t. t.hash) ret.tx_access_list ≡ map (λ r. r.tx_hash) ret.new_receipt)
      → (skip_after m signer block false tx a.0 ≡ none)
        × ((note m signer block false tx a.0 ret).tx_serial ≡ [])
        × (map (λ t. t.hash) (note m signer block false tx a.0 ret).tx_access_list
            ≡ map (λ r. r.tx_hash) (note m signer block false tx a.0 ret).new_receipt)
  unfolding note add_error skip_after
  note-serial tx sh (unsigned, b) ret k n e f = (refl, e, f)
  note-serial tx sh (refused, b) ret k n e f = absurd k
  note-serial tx sh (failed x, b) ret k n e f = (refl, e, f)
  note-serial tx sh (executed r, b) ret k (n, p, q) e f = (refl, e, rw (n, f) refl)

  module _ (Fit : Transaction → Type 0) (Safe : State → Type 0)
      (calm : IsCalm m signer block Fit Safe) where
    -- The serial queue is run to its end: a thread that does not run in parallel, under a header with a
    -- base fee, returns with no transaction left for a serial queue, where `ApplyTransaction` does not
    -- panic on transactions and states of the kind that it starts with and keeps to that kind of state. Its
    -- access list messages are those of the transactions with a receipt, in the order of the receipts.
    pub tx_thread-serial :
        (txs : List Transaction) (sh : Shared) (fee : ℕ)
        → (sh.base_fee ≡ some fee)
        → All Fit txs
        → Safe sh.state
        → Returns
            (λ r.
              (r.0.tx_serial ≡ [])
              × (map (λ t. t.hash) r.0.tx_access_list ≡ map (λ r. r.tx_hash) r.0.new_receipt))
            (tx_thread m signer block false none txs sh)
    unfolding tx_thread is_skipped
    tx_thread-serial [] sh fee e fit safe = (refl, refl)
    tx_thread-serial (tx ∷ txs) sh fee e fit safe =
        let (a, ran, (named, (f, b), still), kept) =
          Returns-both _ _ (attempt m signer block false tx sh)
            (attempt-Follows m signer block false Fit Safe calm tx sh fee e fit.0 safe)
            (attempt-serial tx sh) in
        let rest = tx_thread-serial txs a.1 f b fit.1 still in
        let (on, _, _) = note-serial tx sh a empty_return kept named refl refl in
        rw (ran, on, tx_thread)
          (Returns-bind _ _ (tx_thread m signer block false none txs a.1) _ rest (λ r (done, same).
            let (_, ran_out, both) = note-serial tx sh a r.0 kept named done same in
            (ran_out, both)))

  note-low :
      (is_parallel : Bool) (tx : Transaction) (sh : Shared) (a : Attempt × Shared)
      → Named m signer block is_parallel tx sh a
      → (sh.used_gas < u64)
      → a.1.used_gas < u64
  note-low is_parallel tx sh (unsigned, b) e low = omega arith
  note-low is_parallel tx sh (refused, b) e low = omega arith
  note-low is_parallel tx sh (failed x, b) e low = omega arith
  note-low is_parallel tx sh (executed r, b) (n, e, k) low = omega arith

  note-gas :
      (is_parallel : Bool) (tx : Transaction) (sh : Shared) (a : Attempt × Shared)
      (ret : MessageReturn) (used : ℕ)
      → Named m signer block is_parallel tx sh a
      → (used ≡ (a.1.used_gas + sum_gas ret.new_receipt) % u64)
      → used
        ≡ (sh.used_gas + sum_gas (note m signer block is_parallel tx a.0 ret).new_receipt) % u64
  unfolding note add_error add_serial sum_gas
  note-gas is_parallel tx sh (unsigned, b) ret used e c = omega arith
  note-gas is_parallel tx sh (refused, b) ret used e c = omega arith
  note-gas is_parallel tx sh (failed x, b) ret used e c = omega arith
  note-gas is_parallel tx sh (executed r, b) ret used (n, e, k) c = omega arith

  module _ (Fit : Transaction → Type 0) (Safe : State → Type 0)
      (calm : IsCalm m signer block Fit Safe) where
    -- Under a header with a base fee, with a gas counter that is a 64-bit number, and where
    -- `ApplyTransaction` does not panic on transactions and states of the kind that the thread starts with
    -- and keeps to that kind of state, a thread returns, and the counter has grown by the gas of its
    -- receipts, with the wrap-around of 64 bits, and by nothing else.
    pub tx_thread-gas :
        (is_parallel : Bool) (txs : List Transaction) (skip : Option ℕ) (sh : Shared) (fee : ℕ)
        → (sh.base_fee ≡ some fee)
        → (sh.used_gas < u64)
        → All Fit txs
        → Safe sh.state
        → Returns
            (λ r. r.1.used_gas ≡ (sh.used_gas + sum_gas r.0.new_receipt) % u64)
            (tx_thread m signer block is_parallel skip txs sh)
    unfolding tx_thread add_serial sum_gas
    tx_thread-gas is_parallel [] skip sh fee e low fit safe = omega arith
    tx_thread-gas is_parallel (tx ∷ txs) skip sh fee e low fit safe =
        elim (Bool-cases (is_skipped m signer block is_parallel skip tx)) [
          | inl q ↦
              rw (q, tx_thread)
                (Returns-bind _ _ (tx_thread m signer block is_parallel skip txs sh) _
                  (tx_thread-gas is_parallel txs skip sh fee e low fit.1 safe) (λ r c. c))
          | inr q ↦
              rw (q, tx_thread)
                (Returns-bind _ _ (attempt m signer block is_parallel tx sh) _
                  (attempt-Follows m signer block is_parallel Fit Safe calm tx sh fee e fit.0 safe)
                  (λ a (named, (f, b), still).
                    Returns-bind _ _
                      (tx_thread m signer block is_parallel
                        (skip_after m signer block is_parallel tx a.0) txs a.1)
                      _
                      (tx_thread-gas is_parallel txs _ a.1 f b
                        (note-low is_parallel tx sh a named low) fit.1 still)
                      (λ r c. note-gas is_parallel tx sh a r.0 r.1.used_gas named c)))
        ]
