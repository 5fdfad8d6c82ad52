-- ===== src/Transition/Refund.antt =====
-- The whole of `ApplyTransaction`: what each way to end leaves of the state and of the gas.
use pangu.Prelude.{
  ℕ, ◌+◌, ◌-◌, ◌^◌, ◌%◌, ◌≤◌, ◌<◌, ◌≡◌, ◌≢◌, true, none, arith, inl, inr, Option-cases,
}
use pangu.Prelude.Int.{pos}
use pangu.World.{State, sub_balance, set_nonce}
use pangu.Evm.{Outcome, Machine, u64}
use pangu.Evm.Call.{KeepsGas, call_gas, create_gas}
use pangu.Transition.{
  TxMessage, is_creation, Block, Intrinsic, overflow, nil_list, units, intrinsic_gas, pre_check,
  execute, settle, result, apply_bought, apply_transaction,
}
use pangu.Transition.Checks.{price_of, Passes, pre_check_lem}
use pangu.Transition.Gas.{Intrinsic-cases}

-- The gas limit does not cover the intrinsic gas, or that overflows.
abbrev pub IsShort : ℕ → Intrinsic → Type 0
IsShort limit overflow = Unit
IsShort limit nil_list = ⊥
IsShort limit (units base) = limit < base

module _ (m : Machine) (msg : TxMessage) (block : Block) where
  settle_parallel :
      (snapshot : State) (base before : ℕ) (o : Outcome)
      → (settle m msg block snapshot base before o).0.is_parallel_error ≡ true
      → (settle m msg block snapshot base before o).1 ≡ snapshot
  unfolding settle
  settle_parallel snapshot base before o h = ground arith

  apply_bought_parallel :
      (snapshot st : State)
      → (apply_bought m msg block snapshot st).0.is_parallel_error ≡ true
      → (apply_bought m msg block snapshot st).1 ≡ snapshot
  unfolding apply_bought result
  apply_bought_parallel snapshot st h =
      elim (Intrinsic-cases (intrinsic_gas msg.payload msg.access_list (is_creation msg))) [
        | inl e ↦ ground arith
        | inr (inl e) ↦ ground arith
        | inr (inr (base, e)) ↦ ground (
          arith,
          settle_parallel snapshot base (msg.gas_limit - base)
              (execute m msg (msg.gas_limit - base) st),
        )
      ]

  -- A transaction that turns out not to be able to run in parallel leaves the state as it was before
  -- its gas was bought.
  pub apply_parallel :
      (st : State)
      → (apply_transaction m msg block st).0.is_parallel_error ≡ true
      → (apply_transaction m msg block st).1 ≡ st
  unfolding apply_transaction result
  apply_parallel st h =
      ground (arith, apply_bought_parallel st (pre_check m.empty_code_hash msg block st).1)

  execute_gas : KeepsGas m → (gas : ℕ) (st : State) → (execute m msg gas st).gas_remain ≤ gas
  unfolding execute
  execute_gas k gas st = elim (Option-cases msg.to) [
    | inl e ↦
        rw (e, execute) (create_gas m k 0 st msg.from msg.payload gas msg.value msg.is_parallel)
    | inr (to, e) ↦
        rw (e, execute)
          (call_gas m k 0 (set_nonce st msg.from ((st.nonce msg.from + 1) % u64)) msg.from to
            msg.payload gas msg.value msg.is_parallel)
  ]

  settle_gas :
      (snapshot : State) (base before : ℕ) (o : Outcome)
      → base + before < u64
      → o.gas_remain ≤ before
      → (settle m msg block snapshot base before o).0.used_gas ≤ base + before
  unfolding settle result
  settle_gas snapshot base before o h k = ground arith

  apply_bought_gas :
      KeepsGas m
      → (snapshot st : State) → msg.gas_limit < u64
      → (apply_bought m msg block snapshot st).0.used_gas ≤ msg.gas_limit
  unfolding apply_bought result
  apply_bought_gas k snapshot st h =
      elim (Intrinsic-cases (intrinsic_gas msg.payload msg.access_list (is_creation msg))) [
        | inl e ↦ ground arith
        | inr (inl e) ↦ ground arith
        | inr (inr (base, e)) ↦ ground (
          arith,
          execute_gas k (msg.gas_limit - base) st,
          settle_gas snapshot base (msg.gas_limit - base) (execute m msg (msg.gas_limit - base) st),
        )
      ]

  -- A transaction whose gas limit is a 64-bit number uses no more gas than its limit, on every
  -- branch, given an interpreter and precompiled contracts that return no more gas than they get.
  pub apply_gas :
      KeepsGas m
      → (st : State) → msg.gas_limit < u64
      → (apply_transaction m msg block st).0.used_gas ≤ msg.gas_limit
  unfolding apply_transaction result
  apply_gas k st h =
      ground (arith, apply_bought_gas k st (pre_check m.empty_code_hash msg block st).1)

  -- Where a message passes `PreCheck`, with a sender whose nonce is a 64-bit number, but its gas
  -- does not cover the intrinsic gas, or that overflows, `ApplyTransaction` ends in an error and
  -- reports no gas used; the sender has paid the gas limit times the price and the value, and that
  -- is all that changes.
  pub apply_unrefunded :
      (st : State)
      → st.nonce msg.from < 2 ^ 64
      → Passes m.empty_code_hash msg block st
      → IsShort msg.gas_limit (intrinsic_gas msg.payload msg.access_list (is_creation msg))
      → ((apply_transaction m msg block st).0.used_gas ≡ 0)
        × ((apply_transaction m msg block st).0.err ≢ none)
        × ((apply_transaction m msg block st).1 ≡ sub_balance st msg.from (pos (price_of msg)))
  unfolding apply_transaction apply_bought result
  apply_unrefunded st n p low =
      let l = pre_check_lem m.empty_code_hash msg block st n in
      let a = l.0.1 p in
      let b = l.1 a in
      elim (Intrinsic-cases (intrinsic_gas msg.payload msg.access_list (is_creation msg))) [
        | inl e ↦ (ground arith, ground arith, ground arith)
        | inr (inl e) ↦ (ground (arith, low), ground (arith, low), ground (arith, low))
        | inr (inr (base, e)) ↦ (ground (arith, low), ground (arith, low), ground (arith, low))
      ]
