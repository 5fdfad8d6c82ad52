-- ===== src/Thread/Calm.antt =====
-- What keeps the transactions of core/process.go from a panic: that `ApplyTransaction` does not panic on
-- the transactions and states that are met.
use pangu.Prelude.{
  ℕ, ◌+◌, ◌-◌, ◌%◌, ◌≡◌, ◌≢◌, Bool, false, Option, some, List, arith, Option-cases, inl, inr,
}
use pangu.World.{State, set_nonce}
use pangu.AccessList.{AccessList}
use pangu.Evm.{
  Contract, Outcome, Machine, u64, call, call_code, create, store_code, failed, or_revert,
}
use pangu.Transition.{
  TxMessage, Block, nil_list, intrinsic_gas, is_creation, execute, settle, pre_check, result,
  apply_bought, apply_transaction,
}
use pangu.Transition.Gas.{Intrinsic-cases}
use pangu.Message.{Transaction, message}

-- On transactions of a kind and states of a kind, `ApplyTransaction` does not panic, and it leaves a state
-- of that kind.
pub record IsCalm (m : Machine) (signer : Transaction → Option ℕ) (block : Block)
    (Fit : Transaction → Type 0) (Safe : State → Type 0) : Type 0 where
  pub returns :
      (tx : Transaction) (price : ℕ) (is_parallel : Bool) (st : State)
      → Fit tx
      → Safe st
      → (apply_transaction m (message signer tx price is_parallel) block st).0.panicked ≡ false
  pub keeps :
      (tx : Transaction) (price : ℕ) (is_parallel : Bool) (st : State)
      → Fit tx
      → Safe st
      → Safe (apply_transaction m (message signer tx price is_parallel) block st).1

-- A transaction that has an access list.
abbrev pub IsListed : Transaction → Type 0
IsListed tx = (al : AccessList) × (tx.access_list ≡ some al)

nil_list-listed :
    (bytes : List ℕ) (creation : Bool) (al : AccessList)
    → intrinsic_gas bytes (some al) creation ≢ nil_list
unfolding intrinsic_gas
nil_list-listed bytes creation al e = ground arith

module _ (m : Machine) where
  -- Outside the interpreter nothing panics but a nil access list.
  settle-panicked :
      (msg : TxMessage) (block : Block) (snapshot : State) (base before : ℕ) (o : Outcome)
      → (o.panicked ≡ false)
      → (settle m msg block snapshot base before o).0.panicked ≡ false
  unfolding settle result
  settle-panicked msg block snapshot base before o h = ground arith

  pub apply_transaction-panicked :
      (msg : TxMessage) (block : Block) (st : State) (al : AccessList)
      → (msg.access_list ≡ some al)
      → ((gas : ℕ)
          → (execute m msg gas (pre_check m.empty_code_hash msg block st).1).panicked ≡ false)
      → (apply_transaction m msg block st).0.panicked ≡ false
  unfolding apply_transaction apply_bought result
  apply_transaction-panicked msg block st al listed runs =
      elim (Intrinsic-cases (intrinsic_gas msg.payload msg.access_list (is_creation msg))) [
        | inl e ↦ ground arith
        | inr (inl e) ↦
            let there = nil_list-listed msg.payload (is_creation msg) al in ground (arith, there)
        | inr (inr (base, e)) ↦
            let bought = (pre_check m.empty_code_hash msg block st).1 in
            let left = msg.gas_limit - base in
            let last =
              settle-panicked msg block st base left (execute m msg left bought) (runs left) in
            ground (arith, last)
      ]

  create-panicked :
      ((c : Contract) (input : List ℕ) (p : Bool) (st : State)
        → (m.run c input p st).panicked ≡ false)
      → (depth : ℕ) (st : State) (caller : ℕ) (code : List ℕ) (gas value : ℕ) (p : Bool)
      → (create m depth st caller code gas value p).panicked ≡ false
  unfolding create store_code failed
  create-panicked quiet depth st caller code gas value p = grind (arith, quiet)

  call-panicked :
      ((c : Contract) (input : List ℕ) (p : Bool) (st : State)
        → (m.run c input p st).panicked ≡ false)
      → (depth : ℕ) (st : State) (caller addr : ℕ) (input : List ℕ) (gas value : ℕ) (p : Bool)
      → (call m depth st caller addr input gas value p).panicked ≡ false
  unfolding call call_code or_revert failed
  call-panicked quiet depth st caller addr input gas value p = grind (arith, quiet)

  execute-panicked :
      ((c : Contract) (input : List ℕ) (p : Bool) (st : State)
        → (m.run c input p st).panicked ≡ false)
      → (msg : TxMessage) (gas : ℕ) (st : State) → (execute m msg gas st).panicked ≡ false
  unfolding execute
  execute-panicked quiet msg gas st = elim (Option-cases msg.to) [
    | inl e ↦
        rw (e, execute)
          (create-panicked quiet 0 st msg.from msg.payload gas msg.value msg.is_parallel)
    | inr (to, e) ↦
        rw (e, execute)
          (call-panicked quiet 0 (set_nonce st msg.from ((st.nonce msg.from + 1) % u64)) msg.from to
            msg.payload gas msg.value msg.is_parallel)
  ]

  -- An interpreter that does not panic makes `ApplyTransaction` calm on transactions with an access list.
  pub IsListed-IsCalm :
      (signer : Transaction → Option ℕ) (block : Block)
      → ((c : Contract) (input : List ℕ) (p : Bool) (st : State)
          → (m.run c input p st).panicked ≡ false)
      → IsCalm m signer block IsListed (λ st. Unit)
  unfolding message
  IsListed-IsCalm signer block quiet = record {
    returns = λ tx price p st (al, listed) safe.
        apply_transaction-panicked (message signer tx price p) block st al listed (λ gas.
          execute-panicked quiet (message signer tx price p) gas
            (pre_check m.empty_code_hash (message signer tx price p) block st).1);
    keeps = λ tx price p st fit safe. tt;
  }
