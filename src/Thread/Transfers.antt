-- ===== src/Thread/Transfers.antt =====
-- core/process.go on transfers where no account has code: `ApplyTransaction` does not panic then, whatever
-- the interpreter does.
use pangu.Prelude.{
  ℕ, ◌+◌, ◌-◌, ◌%◌, ◌≡◌, ap, ◌∙◌, Bool, false, Option, some, List, [], arith, inl, inr,
}
use pangu.World.{State, create_account, set_nonce, add_balance, sub_balance}
use pangu.Evm.{Outcome, Machine, u64, call, call_code, transfer, failed, or_revert}
use pangu.Transition.{
  TxMessage, Block, intrinsic_gas, is_creation, execute, settle, buy_gas, refund_gas, pre_check,
  apply_bought, apply_transaction,
}
use pangu.Transition.Gas.{Intrinsic-cases}
use pangu.Message.{Transaction, message}
use pangu.Thread.Calm.{IsCalm, IsListed, apply_transaction-panicked}

-- A transfer: it has an access list and a recipient.
abbrev pub IsTransfer : Transaction → Type 0
IsTransfer tx = IsListed tx × ((a : ℕ) × (tx.to ≡ some a))

-- No account has code.
abbrev pub HasNoCode : State → Type 0
HasNoCode st = (a : ℕ) → st.code a ≡ []

module _ (m : Machine) where
  call_code-code :
      (snapshot st : State) (caller addr : ℕ) (input : List ℕ) (gas value : ℕ) (p : Bool) (b : ℕ)
      → (st.code addr ≡ [])
      → (snapshot.code b ≡ [])
      → (st.code b ≡ [])
      → ((call_code m snapshot st caller addr input gas value p).panicked ≡ false)
        × ((call_code m snapshot st caller addr input gas value p).state.code b ≡ [])
  unfolding call_code or_revert
  call_code-code snapshot st caller addr input gas value p b there before here =
      (ground arith, ground arith)

  -- A call where no account has code.
  call-code :
      (depth : ℕ) (st : State) (caller addr : ℕ) (input : List ℕ) (gas value : ℕ) (p : Bool) (b : ℕ)
      → HasNoCode st
      → ((call m depth st caller addr input gas value p).panicked ≡ false)
        × ((call m depth st caller addr input gas value p).state.code b ≡ [])
  unfolding call failed transfer create_account
  call-code depth st caller addr input gas value p b none_has =
      let fresh = create_account m.empty_code_hash st addr in
      let there = none_has addr in
      let here = none_has b in
      let made = λ (c : ℕ). made_code st addr c (none_has c) in
      let old =
        call_code-code st (transfer st caller addr value) caller addr input gas value p b there here
          here in
      let new =
        call_code-code st (transfer fresh caller addr value) caller addr input gas value p b
          (made addr) here (made b) in
      (ground (arith, old, new, here), ground (arith, old, new, here))
    where
      made_code :
          (st : State) (addr c : ℕ)
          → (st.code c ≡ [])
          → (create_account m.empty_code_hash st addr).code c ≡ []
      made_code st addr c h = ground arith

  pre_check-code :
      (msg : TxMessage) (block : Block) (st : State)
      → (pre_check m.empty_code_hash msg block st).1.code ≡ st.code
  unfolding pre_check buy_gas sub_balance
  pre_check-code msg block st = ground arith

  settle-code :
      (msg : TxMessage) (block : Block) (snapshot : State) (base before : ℕ) (o : Outcome) (b : ℕ)
      → (snapshot.code b ≡ [])
      → (o.state.code b ≡ [])
      → (settle m msg block snapshot base before o).1.code b ≡ []
  unfolding settle refund_gas add_balance
  settle-code msg block snapshot base before o b h k = ground arith

  apply_transaction-code :
      (msg : TxMessage) (block : Block) (st : State) (b : ℕ)
      → (st.code b ≡ [])
      → ((gas : ℕ)
          → (execute m msg gas (pre_check m.empty_code_hash msg block st).1).state.code b ≡ [])
      → (apply_transaction m msg block st).1.code b ≡ []
  unfolding apply_transaction apply_bought
  apply_transaction-code msg block st b here runs =
      let bought = (pre_check m.empty_code_hash msg block st).1 in
      let same : bought.code b ≡ [] = ap (λ f. f b) (pre_check-code msg block st) ∙ here in
      elim (Intrinsic-cases (intrinsic_gas msg.payload msg.access_list (is_creation msg))) [
        | inl e ↦ ground (arith, same)
        | inr (inl e) ↦ ground (arith, same)
        | inr (inr (base, e)) ↦
            let left = msg.gas_limit - base in
            let last =
              settle-code msg block st base left (execute m msg left bought) b here (runs left) in
            ground (arith, last, same)
      ]

  -- Where no account has code, `ApplyTransaction` does not panic on a transfer, which is a transaction with
  -- an access list and a recipient, whatever the interpreter and the precompiled contracts do, and no
  -- account has code after it.
  pub IsTransfer-IsCalm :
      (signer : Transaction → Option ℕ) (block : Block) → IsCalm m signer block IsTransfer HasNoCode
  unfolding message execute set_nonce
  IsTransfer-IsCalm signer block = record {
    returns = λ tx price p st ((al, listed), to) safe.
        apply_transaction-panicked m (message signer tx price p) block st al listed
          (λ gas. (transferred tx price p st to safe gas 0).0);
    keeps = λ tx price p st (listed, to) safe b.
        apply_transaction-code (message signer tx price p) block st b (safe b)
          (λ gas. (transferred tx price p st to safe gas b).1);
  }
    where
      transferred :
          (tx : Transaction) (price : ℕ) (p : Bool) (st : State)
          → ((a : ℕ) × (tx.to ≡ some a))
          → HasNoCode st
          → (gas b : ℕ)
          → let r =
              execute m
                (message signer tx price p)
                gas
                (pre_check m.empty_code_hash (message signer tx price p) block st).1 in
            (r.panicked ≡ false) × (r.state.code b ≡ [])
      transferred tx price p st (a, e) safe gas b =
          let msg = message signer tx price p in
          let bought = (pre_check m.empty_code_hash msg block st).1 in
          let empty : HasNoCode bought =
            λ c. ap (λ f. f c) (pre_check-code msg block st) ∙ safe c in
          rw (e, execute)
            (call-code 0 (set_nonce bought msg.from ((bought.nonce msg.from + 1) % u64)) msg.from a
              msg.payload gas msg.value p b empty)
