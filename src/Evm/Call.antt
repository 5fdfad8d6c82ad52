-- ===== src/Evm/Call.antt =====
-- What a call and a creation leave behind, and the gas that they return.
use pangu.Prelude.{ℕ, ◌≤◌, ◌≡◌, Bool, Option, some, List, arith, Option-cases, inl, inr}
use pangu.World.{State, create_account}
use pangu.Evm.{
  Error, Contract, Machine, failed, or_revert, call_code, call, store_code, create, transfer,
}

-- The interpreter and the precompiled contracts return no more gas than they are given.
pub record KeepsGas (m : Machine) : Type 0 where
  pub run_gas :
      (c : Contract) (input : List ℕ) (p : Bool) (st : State)
      → (m.run c input p st).gas_remain ≤ c.gas
  pub precompile_gas :
      (addr : ℕ) (p : List ℕ → ℕ → List ℕ × ℕ × Option Error) (input : List ℕ) (gas : ℕ)
      → m.precompile addr ≡ some p
      → (p input gas).1 ≤ gas

module _ (m : Machine) where
  call_code_failed :
      (snapshot st : State) (caller addr : ℕ) (input : List ℕ) (gas value : ℕ) (p : Bool)
      (e : Error)
      → (call_code m snapshot st caller addr input gas value p).err ≡ some e
      → (call_code m snapshot st caller addr input gas value p).state ≡ snapshot
  unfolding call_code or_revert
  call_code_failed snapshot st caller addr input gas value p e h = ground arith

  -- A call that ends in an error leaves the state as it was: no value is transferred and no account
  -- is created.
  pub call_failed :
      (depth : ℕ) (st : State) (caller addr : ℕ) (input : List ℕ) (gas value : ℕ) (p : Bool)
      → (e : Error) → (call m depth st caller addr input gas value p).err ≡ some e
      → (call m depth st caller addr input gas value p).state ≡ st
  unfolding call failed
  call_failed depth st caller addr input gas value p e h = ground (
    arith,
    call_code_failed st (transfer st caller addr value) caller addr input gas value p e,
    call_code_failed st (transfer (create_account m.empty_code_hash st addr) caller addr value)
        caller addr input gas value p e,
  )

  module _ (k : KeepsGas m) where
    call_code_gas :
        (snapshot st : State) (caller addr : ℕ) (input : List ℕ) (gas value : ℕ) (p : Bool)
        → (call_code m snapshot st caller addr input gas value p).gas_remain ≤ gas
    unfolding call_code or_revert
    call_code_gas snapshot st caller addr input gas value p =
        elim (Option-cases (m.precompile addr)) [
          | inl e ↦ grind (arith, k.run_gas)
          | inr (f, e) ↦ ground (arith, k.precompile_gas addr f input gas e)
        ]

    -- A call returns no more gas than it is given, on every branch, given an interpreter and
    -- precompiled contracts that return no more gas than they get.
    pub call_gas :
        (depth : ℕ) (st : State) (caller addr : ℕ) (input : List ℕ) (gas value : ℕ) (p : Bool)
        → (call m depth st caller addr input gas value p).gas_remain ≤ gas
    unfolding call failed
    call_gas depth st caller addr input gas value p = grind (arith, call_code_gas)

    pub create_gas :
        (depth : ℕ) (st : State) (caller : ℕ) (code : List ℕ) (gas value : ℕ) (p : Bool)
        → (create m depth st caller code gas value p).gas_remain ≤ gas
    unfolding create failed store_code
    create_gas depth st caller code gas value p = grind (arith, k.run_gas)
