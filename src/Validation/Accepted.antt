-- ===== src/Validation/Accepted.antt =====
-- What the pool's checks promise of a transaction that they let through.
use pangu.Prelude.{
  ℕ, ◌+◌, ◌-◌, ◌*◌, ◌/◌, ◌≤◌, ◌≡◌, refl, ◌∙◌, Bool, true, false, not, Option, none, some, List, ltb,
  ◌==◌, if◌then◌else◌, length, arith, Option-cases, Bool-cases, inl, inr, le_of_ltb-false,
}
use pangu.Prelude.Int.{ℤ, pos, ◌+ℤ◌, ◌-ℤ◌, ◌≤ℤ◌, ltb_ℤ, int_laws}
use pangu.Transition.{max_u64, to_word_size, non_zero, data_gas}
use pangu.Transition.Gas.{non_zero-le-length}
use pangu.Message.{Transaction}
use pangu.StateObject.{Database}
use pangu.StateDb.{State}
use pangu.StateDb.Reads.{get_nonce, get_balance}
use pangu.TxList.{
  cost, get_tx, TxList, new_list, add_tx, accept, sub_total_cost, is_underpriced, new_sorted_map,
}
use pangu.Validation.{
  PoolError, nonce_too_low, nonce_too_high, insufficient_funds, StateOptions, pool_data_gas, needed,
  is_gapped, pool_options, validate_transaction_with_state, validate_tx,
}

-- The gas of the data by its length, its bytes that are not zero and its words.
abbrev charge : ℕ → ℕ → Bool → ℕ → ℕ → ℕ → Option ℕ
charge base price creation n nz words =
    if n == 0
    then some base
    else if ltb ((max_u64 - base) / price) nz
    then none
    else if ltb ((max_u64 - (base + nz * price)) / 4) (n - nz)
    then none
    else if not creation
    then some (base + nz * price + (n - nz) * 4)
    else if ltb ((max_u64 - (base + nz * price + (n - nz) * 4)) / 2) words
    then none
    else some (base + nz * price + (n - nz) * 4 + words * 2)

charge_call :
    (n nz words gas : ℕ)
    → nz ≤ n
    → charge 21000 68 false n nz words ≡ some gas
    → (asked : ℕ) × (charge 21000 16 false n nz words ≡ some asked) × (gas ≡ asked + 52 * nz)
charge_call n nz words gas le h =
    let asked : ℕ = if n == 0 then 21000 else 21000 + nz * 16 + (n - nz) * 4 in
    (asked, ground arith, ground arith)

charge_creation :
    (n nz words gas : ℕ)
    → nz ≤ n
    → charge 53000 68 true n nz words ≡ some gas
    → (asked : ℕ) × (charge 21000 16 true n nz words ≡ some asked) × (gas ≡ asked + 52 * nz + 32000)
charge_creation n nz words gas le h =
    let asked : ℕ = if n == 0 then 21000 else 21000 + nz * 16 + (n - nz) * 4 + words * 2 in
    (asked, ground arith, ground arith)

-- Where the execution finds a gas for the data, so does the pool, and it asks for less: 52 less for each
-- byte that is not zero, and 32000 less for a creation.
pub data_gas-pool_data_gas :
    (bytes : List ℕ) (creation : Bool) (gas : ℕ)
    → data_gas bytes creation ≡ some gas
    → (asked : ℕ) × (pool_data_gas bytes creation ≡ some asked)
      × (gas ≡ asked + 52 * non_zero bytes + (if creation then 32000 else 0))
unfolding data_gas pool_data_gas
data_gas-pool_data_gas bytes true gas h =
    charge_creation (length bytes) (non_zero bytes) (to_word_size (length bytes)) gas
      (non_zero-le-length bytes) h
data_gas-pool_data_gas bytes false gas h =
    let (asked, e, f) =
      charge_call (length bytes) (non_zero bytes) (to_word_size (length bytes)) gas
        (non_zero-le-length bytes) h in
    (asked, e, f ∙ omega arith)

-- The list that the pool keeps for an account, or a new one.
unfoldable pub list_for : (ℕ → Option TxList) → ℕ → TxList
unfolding new_list
list_for pending a = elim (pending a) [ none ↦ new_list true | some l ↦ l ]

-- Tests that are passed one after the other.
four_passed :
    (b c d e : Bool) (w x y z : PoolError)
    → (if b then some w else if c then some x else if d then some y else if e then some z else none)
      ≡ none
    → (b ≡ false) × (c ≡ false) × (d ≡ false) × (e ≡ false)
four_passed true c d e w x y z h = ground arith
four_passed false true d e w x y z h = ground arith
four_passed false false true e w x y z h = ground arith
four_passed false false false true w x y z h = ground arith
four_passed false false false false w x y z h = (refl, refl, refl, refl)

le_of_ltb_ℤ : (a b : ℤ) → ltb_ℤ a b ≡ false → b ≤ℤ a
le_of_ltb_ℤ a b h = ground arith

-- What the list costs after the addition is what the check took as needed.
covered :
    (p : Option TxList) (tx : Transaction) (price_bump : ℕ) (balance : ℤ)
    → needed
        (elim p [ none ↦ pos 0 | some l ↦ l.totalcost ])
        (elim p [
          | none ↦ none
          | some l ↦ elim (get_tx l.txs tx.nonce) [ none ↦ none | some old ↦ some (cost old) ]
        ])
        (cost tx)
      ≤ℤ balance
    → (add_tx (elim p [ none ↦ new_list true | some l ↦ l ]) tx price_bump).1 ≡ true
    → (add_tx (elim p [ none ↦ new_list true | some l ↦ l ]) tx price_bump).0.totalcost ≤ℤ balance
unfolding needed add_tx accept sub_total_cost get_tx new_list new_sorted_map
covered none tx price_bump balance h added = h
covered (some l) tx price_bump balance h added = elim (Option-cases (get_tx l.txs tx.nonce)) [
  | inl e ↦ rw (e, add_tx) (rw (e, needed) at h)
  | inr (old, e) ↦ elim (Bool-cases (is_underpriced old tx price_bump)) [
    | inl u ↦ cc (rw (e, u, add_tx) at added)
    | inr u ↦
        let h' : l.totalcost +ℤ (pos (cost tx) -ℤ pos (cost old)) ≤ℤ balance =
          rw (e, needed) at h in
        rw (e, u, add_tx) (omega int_laws)
  ]
]

module _ (db : Database) where
  state_accepts :
      (signer : Transaction → Option ℕ) (tx : Transaction) (st : State) (opts : StateOptions)
      (from : ℕ)
      → signer tx ≡ some from
      → validate_transaction_with_state db signer tx st opts ≡ none
      → (get_nonce db st from ≤ tx.nonce)
        × (needed (opts.existing_expenditure from) (opts.existing_cost from tx.nonce) (cost tx)
            ≤ℤ get_balance db st from)
  unfolding validate_transaction_with_state
  state_accepts signer tx st opts from s h =
      let balance = get_balance db st from in
      let (n, g, c, t) =
        four_passed (ltb tx.nonce (get_nonce db st from))
          (is_gapped opts.first_nonce_gap from tx.nonce) (ltb_ℤ balance (pos (cost tx)))
          (ltb_ℤ balance
            (needed (opts.existing_expenditure from) (opts.existing_cost from tx.nonce) (cost tx)))
          nonce_too_low nonce_too_high insufficient_funds insufficient_funds
          (rw (s, validate_transaction_with_state) at h) in
      (le_of_ltb-false tx.nonce (get_nonce db st from) n, le_of_ltb_ℤ balance _ t)

  -- If `validateTx` lets a transaction through and the sender's pending list, or a new one, accepts it,
  -- then the total cost of the list with it is no more than the sender's balance in the state, whether
  -- it is new or replaces one, and its nonce is not below the state's.
  pub validate_tx-add_tx :
      (signer : Transaction → Option ℕ) (tx : Transaction) (st : State)
      (pending : ℕ → Option TxList) (price_bump from : ℕ)
      → signer tx ≡ some from
      → validate_tx db signer tx st pending ≡ none
      → (add_tx (list_for pending from) tx price_bump).1 ≡ true
      → ((add_tx (list_for pending from) tx price_bump).0.totalcost ≤ℤ get_balance db st from)
        × (get_nonce db st from ≤ tx.nonce)
  unfolding validate_tx list_for
  validate_tx-add_tx signer tx st pending price_bump from s h added =
      let (n, enough) = state_accepts signer tx st (pool_options db pending) from s h in
      (
        covered (pending from) tx price_bump (get_balance db st from)
            (unfold pool_options in enough) added,
        n,
      )
