-- ===== src/Transition/Transfer.antt =====
-- A transfer to an account without code, from the purchase of the gas to the refund: who pays what.
use pangu.Prelude.{
  ℕ, ◌+◌, ◌-◌, ◌*◌, ◌/◌, ◌^◌, ◌%◌, ◌≤◌, ◌<◌, ◌≡◌, ◌≢◌, refl, sym, ap, ◌∙◌, true, false, not, ◌&&◌,
  length, ◌==◌, Option, none, some, arith, [], ltb, ltb_of_le, if◌then◌else◌,
}
use pangu.Prelude.Int.{pos, ◌+ℤ◌, ◌-ℤ◌, ◌≤ℤ◌}
use pangu.World.{
  State, sub_balance, add_balance, set_nonce, add_balance_self, add_balance_ne, sub_balance_self,
  sub_balance_ne,
}
use pangu.Evm.{Error, Machine, u64, call, call_code, transfer, can_transfer}
use pangu.Transition.{
  TxMessage, is_creation, Block, ExecutionResult, units, intrinsic_gas, pre_check, refund_gas,
  execute, settle, result, apply_bought, apply_transaction,
}
use pangu.Transition.Checks.{price_of, Passes, pre_check_lem}

-- A transfer to an account that exists and has no code.
pub record Plain (m : Machine) (msg : TxMessage) (block : Block) (st : State) (to base : ℕ)
    : Type 0 where
  pub recipient : msg.to ≡ some to
  pub no_precompile : m.precompile to ≡ none
  pub no_code : st.code to ≡ []
  pub exists : st.exist to ≡ true
  pub known_nonce : st.nonce msg.from < 2 ^ 64
  pub passes : Passes m.empty_code_hash msg block st
  pub gas : intrinsic_gas msg.payload msg.access_list false ≡ units base
  pub enough_gas : base ≤ msg.gas_limit
  pub funds_after : pos msg.value ≤ℤ (st.balance msg.from -ℤ pos (price_of msg))
  pub limit : msg.gas_limit < u64
  pub from-ne-to : msg.from ≢ to
  pub from-ne-coinbase : msg.from ≢ block.coinbase
  pub to-ne-coinbase : to ≢ block.coinbase

module _ (m : Machine) (msg : TxMessage) (block : Block) (st : State) (to base : ℕ) where
  abbrev bought : State
  bought = sub_balance st msg.from (pos (price_of msg))

  Plain-bought :
      Plain m msg block st to base → pre_check m.empty_code_hash msg block st ≡ (none, bought)
  Plain-bought p =
      let l = pre_check_lem m.empty_code_hash msg block st p.known_nonce in
      let a = l.0.1 p.passes in λ i. (a i, l.1 a i)

  abbrev bumped : State
  bumped = set_nonce bought msg.from ((bought.nonce msg.from + 1) % u64)

  abbrev charged : State
  charged = sub_balance bumped msg.from (pos msg.value)

  abbrev paid : State
  paid = transfer bumped msg.from to msg.value

  Plain-execute :
      (gas : ℕ)
      → Plain m msg block st to base
      → execute m msg gas bought ≡ record {
        ret = [];
        gas_remain = gas;
        can_parallel = true;
        err = none;
        panicked = false;
        state = paid;
      }
  unfolding execute call call_code sub_balance set_nonce can_transfer
  Plain-execute gas p = ground (arith, p.recipient, p.no_precompile, p.no_code, p.exists)

  abbrev settled : State
  settled =
      add_balance (refund_gas base (msg.gas_limit - base) paid msg) block.coinbase
        (pos (base * msg.gas_tip_cap))

  plain_settle :
      base ≤ msg.gas_limit
      → msg.gas_limit < u64
      → settle m msg block st base (msg.gas_limit - base) (record {
        ret = [];
        gas_remain = msg.gas_limit - base;
        can_parallel = true;
        err = none;
        panicked = false;
        state = paid;
      })
        ≡ (result base none [] false, settled)
  unfolding settle
  plain_settle low high =
      let used : ((base + (msg.gas_limit - base)) % u64 + u64 - (msg.gas_limit - base)) % u64
          ≡ base =
        omega arith in
      let alone : (msg.is_parallel && not true) ≡ false = ground arith in rw (alone, used)

  can_pay :
      Plain m msg block st to base
      → (not (msg.value == 0) && not (can_transfer bought msg.from msg.value)) ≡ false
  unfolding can_transfer
  can_pay p =
      let e = sub_balance_self st msg.from (pos (price_of msg)) in
      let f = p.funds_after in ground arith

  Plain-bought_apply :
      Plain m msg block st to base
      → apply_bought m msg block st bought ≡ (result base none [] false, settled)
  unfolding apply_bought
  Plain-bought_apply p =
      let creation : is_creation msg ≡ false = unfold is_creation in rw p.recipient in
      let gas : intrinsic_gas msg.payload msg.access_list (is_creation msg) ≡ units base =
        rw creation p.gas in
      let low : ltb msg.gas_limit base ≡ false = ltb_of_le _ _ p.enough_gas in
      let size : (is_creation msg && ltb 49152 (length msg.payload)) ≡ false = rw creation in
      rw (gas, low, can_pay p, size, Plain-execute (msg.gas_limit - base) p, apply_bought)
        (plain_settle p.enough_gas p.limit)

  Plain-apply :
      Plain m msg block st to base
      → apply_transaction m msg block st ≡ (result base none [] false, settled)
  unfolding apply_transaction
  Plain-apply p =
      let follow : Option Error × State → ExecutionResult × State = λ r. elim r.0 [
        | some e ↦ (result 0 (some e) [] false, r.1)
        | none ↦ apply_bought m msg block st r.1
      ] in
      ap follow (Plain-bought p) ∙ Plain-bought_apply p

  -- What the sender gets back: the gas that is left and the capped refund, at the price.
  abbrev pub given_back : ℕ
  given_back =
      ((msg.gas_limit - base + (if ltb st.refund (base / 2) then st.refund else base / 2)) % u64)
      * msg.gas_price

  -- A message that passes the checks, with a gas limit of 64 bits that covers the intrinsic gas,
  -- pays to an account that exists, has no code and is no precompiled contract, the sender, the
  -- recipient and the coinbase are three accounts, and the sender can pay the value once more. Then
  -- the execution neither panics nor has an error, the recipient gets the value, and the sender pays it twice, beside
  -- the gas, once in `BuyGas` and once in `Call`.
  pub apply-Plain :
      Plain m msg block st to base
      → ((apply_transaction m msg block st).0.err ≡ none)
        × ((apply_transaction m msg block st).0.panicked ≡ false)
        × ((apply_transaction m msg block st).1.balance to ≡ st.balance to +ℤ pos msg.value)
        × ((apply_transaction m msg block st).1.balance msg.from
            ≡ st.balance msg.from
              -ℤ pos (msg.gas_limit * msg.gas_price + msg.value)
              -ℤ pos msg.value
              +ℤ pos given_back)
  unfolding result refund_gas transfer set_nonce
  apply-Plain p =
      let back = add_balance paid msg.from (pos given_back) in
      let tip = pos (base * msg.gas_tip_cap) in
      let ne_from = λ (e : to ≡ msg.from). p.from-ne-to (sym e) in
      rw (Plain-apply p) (
        refl,
        refl,
        add_balance_ne back block.coinbase tip to p.to-ne-coinbase
            ∙ add_balance_ne paid msg.from (pos given_back) to ne_from
            ∙ add_balance_self charged to (pos msg.value)
            ∙ ap (λ x. x +ℤ pos msg.value)
                (sub_balance_ne bumped msg.from (pos msg.value) to ne_from
                  ∙ sub_balance_ne st msg.from (pos (price_of msg)) to ne_from),
        add_balance_ne back block.coinbase tip msg.from p.from-ne-coinbase
            ∙ add_balance_self paid msg.from (pos given_back)
            ∙ ap (λ x. x +ℤ pos given_back)
                (add_balance_ne charged to (pos msg.value) msg.from p.from-ne-to
                  ∙ sub_balance_self bumped msg.from (pos msg.value)
                  ∙ ap (λ x. x -ℤ pos msg.value)
                      (sub_balance_self st msg.from (pos (price_of msg)))),
      )
