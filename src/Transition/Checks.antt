-- ===== src/Transition/Checks.antt =====
-- What the checks of `PreCheck` let through, and what they leave behind.
use pangu.Prelude.{
  ℕ, ◌+◌, ◌*◌, ◌^◌, ◌≤◌, ◌<◌, ◌≡◌, ◌≢◌, ◌⊎◌, ◌↔◌, none, some, inl, inr, Option-cases, arith,
}
use pangu.Prelude.Int.{pos, ◌≤ℤ◌}
use pangu.World.{State, sub_balance}
use pangu.Transition.{TxMessage, Block, buy_gas, fee_error, sender_error, pre_check}

-- What gas limit times price and the value come to.
abbrev pub price_of : TxMessage → ℕ
price_of msg = msg.gas_limit * msg.gas_price + msg.value

-- A message that passes.
pub record Passes (empty_code_hash : ℕ) (msg : TxMessage) (block : Block) (st : State)
    : Type 0 where
  pub right_nonce : st.nonce msg.from ≡ msg.nonce
  pub not_last : msg.nonce + 1 < 2 ^ 64
  pub no_code : (st.code_hash msg.from ≡ 0) ⊎ (st.code_hash msg.from ≡ empty_code_hash)
  pub fees :
      ((msg.gas_fee_cap ≡ 0) × (msg.gas_tip_cap ≡ 0))
      ⊎ ((msg.gas_fee_cap < 2 ^ 256)
          × (msg.gas_tip_cap ≤ msg.gas_fee_cap)
          × (block.base_fee ≤ msg.gas_fee_cap))
  pub funds : pos (price_of msg) ≤ℤ st.balance msg.from

module _ (hash : ℕ) (msg : TxMessage) (block : Block) (st : State) where
  sender_error_iff :
      st.nonce msg.from < 2 ^ 64
      → (sender_error hash msg st ≡ none) ↔ (
          (st.nonce msg.from ≡ msg.nonce)
          × (msg.nonce + 1 < 2 ^ 64)
          × ((st.code_hash msg.from ≡ 0) ⊎ (st.code_hash msg.from ≡ hash)))
  unfolding sender_error
  sender_error_iff h = (λ e. ground arith, λ e. ground arith)

  fee_error_iff : (fee_error msg block ≡ none) ↔ (
      ((msg.gas_fee_cap ≡ 0) × (msg.gas_tip_cap ≡ 0))
      ⊎ ((msg.gas_fee_cap < 2 ^ 256)
          × (msg.gas_tip_cap ≤ msg.gas_fee_cap)
          × (block.base_fee ≤ msg.gas_fee_cap)))
  unfolding fee_error
  fee_error_iff = (λ e. ground arith, λ e. ground arith)

  buy_gas_iff : ((buy_gas msg st).0 ≡ none) ↔ (pos (price_of msg) ≤ℤ st.balance msg.from)
  unfolding buy_gas
  buy_gas_iff = (λ e. ground arith, λ e. ground arith)

  -- The outcome in three parts, which the lemmas on `ApplyTransaction` use.
  pub pre_check_lem :
      st.nonce msg.from < 2 ^ 64
      → (((pre_check hash msg block st).0 ≡ none) ↔ Passes hash msg block st)
        × (((pre_check hash msg block st).0 ≡ none)
            → (pre_check hash msg block st).1 ≡ sub_balance st msg.from (pos (price_of msg)))
        × (((pre_check hash msg block st).0 ≢ none) → (pre_check hash msg block st).1 ≡ st)
  unfolding pre_check buy_gas
  pre_check_lem h = (
    (
      λ e.
          let s : sender_error hash msg st ≡ none = ground arith in
          let f : fee_error msg block ≡ none = ground arith in
          let a = (sender_error_iff h).0 s in
          record {
            right_nonce = a.0;
            not_last = a.1;
            no_code = a.2;
            fees = fee_error_iff.0 f;
            funds = ground arith;
          },
      λ p.
          let s = (sender_error_iff h).1 (p.right_nonce, p.not_last, p.no_code) in
          let f = fee_error_iff.1 p.fees in let b = buy_gas_iff.1 p.funds in ground arith,
    ),
    λ e. ground arith,
    λ e. ground arith,
  )

  -- `PreCheck` lets a message through exactly if its nonce is the sender's and not the last one, the
  -- sender has no code, the fee caps are in order, and the sender can pay the gas limit at the price and
  -- the value, for a sender whose nonce is a 64-bit number. It then takes that sum from the sender, and
  -- changes nothing else; when it refuses, it changes nothing.
  pub pre_check_iff :
      st.nonce msg.from < 2 ^ 64
      → (((pre_check hash msg block st).0 ≡ none) ↔ Passes hash msg block st)
        × ((pre_check hash msg block st).1 ≡ elim (pre_check hash msg block st).0 [
          | none ↦ sub_balance st msg.from (pos (price_of msg))
          | some _ ↦ st
        ])
  pre_check_iff h =
      let (iff, taken, same) = pre_check_lem h in
      (
        iff,
        elim (Option-cases (pre_check hash msg block st).0) [
          | inl e ↦ rw e (taken e)
          | inr (x, e) ↦ rw e (same (λ k. cc))
        ],
      )
