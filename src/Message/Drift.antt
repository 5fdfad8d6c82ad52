-- ===== src/Message/Drift.antt =====
-- What a row of transactions makes of the header's base fee, and the order of the serial queue.
use pangu.Prelude.{
  ℕ, ◌+◌, ◌*◌, ◌≡◌, ◌⊎◌, refl, min, ◌&&◌, not, Bool, true, false, Option, some, List, [], ◌∷◌,
  ◌>>=◌, arith, map,
}
use pangu.Transition.{TxMessage}
use pangu.Message.{Transaction, message, transaction_to_message, serial_less}

module _ (signer : Transaction → Option ℕ) (is_parallel : Bool) where
  -- The messages of transactions that one thread takes in turn from one header.
  unfoldable pub messages : List Transaction → Option ℕ → Option (List TxMessage × Option ℕ)
  messages [] base_fee = some ([], base_fee)
  messages (tx ∷ txs) base_fee = transaction_to_message signer tx base_fee is_parallel >>= λ m.
      messages txs m.2 >>= λ rest. some (m.0 ∷ rest.0, rest.1)

  abbrev pub tips : List Transaction → ℕ
  tips [] = 0
  tips (tx ∷ txs) = tx.tip_cap + tips txs

  -- The prices if the tips of all transactions so far are counted twice.
  abbrev pub drifted : ℕ → List Transaction → List ℕ
  drifted base [] = []
  drifted base (tx ∷ txs) =
      min (base + 2 * tx.tip_cap) tx.fee_cap ∷ drifted (base + 2 * tx.tip_cap) txs

  message_of :
      (tx : Transaction) (base : ℕ)
      → (transaction_to_message signer tx (some base) is_parallel
          ≡ some (
            message signer tx (base + 2 * tx.tip_cap) is_parallel,
            signer tx,
            some (base + 2 * tx.tip_cap),
          ))
        × ((message signer tx (base + 2 * tx.tip_cap) is_parallel).gas_price
            ≡ min (base + 2 * tx.tip_cap) tx.fee_cap)
  unfolding transaction_to_message message
  message_of tx base =
      let same : tx.tip_cap + (base + tx.tip_cap) ≡ base + 2 * tx.tip_cap = omega arith in
      (rw same refl, ground arith)

  -- The header's base fee rises by twice the tip of every transaction that a thread reads: the price of
  -- each message is the smaller of the fee cap and the base fee plus twice its own tip and twice the
  -- tips of all transactions before it, and the base fee is left higher by twice all the tips.
  pub messages-drifted :
      (txs : List Transaction) (base : ℕ)
      → (ms : List TxMessage) × (messages txs (some base) ≡ some (ms, some (base + 2 * tips txs)))
        × (map (λ m. m.gas_price) ms ≡ drifted base txs)
  unfolding messages
  messages-drifted [] base = ([], ground arith, refl)
  messages-drifted (tx ∷ txs) base =
      let (read, price) = message_of tx base in
      let (ms, e, prices) = messages-drifted txs (base + 2 * tx.tip_cap) in
      let left : base + 2 * tx.tip_cap + 2 * tips txs ≡ base + 2 * (tx.tip_cap + tips txs) =
        omega arith in
      (
        message signer tx (base + 2 * tx.tip_cap) is_parallel ∷ ms,
        rw (read, e, left) refl,
        rw (price, prices) refl,
      )

-- `less` of `SortSerialTX` is a strict order: it never holds both ways, it holds one way between any
-- two transactions with different hashes, and it is transitive.
pub serial_less_lem :
    (a b c : Transaction)
    → ((serial_less a b && serial_less b a) ≡ false)
      × ((a.hash ≡ b.hash) ⊎ (serial_less a b ≡ true) ⊎ (serial_less b a ≡ true))
      × ((serial_less a b && serial_less b c && not (serial_less a c)) ≡ false)
unfolding serial_less
serial_less_lem a b c = (ground arith, ground arith, ground arith)
