-- ===== src/Thread/Process.antt =====
-- core/process.go: `Process`. Its goroutines work on one state, one gas counter and one header. What is
-- modelled is the schedule that runs the groups one after the other, in their order. The sort of the
-- standard library, `Finalise` with the pending objects, and `Commit` (none on an error) are
-- parameters.
use pangu.Prelude.{
  ℕ, ◌+◌, ◌≡◌, refl, true, false, Option, none, some, List, [], ◌∷◌, ◌++◌, ◌>>=◌, arith, Returns,
  Returns-bind, Returns-meet, All, All-append,
}
use pangu.World.{State}
use pangu.Evm.{Machine}
use pangu.Transition.{Block}
use pangu.Message.{Transaction}
use pangu.Thread.{Receipt, TxError, Shared, MessageReturn, empty_return, tx_thread}
use pangu.Thread.Calm.{IsCalm}
use pangu.Thread.Account.{count_txs, count_receipts, count_errors, tx_thread-count}
use pangu.Thread.Serial.{tx_thread-serial}

-- `ProcessReturnMsg`
pub record Processed : Type 0 where
  pub receipt : List Receipt
  pub err_tx : List TxError
  pub al_tx : List Transaction
  pub used_gas : ℕ
  pub root_hash : ℕ

-- The loop over the first channel, on one more return.
unfoldable pub gather : MessageReturn → MessageReturn → MessageReturn
gather value rest = record {
  new_receipt = value.new_receipt ++ rest.new_receipt;
  tx_serial = value.tx_serial ++ rest.tx_serial;
  tx_error = value.tx_error ++ rest.tx_error;
  tx_access_list = [];
}

module _ (m : Machine) (signer : Transaction → Option ℕ) (block : Block)
    (sort : List Transaction → List Transaction) (finalise : State → State)
    (commit : State → Option ℕ) where
  unfoldable pub run_groups : List (List Transaction) → Shared → Option (MessageReturn × Shared)
  unfolding gather tx_thread
  run_groups [] sh = some (empty_return, sh)
  run_groups (txs ∷ groups) sh = tx_thread m signer block true none txs sh >>= λ a.
      run_groups groups a.1 >>= λ r. some (gather a.0 r.0, r.1)

  abbrev settled : Shared → Shared
  settled sh = record sh { state = finalise sh.state }

  -- The serial queue, if there is anything in it.
  unfoldable pub run_serial : List Transaction → Shared → Option (MessageReturn × Shared)
  unfolding tx_thread
  run_serial [] sh = some (empty_return, sh)
  run_serial (tx ∷ txs) sh =
      tx_thread m signer block false none (sort (tx ∷ txs)) sh >>= λ r. some (r.0, settled r.1)

  -- `some none` is an error of `Process`: no return in the channel, or a failed commit.
  unfoldable pub process : List (List Transaction) → Shared → Option (Option Processed)
  unfolding run_groups run_serial
  process [] sh = some none
  process (txs ∷ groups) sh = run_groups (txs ∷ groups) sh >>= λ a.
      run_serial a.0.tx_serial (settled a.1) >>= λ b. elim (commit b.1.state) [
        | none ↦ some none
        | some root ↦ some (
            some (record {
              receipt = a.0.new_receipt ++ b.0.new_receipt;
              err_tx = a.0.tx_error ++ b.0.tx_error;
              al_tx = b.0.tx_access_list;
              used_gas = b.1.used_gas;
              root_hash = root;
            }))
      ]

pub count_txs-append :
    (h : ℕ) (xs ys : List Transaction) → count_txs h (xs ++ ys) ≡ count_txs h xs + count_txs h ys
unfolding count_txs
count_txs-append h [] ys = omega arith
count_txs-append h (x ∷ xs) ys = let e = count_txs-append h xs ys in omega arith

count_receipts-append :
    (h : ℕ) (xs ys : List Receipt)
    → count_receipts h (xs ++ ys) ≡ count_receipts h xs + count_receipts h ys
unfolding count_receipts
count_receipts-append h [] ys = omega arith
count_receipts-append h (x ∷ xs) ys = let e = count_receipts-append h xs ys in omega arith

count_errors-append :
    (h : ℕ) (xs ys : List TxError)
    → count_errors h (xs ++ ys) ≡ count_errors h xs + count_errors h ys
unfolding count_errors
count_errors-append h [] ys = omega arith
count_errors-append h (x ∷ xs) ys = let e = count_errors-append h xs ys in omega arith

-- How often a hash stands in all groups.
unfoldable pub count_groups : ℕ → List (List Transaction) → ℕ
count_groups h [] = 0
count_groups h (txs ∷ groups) = count_txs h txs + count_groups h groups

-- No error, and a hash is accounted for as often as it stands in the block.
abbrev pub Settles : ℕ → List (List Transaction) → Option Processed → Type 0
Settles h groups none = ⊥
Settles h groups (some p) =
    count_receipts h p.receipt + count_errors h p.err_tx ≡ count_groups h groups

module _ (m : Machine) (signer : Transaction → Option ℕ) (block : Block)
    (sort : List Transaction → List Transaction) (finalise : State → State)
    (commit : State → Option ℕ) where
  module _ (Fit : Transaction → Type 0) (Safe : State → Type 0)
      (calm : IsCalm m signer block Fit Safe) where
    run_groups-count :
        (h : ℕ) (groups : List (List Transaction)) (sh : Shared) (fee : ℕ)
        → (sh.base_fee ≡ some fee)
        → All (All Fit) groups
        → Safe sh.state
        → Returns
            (λ r.
              (count_receipts h r.0.new_receipt
                  + count_txs h r.0.tx_serial
                  + count_errors h r.0.tx_error
                ≡ count_groups h groups)
              × ((f : ℕ) × (r.1.base_fee ≡ some f))
              × Safe r.1.state
              × All Fit r.0.tx_serial)
            (run_groups m signer block sort finalise commit groups sh)
    unfolding run_groups gather count_groups count_receipts count_txs count_errors
    run_groups-count h [] sh fee e fit safe = (refl, (fee, e), safe, tt)
    run_groups-count h (txs ∷ groups) sh fee e fit safe =
        Returns-bind _ _ (tx_thread m signer block true none txs sh) _
          (tx_thread-count m signer block true Fit Safe calm h txs none sh fee e fit.0 safe)
          (λ a (c, (f, b), still, left).
            Returns-bind _ _ (run_groups m signer block sort finalise commit groups a.1) _
              (run_groups-count h groups a.1 f b fit.1 still)
              (λ r (d, k, last, rest).
                let p = count_receipts-append h a.0.new_receipt r.0.new_receipt in
                let q = count_txs-append h a.0.tx_serial r.0.tx_serial in
                let s = count_errors-append h a.0.tx_error r.0.tx_error in
                (omega arith, k, last, All-append Fit a.0.tx_serial r.0.tx_serial left rest)))

    module _ (h : ℕ) (sorted : (txs : List Transaction) → count_txs h (sort txs) ≡ count_txs h txs)
        (sorted_fit : (txs : List Transaction) → All Fit txs → All Fit (sort txs))
        (finalised : (st : State) → Safe st → Safe (finalise st))
        (commits : (st : State) → (root : ℕ) × (commit st ≡ some root)) where
      run_serial-count :
          (txs : List Transaction) (sh : Shared) (fee : ℕ)
          → (sh.base_fee ≡ some fee)
          → All Fit txs
          → Safe sh.state
          → Returns
              (λ r.
                count_receipts h r.0.new_receipt + count_errors h r.0.tx_error ≡ count_txs h txs)
              (run_serial m signer block sort finalise commit txs sh)
      unfolding run_serial count_receipts count_errors count_txs
      run_serial-count [] sh fee e fit safe = refl
      run_serial-count (tx ∷ txs) sh fee e fit safe =
          let all = sorted_fit (tx ∷ txs) fit in
          let (a, ran, (c, _, _, _), (done, _)) =
            Returns-meet _ _ (tx_thread m signer block false none (sort (tx ∷ txs)) sh)
              (tx_thread-count m signer block false Fit Safe calm h (sort (tx ∷ txs)) none sh fee e
                all safe)
              (tx_thread-serial m signer block Fit Safe calm (sort (tx ∷ txs)) sh fee e all safe) in
          let kept = sorted (tx ∷ txs) in
          let none_left : count_txs h a.0.tx_serial ≡ 0 = rw done refl in
          rw (ran, Returns) (omega arith)

      -- No transaction of a block is lost, on the schedule that runs the groups one after the other.
      -- Assumed are a sort that keeps the transactions and their kind, a commit that succeeds, a header
      -- with a base fee, and a kind of transactions and of states, to which those of the block belong,
      -- on which `ApplyTransaction` does not panic and which it and `Finalise` keep to. Then `Process`
      -- returns without an error on every block that is not empty, and each hash stands as often among
      -- its receipts and errors (those of transactions that were refused only because they ran in
      -- parallel left out) as in the groups of the block.
      pub process-count :
          (txs : List Transaction) (groups : List (List Transaction)) (sh : Shared) (fee : ℕ)
          → (sh.base_fee ≡ some fee)
          → All (All Fit) (txs ∷ groups)
          → Safe sh.state
          → Returns
              (Settles h (txs ∷ groups))
              (process m signer block sort finalise commit (txs ∷ groups) sh)
      unfolding process
      process-count txs groups sh fee e fit safe =
          Returns-bind _ _ (run_groups m signer block sort finalise commit (txs ∷ groups) sh) _
            (run_groups-count h (txs ∷ groups) sh fee e fit safe)
            (λ a (c, (f, b), still, left).
              Returns-bind _ _
                (run_serial m signer block sort finalise commit a.0.tx_serial
                  (record a.1 { state = finalise a.1.state }))
                _
                (run_serial-count a.0.tx_serial (record a.1 { state = finalise a.1.state }) f b left
                  (finalised a.1.state still))
                (λ r d.
                  let p = count_receipts-append h a.0.new_receipt r.0.new_receipt in
                  let s = count_errors-append h a.0.tx_error r.0.tx_error in
                  let (root, k) = commits r.1.state in rw (k, Returns) (omega arith)))
