-- ===== src/Executor.antt =====
-- executor/executor_server.go: `ExecuteLoop`, which makes a block of the transactions of each event of the
-- execution pool, runs it and puts it on the chain, and `CommitBlock`, which decodes a block for the pool.
-- The state at a root, `WriteBlockAndSetHead` of core/blockchain.go (`none` on an error), and what Classify
-- and Thread take as parameters are parameters. The clock and what is printed are left out. A panic is
-- `none`.
pub mod Blocks
use pangu.Prelude.{
  ℕ, ◌+◌, ◌≡◌, refl, Bool, true, false, inl, inr, Option-cases, Bool-cases, Option, none, some,
  List, [], ◌∷◌, ◌++◌, ◌>>=◌, arith, ◌≤◌, ==_iff, if◌then◌else◌, All, Returns, Returns-bind,
  Returns-meet,
}
use pangu.World.{State}
use pangu.Evm.{Machine}
use pangu.Transition.{Block}
use pangu.Message.{Transaction, serial_less}
use pangu.Thread.{Shared}
use pangu.Thread.Account.{count_txs, count_receipts, count_errors}
use pangu.Thread.Process.{Processed, process, count_groups, Settles, process-count}
use pangu.Classify.{classify_tx}
use pangu.Classify.Resources.{Readable}
use pangu.Classify.Groups.{classify_tx-count}
use pangu.Classify.Kind.{classify_tx-fit}
use pangu.Thread.Calm.{IsCalm}

-- `CurrentBlock`, as far as a new block depends on it.
pub record Chain : Type 0 where
  pub number : ℕ
  pub root : ℕ

-- What the executor uses of the rest of the node.
pub record Node : Type 0 where
  pub machine : Machine
  pub signer : Transaction → Option ℕ
  pub sort : (Transaction → Transaction → Bool) → List Transaction → List Transaction
  pub finalise : State → State
  pub commit : State → Option ℕ
  pub state_at : ℕ → State
  pub write_block : Chain → Processed → Option Chain

module _ (node : Node) where
  -- `initHeader`, with the address `COINBASE`.
  unfoldable pub init_header : Block
  init_header = record { coinbase = 1; base_fee = 0 }

  -- The state that `Process` starts from, with the base fee of the header and no gas used.
  unfoldable pub begin_block : Chain → Shared
  begin_block chain = record { state = node.state_at chain.root; base_fee = some 0; used_gas = 0 }

  -- `types.Sender`, whose address is zero on an error.
  abbrev pub sender_of : Transaction → ℕ
  sender_of tx = elim (node.signer tx) [ none ↦ 0 | some a ↦ a ]

  -- An event: nothing for one without transactions, and else the block and the chain after it. An error of
  -- `Process` or of the write is a panic.
  unfoldable pub execute_event : Chain → List Transaction → Option (Chain × List Processed)
  unfolding classify_tx process init_header begin_block
  execute_event chain [] = some (chain, [])
  execute_event chain (tx ∷ txs) = classify_tx node.sort sender_of (tx ∷ txs) >>= λ groups.
      process node.machine node.signer init_header (node.sort serial_less) node.finalise node.commit
        groups (begin_block chain)
      >>= λ result. elim result [
        | none ↦ none
        | some p ↦ node.write_block chain p >>= λ next. some (next, p ∷ [])
      ]

  -- `ExecuteLoop`, for the events that come in.
  unfoldable pub execute_loop : Chain → List (List Transaction) → Option (Chain × List Processed)
  unfolding execute_event
  execute_loop chain [] = some (chain, [])
  execute_loop chain (txs ∷ events) =
      execute_event chain txs >>= λ a. execute_loop a.0 events >>= λ b. some (b.0, a.1 ++ b.1)

module _ (decode : List ℕ → Option Transaction) (is_local : Transaction → Bool) where
  -- The loop of `CommitBlock`: the local transactions, the others, and whether the error is set at the end.
  unfoldable pub split_block : List (List ℕ) → Bool → List Transaction × List Transaction × Bool
  split_block [] failed = ([], [], failed)
  split_block (payload ∷ payloads) failed = elim (decode payload) [
    | none ↦ split_block payloads true
    | some tx ↦
        let (locals, remotes, error) = split_block payloads false in
        if is_local tx then (tx ∷ locals, remotes, error) else (locals, tx ∷ remotes, error)
  ]

  -- `CommitBlock`: what goes to `Add` of the execution pool as local and as remote, if there is any, and
  -- the error.
  unfoldable pub commit_block : List (List ℕ) → List (List Transaction × Bool) × Bool
  unfolding split_block
  commit_block payloads =
      let (locals, remotes, error) = split_block payloads false in
      (batch locals true ++ batch remotes false, error)
    where
      batch : List Transaction → Bool → List (List Transaction × Bool)
      batch [] local = []
      batch (tx ∷ txs) local = (tx ∷ txs, local) ∷ []

  last_error :
      (payloads : List (List ℕ)) (failed : Bool) (payload : List ℕ)
      → (split_block (payloads ++ (payload ∷ [])) failed).2
        ≡ (elim (decode payload) [ none ↦ true | some tx ↦ false ])
  unfolding split_block
  last_error [] failed payload = elim (Option-cases (decode payload)) [
    | inl e ↦ rw e refl
    | inr (tx, e) ↦ elim (Bool-cases (is_local tx)) [
      | inl f ↦ rw (e, f) refl
      | inr f ↦ rw (e, f) refl
    ]
  ]
  last_error (x ∷ payloads) failed payload = elim (Option-cases (decode x)) [
    | inl e ↦ rw (e, split_block) (last_error payloads true payload)
    | inr (tx, e) ↦
        let rest = last_error payloads false payload in
        elim (Bool-cases (is_local tx)) [
          | inl f ↦ rw (e, f, split_block) rest
          | inr f ↦ rw (e, f, split_block) rest
        ]
  ]

  -- `CommitBlock` returns an error just if the last transaction of the block does not decode, whatever
  -- happened to those before it.
  pub commit_block-decode :
      (payloads : List (List ℕ)) (payload : List ℕ)
      → (commit_block (payloads ++ (payload ∷ []))).1
        ≡ (elim (decode payload) [ none ↦ true | some tx ↦ false ])
  unfolding commit_block
  commit_block-decode payloads payload = last_error payloads false payload
